-- ===== src/Base/Results.antt =====
-- `Result<A, E>` with the `?` operator as bind, and the checked arithmetic of `u64`.
use Prim.Native.Nat.{ℕ, ◌+◌, ◌^◌, ◌-◌}
use mathlib.Core.Path.{◌≡◌, refl}
use mathlib.Core.Logic.{◌⊎◌, inl, inr}
use mathlib.Core.Bool.{Bool, true, false}
use mathlib.Core.Option.{Option, none, some}
use mathlib.Core.List.{List, [], ◌∷◌}
use graphloom.Base.Tests.{if◌then◌else◌, leb}

pub data Result {ℓ κ} (E : Type ℓ) (T : Type κ) : Type (ℓ ⊔ κ) where
  ok : T → Result E T
  err : E → Result E T

abbrev pub ok_or {ℓ κ} : {E : Type ℓ} {T : Type κ} → Option T → E → Result E T
ok_or none failure = err failure
ok_or (some value) failure = ok value

module _ {ℓ κ} {E : Type ℓ} {T : Type κ} where
  infixl 5 ◌>>=◌ ◌>>◌
  -- `let value = first?; rest(value)`
  abbrev pub ◌>>=◌ {μ} : {U : Type μ} (first : Result E T) (rest : T → Result E U) → Result E U
  err failure >>= rest = err failure
  ok value >>= rest = rest value

  -- `first?; rest`, for a call that returns nothing.
  abbrev pub ◌>>◌ : (first : Result E (Unit {0})) (rest : Result E T) → Result E T
  err failure >> rest = err failure
  ok _ >> rest = rest

-- `if !test { return Err(e) }`
abbrev pub guard {ℓ} : {E : Type ℓ} → Bool → E → Result E (Unit {0})
guard true e = ok tt
guard false e = err e

module _ {ℓ κ μ} {E : Type ℓ} {T : Type κ} {U : Type μ} where
  pub >>=-eq-ok :
      (first : Result E T) (rest : T → Result E U) {u : U}
      → (first >>= rest) ≡ ok u
      → (value : T) × (first ≡ ok value) × (rest value ≡ ok u)
  >>=-eq-ok (err failure) rest h = cc
  >>=-eq-ok (ok value) rest h = (value, refl, h)

pub Result-cases {ℓ κ} :
    {E : Type ℓ} {A : Type κ} (r : Result E A) → ((a : A) × (r ≡ ok a)) ⊎ ((e : E) × (r ≡ err e))
Result-cases (ok a) = inl (a, refl)
Result-cases (err e) = inr (e, refl)

pub ok-injective {ℓ κ} :
    {E : Type ℓ} {A : Type κ} {a b : A} → ◌≡◌ {A = Result E A} (ok a) (ok b) → a ≡ b
ok-injective h = cc

pub ok≢err {ℓ κ} :
    {E : Type ℓ} {A : Type κ} (a : A) (e : E) → ¬ (◌≡◌ {A = Result E A} (ok a) (err e))
ok≢err a e h = cc

-- `iter().map(f).collect::<Result<Vec<_>>>()`: stops at the first error.
abbrev pub try_map {ℓ κ μ} :
    {E : Type ℓ} {A : Type κ} {B : Type μ} → (A → Result E B) → List A → Result E (List B)
try_map f [] = ok []
try_map f (x ∷ xs) = f x >>= λ y. try_map f xs >>= λ ys. ok (y ∷ ys)

abbrev pub u64_max : ℕ
u64_max = 2 ^ 64 - 1

abbrev pub checked_add : ℕ → ℕ → Option ℕ
checked_add a b = if leb (a + b) u64_max then some (a + b) else none

abbrev pub i64_max : ℕ
i64_max = 2 ^ 63 - 1

-- `Result::is_ok`
abbrev pub is_ok {ℓ κ} : {E : Type ℓ} {A : Type κ} → Result E A → Bool
is_ok (ok _) = true
is_ok (err _) = false
