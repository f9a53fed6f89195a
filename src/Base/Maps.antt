-- ===== src/Base/Maps.antt =====
-- Maps with one value for a key (`HashMap`, `DashMap`, `BTreeMap` where its order is not read) as
-- association lists. `insert` replaces in place and appends a new key.
use mathlib.Core.Path.{◌≡◌, sym, ◌∙◌, refl}
use mathlib.Core.Bool.{Bool, true, false}
use mathlib.Core.Option.{Option, none, some}
use mathlib.Core.List.{List, [], ◌∷◌}
use native.Mathlib.Omega.{arith}
use Prim.Native.Nat.{ℕ, suc}
use mathlib.Core.List.{◌++◌}
use graphloom.Base.Tests.{PartialEq, ◌==◌, if◌then◌else◌}
use graphloom.Base.Lists.{length, get_elem?}
use graphloom.Base.Tests.{Bool-cases, Option-cases}
use mathlib.Core.Logic.{◌⊎◌, ◌≢◌, inl, inr}

pub beq_refl {ℓ} : {K : Type ℓ} ⦃e : PartialEq K⦄ (k : K) → (k == k) ≡ true
beq_refl ⦃e⦄ k = (e.eq_test_iff k k).1 refl

true≢false : ¬ (true ≡ false)
true≢false h = cc

module _ {ℓ κ} {K : Type ℓ} {V : Type κ} ⦃test : PartialEq K⦄ where
  unfoldable pub remove : K → List (K × V) → List (K × V)
  remove key [] = []
  remove key (entry ∷ rest) =
      let kept = remove key rest in if entry.0 == key then kept else entry ∷ kept

  unfoldable pub lookup : K → List (K × V) → Option V
  lookup key [] = none
  lookup key (entry ∷ rest) = if entry.0 == key then some entry.1 else lookup key rest

  unfoldable pub insert : K → V → List (K × V) → List (K × V)
  insert key value [] = (key, value) ∷ []
  insert key value (entry ∷ rest) =
      if entry.0 == key then (key, value) ∷ rest else entry ∷ insert key value rest

  abbrev pub contains_key : K → List (K × V) → Bool
  contains_key key m = elim (lookup key m) [ none ↦ false | some _ ↦ true ]

  pub lookup-remove :
      (key other : K) (m : List (K × V))
      → lookup other (remove key m) ≡ (if key == other then none else lookup other m)
  unfolding lookup remove
  lookup-remove key other [] = ground arith
  lookup-remove key other (entry ∷ rest) = ground (
    arith,
    lookup-remove key other rest,
    test.eq_test_iff entry.0 key,
    test.eq_test_iff entry.0 other,
    test.eq_test_iff key other,
  )

  pub lookup-insert :
      (key other : K) (value : V) (m : List (K × V))
      → lookup other (insert key value m) ≡ (if key == other then some value else lookup other m)
  unfolding lookup insert
  lookup-insert key other value [] = refl
  lookup-insert key other value (entry ∷ rest) = ground (
    arith,
    lookup-insert key other value rest,
    test.eq_test_iff entry.0 key,
    test.eq_test_iff entry.0 other,
    test.eq_test_iff key other,
  )

-- Keys decided, and what an insertion does to each.
module _ {ℓ κ} {K : Type ℓ} {V : Type κ} ⦃test : PartialEq K⦄ where
  pub lookup-insert_same : (k : K) (v : V) (m : List (K × V)) → lookup k (insert k v m) ≡ some v
  lookup-insert_same k v m = ground (arith, lookup-insert k k v m, test.eq_test_iff k k)

  pub lookup-insert_ne :
      (k j : K) (v : V) (m : List (K × V)) → k ≢ j → lookup j (insert k v m) ≡ lookup j m
  lookup-insert_ne k j v m h = ground (arith, lookup-insert k j v m, test.eq_test_iff k j)

pub key-cases {ℓ} : {K : Type ℓ} ⦃test : PartialEq K⦄ (k j : K) → (k ≡ j) ⊎ (k ≢ j)
key-cases ⦃test⦄ k j = elim (Bool-cases (k == j)) [
  | inl e ↦ inl ((test.eq_test_iff k j).0 e)
  | inr e ↦ inr (λ same. absurd (true≢false (sym ((test.eq_test_iff k j).1 same) ∙ e)))
]

pub ne→beq {ℓ} : {K : Type ℓ} ⦃test : PartialEq K⦄ (k j : K) → k ≢ j → (k == j) ≡ false
ne→beq ⦃test⦄ k j h = elim (Bool-cases (k == j)) [
  | inl e ↦ absurd (h ((test.eq_test_iff k j).0 e))
  | inr e ↦ e
]

pub eq→beq {ℓ} : {K : Type ℓ} ⦃test : PartialEq K⦄ (k j : K) → k ≡ j → (k == j) ≡ true
eq→beq ⦃test⦄ k j h = (test.eq_test_iff k j).1 h

-- The position of the first element that has a key, which is what a map from keys to positions holds.
module _ {ℓ κ} {K : Type ℓ} {G : Type κ} ⦃test : PartialEq K⦄ (key_of : G → K) where
  abbrev pub position : K → List G → Option ℕ
  position k [] = none
  position k (g ∷ gs) =
      if key_of g == k then some 0 else elim (position k gs) [ none ↦ none | some i ↦ some (suc i) ]

  pub position_snoc :
      (k : K) (gs : List G) (g : G)
      → position k (gs ++ g ∷ []) ≡ elim (position k gs) [
        | some i ↦ some i
        | none ↦ if key_of g == k then some (length gs) else none
      ]
  position_snoc k [] g = ground arith
  position_snoc k (x ∷ gs) g = ground (arith, position_snoc k gs g)

  pub position-get_elem? :
      (k : K) (i : ℕ) (gs : List G)
      → position k gs ≡ some i
      → (g : G) × (get_elem? gs i ≡ some g) × (key_of g ≡ k)
  position-get_elem? k i [] h = ground arith
  position-get_elem? k i (g ∷ gs) h = elim (Bool-cases (key_of g == k)) [
    | inl e ↦ (g, ground arith, ground (arith, test.eq_test_iff (key_of g) k))
    | inr e ↦ elim (Option-cases (position k gs)) [
      | inl n ↦ ground arith
      | inr (j, n) ↦
          (let (found, there, key) = position-get_elem? k j gs n in (found, ground arith, key))
    ]
  ]
