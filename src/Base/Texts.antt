-- ===== src/Base/Texts.antt =====
-- Text as its UTF-8 bytes, which is how Rust measures, compares and orders a `str`.
use Prim.Native.Nat.{ℕ, compare, Ordering}
use Prim.Native.Char.{code}
use Prim.Native.String.{String}
use mathlib.Core.Path.{◌≡◌, refl}
use mathlib.Core.Logic.{◌↔◌}
use mathlib.Core.Bool.{Bool, true, false, ◌&&◌}
use mathlib.Core.List.{List, [], ◌∷◌}
use native.Mathlib.Omega.{arith}
use graphloom.Base.Tests.{PartialEq, eqb}

abbrev pub Text : Type 0
Text = List ℕ

-- The bytes of an ASCII literal.
abbrev pub codes : String → Text
codes String.[] = []
codes (String.◌∷◌ c s) = code c ∷ codes s

unfoldable pub text_beq : Text → Text → Bool
text_beq [] [] = true
text_beq (a ∷ s) (b ∷ t) = eqb a b && text_beq s t
text_beq _ _ = false

pub text_beq_iff : (s t : Text) → (text_beq s t ≡ true) ↔ (s ≡ t)
unfolding text_beq
text_beq_iff [] [] = ground arith
text_beq_iff [] (b ∷ t) = ground arith
text_beq_iff (a ∷ s) [] = ground arith
text_beq_iff (a ∷ s) (b ∷ t) = ground (arith, text_beq_iff s t)

instance abbrev pub text_eq : PartialEq Text
text_eq = record { eq_test = text_beq; eq_test_iff = text_beq_iff }

-- Byte-wise lexicographic order: `str::cmp`.
unfoldable pub text_cmp : Text → Text → Ordering
text_cmp [] [] = Ordering.eq
text_cmp [] (b ∷ t) = Ordering.lt
text_cmp (a ∷ s) [] = Ordering.gt
text_cmp (a ∷ s) (b ∷ t) = elim (compare a b) [
  | Ordering.lt ↦ Ordering.lt
  | Ordering.gt ↦ Ordering.gt
  | Ordering.eq ↦ text_cmp s t
]

pub text_cmp_eq : (s t : Text) → text_cmp s t ≡ Ordering.eq → s ≡ t
unfolding text_cmp
text_cmp_eq [] [] h = refl
text_cmp_eq [] (b ∷ t) h = ground arith
text_cmp_eq (a ∷ s) [] h = ground arith
text_cmp_eq (a ∷ s) (b ∷ t) h = ground (arith, text_cmp_eq s t)

pub text_cmp_refl : (s : Text) → text_cmp s s ≡ Ordering.eq
unfolding text_cmp
text_cmp_refl [] = refl
text_cmp_refl (a ∷ s) = ground (arith, text_cmp_refl s)

pub text_cmp_swap :
    (s t : Text)
    → (text_cmp s t ≡ Ordering.lt → text_cmp t s ≡ Ordering.gt)
      × (text_cmp s t ≡ Ordering.gt → text_cmp t s ≡ Ordering.lt)
unfolding text_cmp
text_cmp_swap [] [] = ground arith
text_cmp_swap [] (b ∷ t) = ground arith
text_cmp_swap (a ∷ s) [] = ground arith
text_cmp_swap (a ∷ s) (b ∷ t) = ground (arith, text_cmp_swap s t)
