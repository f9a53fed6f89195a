-- ===== src/Base/Sorting.antt =====
-- `slice::sort_by`: a stable sort by a comparison. Rust documents the result, not the algorithm:
-- the list in order, with elements that compare equal in their first order.
use Prim.Native.Nat.{Ordering}
use mathlib.Core.List.Perm
use mathlib.Core.List.{Perm}
use graphloom.Base.{
  List, [], ◌∷◌, ◌≢◌, ◌≡◌, arith, take, ℕ, zero, suc, Text, text_cmp, text_cmp_swap, refl,
}
use graphloom.Base.Preds.{All, All-take}

module _ {ℓ} {A : Type ℓ} (cmp : A → A → Ordering) where
  unfoldable pub insert_by : A → List A → List A
  insert_by x [] = x ∷ []
  insert_by x (y ∷ ys) = elim (cmp x y) [ Ordering.gt ↦ y ∷ insert_by x ys | _ ↦ x ∷ y ∷ ys ]

  unfoldable pub sort_by : List A → List A
  unfolding insert_by
  sort_by [] = []
  sort_by (x ∷ xs) = insert_by x (sort_by xs)

  -- `a` may stand before `b`.
  abbrev pub Le : A → A → Type 0
  Le a b = cmp a b ≢ Ordering.gt

  abbrev pub IsSorted : List A → Type ℓ
  IsSorted [] = Unit
  IsSorted (x ∷ xs) = All (Le x) xs × IsSorted xs

  -- What Rust asks of a comparison: it is total and transitive.
  pub record IsOrder : Type ℓ where
    pub le_total : (a b : A) → cmp a b ≡ Ordering.gt → Le b a
    pub le_trans : (a b c : A) → Le a b → Le b c → Le a c

  insert_by-perm : (x : A) (ys : List A) → Perm (insert_by x ys) (x ∷ ys)
  unfolding insert_by
  insert_by-perm x [] = Perm.refl _
  insert_by-perm x (y ∷ ys) =
      let tail = Perm.trans (Perm.cons y (insert_by-perm x ys)) (Perm.swap x y ys) in
      ground (arith, tail, Perm.refl (x ∷ y ∷ ys))

  pub sort_by-perm : (xs : List A) → Perm (sort_by xs) xs
  unfolding sort_by
  sort_by-perm [] = Perm.refl _
  sort_by-perm (x ∷ xs) = Perm.trans (insert_by-perm x (sort_by xs)) (Perm.cons x (sort_by-perm xs))

  All-insert_by : (P : A → Type 0) (x : A) (ys : List A) → P x → All P ys → All P (insert_by x ys)
  unfolding insert_by
  All-insert_by P x [] px h = (px, tt)
  All-insert_by P x (y ∷ ys) px h = ground (arith, All-insert_by P x ys px h.1)

  All-Le_trans : IsOrder → (a b : A) (ys : List A) → Le a b → All (Le b) ys → All (Le a) ys
  All-Le_trans o a b [] h k = tt
  All-Le_trans o a b (y ∷ ys) h k = (o.le_trans a b y h k.0, All-Le_trans o a b ys h k.1)

  insert_by-IsSorted : IsOrder → (x : A) (ys : List A) → IsSorted ys → IsSorted (insert_by x ys)
  unfolding insert_by
  insert_by-IsSorted o x [] h = (tt, tt)
  insert_by-IsSorted o x (y ∷ ys) h = go (insert_by-IsSorted o x ys h.1) (cmp x y) refl
    where
      go :
          IsSorted (insert_by x ys)
          → (r : Ordering) → cmp x y ≡ r
          → IsSorted (elim r [ Ordering.gt ↦ y ∷ insert_by x ys | _ ↦ x ∷ y ∷ ys ])
      go rest Ordering.gt e = (All-insert_by (Le y) x ys (o.le_total x y e) h.0, rest)
      go rest Ordering.lt e = ((λ g. cc, All-Le_trans o x y ys (λ g. cc) h.0), h)
      go rest Ordering.eq e = ((λ g. cc, All-Le_trans o x y ys (λ g. cc) h.0), h)

  pub sort_by-IsSorted : IsOrder → (xs : List A) → IsSorted (sort_by xs)
  unfolding sort_by
  sort_by-IsSorted o [] = tt
  sort_by-IsSorted o (x ∷ xs) = insert_by-IsSorted o x (sort_by xs) (sort_by-IsSorted o xs)

  pub take-IsSorted : (n : ℕ) (xs : List A) → IsSorted xs → IsSorted (take n xs)
  take-IsSorted zero xs h = tt
  take-IsSorted (suc n) [] h = tt
  take-IsSorted (suc n) (x ∷ xs) h = (All-take (Le x) n xs h.0, take-IsSorted n xs h.1)

  pub All-sort_by : (P : A → Type 0) (xs : List A) → All P xs → All P (sort_by xs)
  unfolding sort_by
  All-sort_by P [] h = tt
  All-sort_by P (x ∷ xs) h = All-insert_by P x (sort_by xs) h.0 (All-sort_by P xs h.1)

text_cmp_le_trans :
    (s t u : Text)
    → text_cmp s t ≢ Ordering.gt
    → text_cmp t u ≢ Ordering.gt
    → text_cmp s u ≢ Ordering.gt
unfolding text_cmp
text_cmp_le_trans [] [] [] h k = ground arith
text_cmp_le_trans [] [] (c ∷ u) h k = ground arith
text_cmp_le_trans [] (b ∷ t) u h k = elim u as (λ u. text_cmp [] u ≢ Ordering.gt) [
  | [] ↦ λ e. cc
  | c ∷ u ↦ λ e. cc
]
text_cmp_le_trans (a ∷ s) [] u h k = absurd (h refl)
text_cmp_le_trans (a ∷ s) (b ∷ t) [] h k = absurd (k refl)
text_cmp_le_trans (a ∷ s) (b ∷ t) (c ∷ u) h k = ground (arith, text_cmp_le_trans s t u)

pub text_cmp-IsOrder : IsOrder text_cmp
text_cmp-IsOrder = record {
  le_total = λ s t g e. ground (arith, text_cmp_swap s t);
  le_trans = text_cmp_le_trans;
}
