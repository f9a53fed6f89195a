-- ===== src/Query/Concurrency/Indexed.antt =====
-- Lists of values with indexes, for query/concurrency.rs: what an index has in a list is enough to know
-- the list once it is sorted.
use graphloom.Base.{
  ℕ, zero, suc, ◌<◌, ◌≤◌, ◌≡◌, refl, ap, ◌∙◌, List, [], ◌∷◌, ◌++◌, ◌==◌, nat_eq, if◌then◌else◌,
  arith, length, Bool-cases, inl, inr,
}
use graphloom.Base.Preds.{All}
use graphloom.Base.Sorting.{sort_by, insert_by, IsSorted, IsOrder, Le}
use graphloom.Query.Drift.{enumerate}
use graphloom.Query.Concurrency.{index_cmp, choose}

module _ {V : Type 0} where
  -- The values that stand under index `i`, in the order of the list.
  abbrev pub at : ℕ → List (ℕ × V) → List V
  at i [] = []
  at i (x ∷ xs) = if x.0 == i then x.1 ∷ at i xs else at i xs

  pub at-append : (i : ℕ) (xs ys : List (ℕ × V)) → at i (xs ++ ys) ≡ at i xs ++ at i ys
  at-append i [] ys = refl
  at-append i (x ∷ xs) ys = ground (arith, at-append i xs ys)

  -- Two lists with at most one element between them are in both orders the same.
  pub append_comm_small : (a b : List V) → length (a ++ b) ≤ 1 → a ++ b ≡ b ++ a
  append_comm_small [] [] h = refl
  append_comm_small [] (y ∷ []) h = refl
  append_comm_small (x ∷ []) [] h = refl
  append_comm_small [] (y ∷ z ∷ b) h = absurd (omega arith)
  append_comm_small (x ∷ []) (y ∷ b) h = absurd (omega arith)
  append_comm_small (x ∷ z ∷ a) b h = absurd (omega arith)

  pub at-choose :
      (i c : ℕ) (x : ℕ × V) (xs : List (ℕ × V))
      → length (at i (x ∷ xs)) ≤ 1
      → at i ((choose c x xs).0 ∷ (choose c x xs).1) ≡ at i (x ∷ xs)
  unfolding choose
  at-choose i zero x xs h = refl
  at-choose i (suc c) x [] h = refl
  at-choose i (suc c) x (y ∷ ys) h = ground (arith, at-choose i c y ys)

  at-insert_by :
      (i : ℕ) (x : ℕ × V) (xs : List (ℕ × V)) → at i (insert_by index_cmp x xs) ≡ at i (x ∷ xs)
  unfolding insert_by
  at-insert_by i x [] = refl
  at-insert_by i x (y ∷ ys) = ground (arith, at-insert_by i x ys)

  pub at-sort_by : (i : ℕ) (xs : List (ℕ × V)) → at i (sort_by index_cmp xs) ≡ at i xs
  unfolding sort_by
  at-sort_by i [] = refl
  at-sort_by i (x ∷ xs) = at-insert_by i x (sort_by index_cmp xs) ∙ ground (arith, at-sort_by i xs)

  pub index_cmp-IsOrder : IsOrder {A = ℕ × V} index_cmp
  index_cmp-IsOrder = record {
    le_total = λ a b h. ground arith;
    le_trans = λ a b c h k. ground arith;
  }

  -- Below its first index a numbered list has nothing, and under each it has one value.
  at-enumerate_lt : (i n : ℕ) (xs : List V) → i < n → at i (enumerate n xs) ≡ []
  at-enumerate_lt i n [] h = refl
  at-enumerate_lt i n (x ∷ xs) h = ground (arith, at-enumerate_lt i (suc n) xs)

  pub at-enumerate_le : (i n : ℕ) (xs : List V) → length (at i (enumerate n xs)) ≤ 1
  at-enumerate_le i n [] = omega arith
  at-enumerate_le i n (x ∷ xs) = elim (Bool-cases (n == i)) [
    | inl e ↦ ground (arith, at-enumerate_lt i (suc n) xs)
    | inr e ↦ ground (arith, at-enumerate_le i (suc n) xs)
  ]

  at-All_gt :
      (i : ℕ) (x : ℕ × V) (xs : List (ℕ × V)) → i < x.0 → All (Le index_cmp x) xs → at i xs ≡ []
  at-All_gt i x [] h k = refl
  at-All_gt i x (y ∷ ys) h k = ground (arith, at-All_gt i x ys h k.1)

  sorted-first :
      (n : ℕ) (x : ℕ × V) (xs : List (ℕ × V)) (y : V) (ys : List V)
      → IsSorted index_cmp (x ∷ xs)
      → at n (x ∷ xs) ≡ at n (enumerate n (y ∷ ys))
      → at x.0 (x ∷ xs) ≡ at x.0 (enumerate n (y ∷ ys))
      → x.0 ≡ n
  sorted-first n x xs y ys s hn hx =
      ground (arith, at-enumerate_lt x.0 n (y ∷ ys), at-All_gt n x (x ∷ xs), at-All_gt n x xs)

  -- A sorted list with the values of a numbered one is that list.
  pub sorted-enumerate :
      (n : ℕ) (xs : List (ℕ × V)) (ys : List V)
      → IsSorted index_cmp xs
      → ((i : ℕ) → at i xs ≡ at i (enumerate n ys))
      → xs ≡ enumerate n ys
  sorted-enumerate n [] [] s h = refl
  sorted-enumerate n [] (y ∷ ys) s h = (let e = h n in ground arith)
  sorted-enumerate n (x ∷ xs) [] s h = (let e = h x.0 in ground arith)
  sorted-enumerate n (x ∷ xs) (y ∷ ys) s h =
      let above = at-enumerate_lt n (suc n) ys (omega arith) in
      let first : x.0 ≡ n = sorted-first n x xs y ys s (h n) (h x.0) in
      let value : x.1 ≡ y = (let e = h n in ground arith) in
      ap (λ e. e ∷ xs) {x = x} {y = (n, y)} (λ i. (first i, value i))
      ∙ ap (λ l. (n, y) ∷ l)
          (sorted-enumerate (suc n) xs ys s.1 (λ i. (let e = h i in let d = h n in ground arith)))
