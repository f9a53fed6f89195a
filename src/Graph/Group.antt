-- ===== src/Graph/Group.antt =====
-- The loop that both merges of operations/graph/merge.rs share: rows are grouped by a key, with a map
-- from each key to the position of its group.
use graphloom.Base.{
  ℕ, zero, suc, ◌≡◌, refl, sym, ◌∙◌, ap, true, false, Option, none, some, List, [], ◌∷◌, ◌++◌, map,
  PartialEq, ◌==◌, position, position_snoc, lookup, insert, lookup-insert, length, find, filter,
  any, if◌then◌else◌, arith, Bool-cases, inl, inr, Option-cases,
}

-- `grouped.get_mut(index)`, updated by `f` if it is there.
unfoldable pub modify {ℓ} : {A : Type ℓ} → ℕ → (A → A) → List A → List A
modify i f [] = []
modify zero f (x ∷ xs) = f x ∷ xs
modify (suc i) f (x ∷ xs) = x ∷ modify i f xs

-- The keys in the order of their first occurrence.
abbrev pub add_key {ℓ} : {K : Type ℓ} ⦃test : PartialEq K⦄ → List K → K → List K
add_key keys k = if any (λ j. j == k) keys then keys else keys ++ k ∷ []

abbrev pub first_seen_from {ℓ} : {K : Type ℓ} ⦃test : PartialEq K⦄ → List K → List K → List K
first_seen_from seen [] = seen
first_seen_from seen (k ∷ ks) = first_seen_from (add_key seen k) ks

map_snoc {ℓ κ} :
    {A : Type ℓ} {B : Type κ} (f : A → B) (xs : List A) (x : A)
    → map f (xs ++ x ∷ []) ≡ map f xs ++ f x ∷ []
map_snoc f [] x = refl
map_snoc f (y ∷ ys) x = ap (λ l. f y ∷ l) (map_snoc f ys x)

module _ {K R G : Type 0} ⦃test : PartialEq K⦄ (key : R → K) (fresh : R → G)
    (join : R → G → G) where
  -- One round of the loop, on the map of positions and the groups.
  unfoldable pub group_step : R → List (K × ℕ) × List G → List (K × ℕ) × List G
  group_step row (indexes, grouped) = elim (lookup (key row) indexes) [
    | some index ↦ (indexes, modify index (join row) grouped)
    | none ↦ (insert (key row) (length grouped) indexes, grouped ++ fresh row ∷ [])
  ]

  unfoldable pub group_loop : List R → List (K × ℕ) × List G → List (K × ℕ) × List G
  group_loop [] s = s
  group_loop (row ∷ rows) s = group_loop rows (group_step row s)

  -- The group that the rows of one key make, in their order.
  abbrev pub grow : Option G → List R → Option G
  grow group [] = group
  grow none (row ∷ rows) = grow (some (fresh row)) rows
  grow (some g) (row ∷ rows) = grow (some (join row g)) rows

  module _ (key_of : G → K) (fresh_key : (r : R) → key_of (fresh r) ≡ key r)
      (join_key : (r : R) (g : G) → key_of (join r g) ≡ key_of g) where
    abbrev pub group_of : K → List G → Option G
    group_of k = find (λ g. key_of g == k)

    abbrev IsIndexed : List (K × ℕ) × List G → Type 0
    IsIndexed s = (k : K) → lookup k s.0 ≡ position key_of k s.1

    group_of_snoc :
        (k : K) (gs : List G) (g : G)
        → group_of k (gs ++ g ∷ [])
          ≡ elim (group_of k gs) [ some i ↦ some i | none ↦ if key_of g == k then some g else none ]
    unfolding find
    group_of_snoc k [] g = ground arith
    group_of_snoc k (x ∷ gs) g = ground (arith, group_of_snoc k gs g)

    group_of-position : (k : K) (gs : List G) → position key_of k gs ≡ none → group_of k gs ≡ none
    unfolding find
    group_of-position k [] h = refl
    group_of-position k (g ∷ gs) h = ground (arith, group_of-position k gs)

    group_found :
        (k : K) (i : ℕ) (gs : List G)
        → position key_of k gs ≡ some i
        → (g : G) × (group_of k gs ≡ some g)
    unfolding find
    group_found k i [] h = ground arith
    group_found k i (g ∷ gs) h = elim (Bool-cases (key_of g == k)) [
      | inl e ↦ (g, ground arith)
      | inr e ↦ elim (Option-cases (position key_of k gs)) [
        | inl n ↦ ground arith
        | inr (j, n) ↦ (let found = group_found k j gs n in (found.0, ground arith))
      ]
    ]

    any-position :
        (k : K) (gs : List G)
        → any (λ j. j == k) (map key_of gs)
          ≡ elim (position key_of k gs) [ none ↦ false | some _ ↦ true ]
    any-position k [] = refl
    any-position k (g ∷ gs) = ground (arith, any-position k gs)

    grow_nil : (g : Option G) → grow g [] ≡ g
    grow_nil none = refl
    grow_nil (some g) = refl

    -- The groups after a write: the same keys, and the group of `k` replaced.
    modify-position :
        (j : K) (i : ℕ) (row : R) (gs : List G)
        → position key_of j (modify i (join row) gs) ≡ position key_of j gs
    unfolding modify
    modify-position j i row [] = ground arith
    modify-position j zero row (g ∷ gs) = ground (arith, join_key row g)
    modify-position j (suc i) row (g ∷ gs) = ground (arith, modify-position j i row gs)

    modify-keys :
        (i : ℕ) (row : R) (gs : List G) → map key_of (modify i (join row) gs) ≡ map key_of gs
    unfolding modify
    modify-keys i row [] = ground arith
    modify-keys zero row (g ∷ gs) = ap (λ k. k ∷ map key_of gs) (join_key row g)
    modify-keys (suc i) row (g ∷ gs) = ap (λ l. key_of g ∷ l) (modify-keys i row gs)

    modify-group :
        (k j : K) (i : ℕ) (row : R) (gs : List G)
        → position key_of k gs ≡ some i
        → group_of j (modify i (join row) gs) ≡ (
            if k == j
            then elim (group_of k gs) [ none ↦ none | some g ↦ some (join row g) ]
            else group_of j gs)
    unfolding modify find
    modify-group k j i row [] h = ground arith
    modify-group k j zero row (g ∷ gs) h = ground (
      arith,
      join_key row g,
      test.eq_test_iff (key_of g) k,
      test.eq_test_iff k j,
      test.eq_test_iff (key_of g) j,
    )
    modify-group k j (suc i) row (g ∷ gs) h = ground (
      arith,
      test.eq_test_iff (key_of g) k,
      test.eq_test_iff k j,
      test.eq_test_iff (key_of g) j,
      modify-group k j i row gs,
    )

    step-IsIndexed :
        (row : R) (s : List (K × ℕ) × List G) → IsIndexed s → IsIndexed (group_step row s)
    unfolding group_step
    step-IsIndexed row s h k = elim (Option-cases (lookup (key row) s.0)) [
      | inl e ↦ ground (
        arith,
        h k,
        h (key row),
        lookup-insert (key row) k (length s.1) s.0,
        position_snoc key_of k s.1 (fresh row),
        fresh_key row,
        test.eq_test_iff (key row) k,
      )
      | inr (i, e) ↦ ground (arith, h k, modify-position k i row s.1)
    ]

    step-keys :
        (row : R) (s : List (K × ℕ) × List G)
        → IsIndexed s
        → map key_of (group_step row s).1 ≡ add_key (map key_of s.1) (key row)
    unfolding group_step
    step-keys row s h = elim (Option-cases (lookup (key row) s.0)) [
      | inl e ↦ ground (
        arith,
        h (key row),
        any-position (key row) s.1,
        map_snoc key_of s.1 (fresh row),
        fresh_key row,
      )
      | inr (i, e) ↦ ground (arith, h (key row), any-position (key row) s.1, modify-keys i row s.1)
    ]

    step-group :
        (k : K) (row : R) (s : List (K × ℕ) × List G)
        → IsIndexed s
        → group_of k (group_step row s).1
          ≡ (if key row == k then grow (group_of k s.1) (row ∷ []) else group_of k s.1)
    unfolding group_step
    step-group k row s h = elim (Option-cases (lookup (key row) s.0)) [
      | inl e ↦ ground (
        arith,
        h (key row),
        group_of_snoc k s.1 (fresh row),
        fresh_key row,
        group_of-position (key row) s.1,
        test.eq_test_iff (key row) k,
      )
      | inr (i, e) ↦ ground (
        arith,
        h (key row),
        group_found (key row) i s.1,
        modify-group (key row) k i row s.1,
        test.eq_test_iff (key row) k,
      )
    ]

    pub loop-keys :
        (rows : List R) (s : List (K × ℕ) × List G)
        → IsIndexed s
        → map key_of (group_loop rows s).1 ≡ first_seen_from (map key_of s.1) (map key rows)
    unfolding group_loop
    loop-keys [] s h = refl
    loop-keys (row ∷ rows) s h =
        loop-keys rows (group_step row s) (step-IsIndexed row s h)
        ∙ ap (λ seen. first_seen_from seen (map key rows)) (step-keys row s h)

    pub loop-group :
        (k : K) (rows : List R) (s : List (K × ℕ) × List G)
        → IsIndexed s
        → group_of k (group_loop rows s).1 ≡ grow (group_of k s.1) (filter (λ r. key r == k) rows)
    unfolding group_loop
    loop-group k [] s h = sym (grow_nil (group_of k s.1))
    loop-group k (row ∷ rows) s h =
        ground (
          arith,
          loop-group k rows (group_step row s) (step-IsIndexed row s h),
          step-group k row s h,
        )
