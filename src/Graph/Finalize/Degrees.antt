-- ===== src/Graph/Finalize/Degrees.antt =====
-- What degree_map of operations/graph/finalize.rs counts.
use graphloom.Base.{
  ℕ, suc, ◌+◌, ◌≡◌, refl, List, [], ◌∷◌, ◌++◌, map, Text, ◌==◌, arith, pair_eq, text_eq, lookup,
  if◌then◌else◌,
}
use graphloom.Graph.Rows.{SummarizedRelationshipRow}
use graphloom.Base.{◌↔◌, ◌⊎◌, lookup-insert, text_cmp_eq, text_cmp_swap, text_cmp_refl}
use graphloom.Graph.Group.{add_key, first_seen_from}
use graphloom.Graph.Finalize.{
  sorted_pair, count_end, degree_of, degree_step, degree_loop, degree_map,
}

-- How many of the ends of a pair are `title`, and how many of those of all pairs.
abbrev pub incidence : Text → Text × Text → ℕ
incidence title pair = (if pair.0 == title then 1 else 0) + (if pair.1 == title then 1 else 0)

abbrev pub incidences : Text → List (Text × Text) → ℕ
incidences title [] = 0
incidences title (pair ∷ pairs) = incidence title pair + incidences title pairs

incidences-snoc :
    (title : Text) (pairs : List (Text × Text)) (pair : Text × Text)
    → incidences title (pairs ++ pair ∷ []) ≡ incidences title pairs + incidence title pair
incidences-snoc title [] pair = omega arith
incidences-snoc title (p ∷ pairs) pair = omega (arith, incidences-snoc title pairs pair)

degree_of-count_end :
    (title end : Text) (degree : List (Text × ℕ))
    → degree_of title (count_end end degree)
      ≡ degree_of title degree + (if end == title then 1 else 0)
unfolding count_end
degree_of-count_end title end degree = ground (
  arith,
  lookup-insert end title 1 degree,
  lookup-insert end title (suc (degree_of end degree)) degree,
  text_eq.eq_test_iff end title,
)

module _ {Weight : Type 0} where
  abbrev pub row_pair : SummarizedRelationshipRow Weight → Text × Text
  row_pair row = sorted_pair row.source row.target

  degree_step-seen :
      (row : SummarizedRelationshipRow Weight) (s : List (Text × Text) × List (Text × ℕ))
      → (degree_step row s).0 ≡ add_key s.0 (row_pair row)
  unfolding degree_step
  degree_step-seen row s = ground arith

  degree_step-degree_of :
      (title : Text) (row : SummarizedRelationshipRow Weight)
      (s : List (Text × Text) × List (Text × ℕ))
      → degree_of title (degree_step row s).1 + incidences title s.0
        ≡ degree_of title s.1 + incidences title (add_key s.0 (row_pair row))
  unfolding degree_step
  degree_step-degree_of title row s =
      let pair = row_pair row in
      ground (
        arith,
        incidences-snoc title s.0 pair,
        degree_of-count_end title pair.1 (count_end pair.0 s.1),
        degree_of-count_end title pair.0 s.1,
      )

  degree_loop-degree_of :
      (title : Text) (rows : List (SummarizedRelationshipRow Weight))
      (s : List (Text × Text) × List (Text × ℕ))
      → degree_of title (degree_loop rows s).1 + incidences title s.0
        ≡ degree_of title s.1 + incidences title (first_seen_from s.0 (map row_pair rows))
  unfolding degree_loop
  degree_loop-degree_of title [] s = refl
  degree_loop-degree_of title (row ∷ rows) s =
      let next = degree_step row s in
      ground (
        arith,
        degree_loop-degree_of title rows next,
        degree_step-degree_of title row s,
        degree_step-seen row s,
      )

  -- For all relationship rows and any title: the degree that degree_map has for it, 0 where it has
  -- none, is the number of ends at that title of the distinct sorted pairs of the rows, so that a pair
  -- which several rows have counts once and an edge from the title to itself counts two.
  pub degree_map-degree_of :
      (rows : List (SummarizedRelationshipRow Weight)) (title : Text)
      → degree_of title (degree_map rows)
        ≡ incidences title (first_seen_from [] (map row_pair rows))
  unfolding degree_map lookup
  degree_map-degree_of rows title = ground (arith, degree_loop-degree_of title rows ([], []))

-- For any four titles: two edges have the same sorted pair exactly if they have the same ends, in one
-- order or the other.
pub sorted_pair_iff :
    (a b c d : Text)
    → (sorted_pair a b ≡ sorted_pair c d) ↔ (((a ≡ c) × (b ≡ d)) ⊎ ((a ≡ d) × (b ≡ c)))
unfolding sorted_pair
sorted_pair_iff a b c d = ground (
  arith,
  text_cmp_eq a b,
  text_cmp_eq c d,
  text_cmp_swap a b,
  text_cmp_swap b a,
  text_cmp_swap c d,
  text_cmp_refl a,
  text_cmp_refl b,
)
