-- ===== src/Communities/Dedupe.antt =====
-- Which edges the loop of prepare_cluster_edges in operations/communities.rs keeps.
use graphloom.Base.{
  some-injective, none≢some, ℕ, ◌≡◌, refl, ap, sym, ◌∙◌, subst, not, Option, none, some, List, [],
  ◌∷◌, ◌++◌, map, Text, text_eq, pair_eq, ◌==◌, any, filter, length, get_elem?, set, lookup, insert,
  arith, Option-cases, inl, inr, length-set, append-nil, get_elem?-lt, get_elem?-append_lt,
  get_elem?-append_length, get_elem?-snoc, get_elem?-set, get_elem?-set_ne, ◌≢◌, key-cases, ne→beq,
  eq→beq, nat_eq, lookup-insert_same, lookup-insert_ne,
}
use graphloom.Communities.{
  ClusterRelationship, ClusterEdge, cluster_edge, edge_pair, dedupe_step, dedupe_loop, flatten,
  deduped_edges,
}
use graphloom.Communities.Slots.{
  without, flatten-append, without_none, without-set, keep_last, IsIndexed,
}

module _ {Weight : Type 0} where
  abbrev IsPresent : Text × Text → ℕ → List (Option (ClusterEdge Weight)) → Type 0
  IsPresent k i d = (e : ClusterEdge Weight) × (get_elem? d i ≡ some (some e)) × (edge_pair e ≡ k)

  -- A round puts `e` behind slots `d` in which no edge of its pair is left.
  pushed-IsIndexed :
      (e : ClusterEdge Weight) (m : List ((Text × Text) × ℕ))
      (d : List (Option (ClusterEdge Weight)))
      → ((i : ℕ) (f : ClusterEdge Weight)
          → get_elem? d i ≡ some (some f)
          → (lookup (edge_pair f) m ≡ some i) × (edge_pair e ≢ edge_pair f))
      → ((k : Text × Text) (i : ℕ) → edge_pair e ≢ k → lookup k m ≡ some i → IsPresent k i d)
      → IsIndexed (insert (edge_pair e) (length d) m, d ++ some e ∷ [])
  pushed-IsIndexed e m d live there = record {
    indexed = λ i f found. elim (get_elem?-snoc d (some e) i (some f) found) [
      | inl old ↦
          lookup-insert_ne (edge_pair e) (edge_pair f) (length d) m (live i f old).1
          ∙ (live i f old).0
      | inr (last, same) ↦
          ap (λ k. lookup k (insert (edge_pair e) (length d) m))
            (sym (ap edge_pair (some-injective same)))
          ∙ lookup-insert_same (edge_pair e) (length d) m
          ∙ ap some (sym last)
    ];
    present = λ k i found. elim (key-cases (edge_pair e) k) [
      | inl same ↦
          (let at_end : length d ≡ i = some-injective (
              sym (lookup-insert_same (edge_pair e) (length d) m)
              ∙ ap (λ k. lookup k (insert (edge_pair e) (length d) m)) same
              ∙ found) in
            (
              e,
              ap (get_elem? (d ++ some e ∷ [])) (sym at_end) ∙ get_elem?-append_length d (some e),
              same,
            ))
      | inr other ↦
          (let (f, here, pair) =
              there k i other (sym (lookup-insert_ne (edge_pair e) k (length d) m other) ∙ found) in
            (f, get_elem?-append_lt d (some e ∷ []) i (get_elem?-lt d i here) ∙ here, pair))
    ];
  }

  -- Where the map sends a pair, the one edge of the pair that is left stands.
  same_slot :
      (s : List ((Text × Text) × ℕ) × List (Option (ClusterEdge Weight))) (k : Text × Text)
      (n j : ℕ) (f : ClusterEdge Weight)
      → IsIndexed s
      → lookup k s.0 ≡ some n
      → get_elem? s.1 j ≡ some (some f)
      → (edge_pair f ≡ k → j ≡ n) × (j ≡ n → edge_pair f ≡ k)
  same_slot s k n j f h there found = (
    λ same. some-injective (sym (h.indexed j f found) ∙ ap (λ k. lookup k s.0) same ∙ there),
    λ same.
        (let (g, here, pair) = h.present k n there in
          ap edge_pair
            (some-injective (some-injective (sym found ∙ ap (get_elem? s.1) same ∙ here)))
          ∙ pair),
  )

  dedupe_step-IsIndexed :
      (r : ClusterRelationship Weight)
      (s : List ((Text × Text) × ℕ) × List (Option (ClusterEdge Weight)))
      → IsIndexed s
      → IsIndexed (dedupe_step r s)
        × (flatten (dedupe_step r s).1
            ≡ without (edge_pair (cluster_edge r)) (flatten s.1) ++ cluster_edge r ∷ [])
  unfolding dedupe_step
  dedupe_step-IsIndexed r s h =
      let e = cluster_edge r in
      let k = edge_pair e in
      elim (Option-cases (lookup k s.0)) [
        | inl absent ↦
            rw (absent, dedupe_step)
              (
                pushed-IsIndexed e s.0 s.1
                    (λ i f found. (
                      h.indexed i f found,
                      λ same. absurd (
                          none≢some
                            (sym absent ∙ ap (λ k. lookup k s.0) same ∙ h.indexed i f found)),
                    ))
                    (λ k i other found. h.present k i found),
                flatten-append s.1 (some e ∷ [])
                    ∙ ap (λ l. l ++ e ∷ [])
                        (sym (
                          without_none k s.1 (λ j f found. ne→beq (edge_pair f) k (λ same. absurd (
                            none≢some (
                              sym absent
                              ∙ ap (λ k. lookup k s.0) (sym same)
                              ∙ h.indexed j f found)))))),
              )
        | inr (n, there) ↦
            rw (there, dedupe_step)
              (
                subst (λ l. IsIndexed (insert k l s.0, set s.1 n none ++ some e ∷ []))
                    (length-set s.1 n none)
                    (pushed-IsIndexed e s.0 (set s.1 n none)
                      (λ i f found. elim (get_elem?-set s.1 n none i (some f) found) [
                        | inl (old, other) ↦ (
                          h.indexed i f old,
                          λ same. other ((same_slot s k n i f h there old).0 (sym same)),
                        )
                        | inr (_, gone) ↦ absurd (none≢some gone)
                      ])
                      (λ j i other found.
                        (let (f, here, pair) = h.present j i found in
                          (
                            f,
                            get_elem?-set_ne s.1 n none i (λ same.
                                  other (sym ((same_slot s k n i f h there here).1 same) ∙ pair))
                                ∙ here,
                            pair,
                          )))),
                flatten-append (set s.1 n none) (some e ∷ [])
                    ∙ ap (λ l. l ++ e ∷ [])
                        (without-set k n s.1 (λ j f found. elim (key-cases (edge_pair f) k) [
                          | inl same ↦
                              eq→beq (edge_pair f) k same
                              ∙ sym (eq→beq j n ((same_slot s k n j f h there found).0 same))
                          | inr other ↦
                              ne→beq (edge_pair f) k other
                              ∙ sym (
                                  ne→beq j n
                                    (λ same. other ((same_slot s k n j f h there found).1 same)))
                        ])),
              )
      ]

  -- The edges whose pair is none of those of `rest`.
  abbrev without_any :
      List (ClusterEdge Weight) → List (ClusterEdge Weight) → List (ClusterEdge Weight)
  without_any rest = filter (λ e. not (any (λ f. edge_pair f == edge_pair e) rest))

  without_any-nil : (xs : List (ClusterEdge Weight)) → without_any [] xs ≡ xs
  without_any-nil [] = refl
  without_any-nil (x ∷ xs) = ap (λ l. x ∷ l) (without_any-nil xs)

  without_any-without :
      (e : ClusterEdge Weight) (rest xs : List (ClusterEdge Weight))
      → without_any rest (without (edge_pair e) xs) ≡ without_any (e ∷ rest) xs
  without_any-without e rest [] = refl
  without_any-without e rest (x ∷ xs) = elim (key-cases (edge_pair e) (edge_pair x)) [
    | inl same ↦
        (let there = eq→beq (edge_pair e) (edge_pair x) same in
          let back = eq→beq (edge_pair x) (edge_pair e) (sym same) in
          ground (arith, without_any-without e rest xs))
    | inr other ↦
        (let there = ne→beq (edge_pair e) (edge_pair x) other in
          let back = ne→beq (edge_pair x) (edge_pair e) (λ same. other (sym same)) in
          ground (arith, without_any-without e rest xs))
  ]

  without_any-snoc :
      (e : ClusterEdge Weight) (rest xs : List (ClusterEdge Weight))
      → without_any rest (xs ++ e ∷ []) ++ keep_last rest
        ≡ without_any rest xs ++ keep_last (e ∷ rest)
  without_any-snoc e rest [] = ground arith
  without_any-snoc e rest (x ∷ xs) = ground (arith, without_any-snoc e rest xs)

  dedupe_loop-flatten :
      (relationships : List (ClusterRelationship Weight))
      (s : List ((Text × Text) × ℕ) × List (Option (ClusterEdge Weight)))
      → IsIndexed s
      → flatten (dedupe_loop relationships s).1
        ≡ without_any (map cluster_edge relationships) (flatten s.1)
          ++ keep_last (map cluster_edge relationships)
  unfolding dedupe_loop
  dedupe_loop-flatten [] s h =
      sym (append-nil (without_any [] (flatten s.1)) ∙ without_any-nil (flatten s.1))
  dedupe_loop-flatten (r ∷ rs) s h =
      let (kept, pushed) = dedupe_step-IsIndexed r s h in
      let e = cluster_edge r in
      let rest = map cluster_edge rs in
      dedupe_loop-flatten rs (dedupe_step r s) kept
      ∙ ap (λ l. without_any rest l ++ keep_last rest) pushed
      ∙ without_any-snoc e rest (without (edge_pair e) (flatten s.1))
      ∙ ap (λ l. l ++ keep_last (e ∷ rest)) (without_any-without e rest (flatten s.1))

  pub deduped_edges-keep_last :
      (relationships : List (ClusterRelationship Weight))
      → deduped_edges relationships ≡ keep_last (map cluster_edge relationships)
  unfolding deduped_edges lookup
  deduped_edges-keep_last relationships =
      dedupe_loop-flatten relationships ([], [])
        (record { indexed = λ i e h. ground arith; present = λ k i h. ground arith })
