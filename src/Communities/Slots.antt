-- ===== src/Communities/Slots.antt =====
-- The slots of the loop of prepare_cluster_edges in operations/communities.rs: edges, and the places of
-- replaced ones.
use graphloom.Base.{
  ℕ, zero, suc, ◌≡◌, refl, ap, sym, ◌∙◌, false, not, Option, none, some, List, [], ◌∷◌, ◌++◌, Text,
  text_eq, pair_eq, ◌==◌, any, filter, get_elem?, set, lookup, if◌then◌else◌, arith, eqb, nat_eq,
}
use graphloom.Communities.{ClusterEdge, edge_pair, flatten}

module _ {Weight : Type 0} where
  -- The edges of other pairs than `k`.
  abbrev pub without : Text × Text → List (ClusterEdge Weight) → List (ClusterEdge Weight)
  without k = filter (λ e. not (edge_pair e == k))

  -- The last edge of each pair, in the order of these.
  abbrev pub keep_last : List (ClusterEdge Weight) → List (ClusterEdge Weight)
  keep_last [] = []
  keep_last (edge ∷ rest) =
      if any (λ e. edge_pair e == edge_pair edge) rest
      then keep_last rest
      else edge ∷ keep_last rest

  -- An edge that is still there has the index that the map has for its pair, and the map has no other.
  pub record IsIndexed (s : List ((Text × Text) × ℕ) × List (Option (ClusterEdge Weight)))
      : Type 0 where
    pub indexed :
        (i : ℕ) (e : ClusterEdge Weight)
        → get_elem? s.1 i ≡ some (some e)
        → lookup (edge_pair e) s.0 ≡ some i
    pub present :
        (k : Text × Text) (i : ℕ)
        → lookup k s.0 ≡ some i
        → (e : ClusterEdge Weight) × (get_elem? s.1 i ≡ some (some e)) × (edge_pair e ≡ k)

  pub flatten-append :
      (a b : List (Option (ClusterEdge Weight))) → flatten (a ++ b) ≡ flatten a ++ flatten b
  flatten-append [] b = refl
  flatten-append (none ∷ a) b = flatten-append a b
  flatten-append (some e ∷ a) b = ap (λ l. e ∷ l) (flatten-append a b)

  pub without_none :
      (k : Text × Text) (d : List (Option (ClusterEdge Weight)))
      → ((j : ℕ) (e : ClusterEdge Weight)
          → get_elem? d j ≡ some (some e)
          → (edge_pair e == k) ≡ false)
      → without k (flatten d) ≡ flatten d
  without_none k [] h = refl
  without_none k (none ∷ d) h = without_none k d (λ j e g. h (suc j) e g)
  without_none k (some x ∷ d) h =
      let here = h zero x refl in
      let rest = without_none k d (λ j e g. h (suc j) e g) in ground arith

  pub without-set :
      (k : Text × Text) (i : ℕ) (d : List (Option (ClusterEdge Weight)))
      → ((j : ℕ) (e : ClusterEdge Weight)
          → get_elem? d j ≡ some (some e)
          → (edge_pair e == k) ≡ eqb j i)
      → flatten (set d i none) ≡ without k (flatten d)
  without-set k i [] h = refl
  without-set k zero (none ∷ d) h = sym (without_none k d (λ j e g. h (suc j) e g ∙ ground arith))
  without-set k zero (some x ∷ d) h =
      let here = h zero x refl in
      let rest = without_none k d (λ j e g. h (suc j) e g ∙ ground arith) in ground arith
  without-set k (suc i) (none ∷ d) h = without-set k i d (λ j e g. h (suc j) e g ∙ ground arith)
  without-set k (suc i) (some x ∷ d) h =
      let here = h zero x refl in
      let rest = without-set k i d (λ j e g. h (suc j) e g ∙ ground arith) in ground arith
