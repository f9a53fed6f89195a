-- ===== src/Communities/Component/Frontier.antt =====
-- explore: the search from one node visits the nodes that it is joined to, and ends.
use graphloom.Base.{
  ℕ, zero, suc, ◌+◌, ◌≡◌, ◌≤◌, refl, sym, subst, Bool, true, false, ◌||◌, some, List, [], ◌∷◌,
  length, Text, text_eq, text_beq_iff, ◌==◌, arith, Bool-cases, inl, inr,
}
use graphloom.Communities.Component.{
  contains, tree_insert, Adjacency, neighbors_of, visit, explore, keys_of,
}
use graphloom.Communities.Component.Trees.{contains-insert, NoDup, NoDup-insert, neighbor-IsKey}
use graphloom.Communities.Component.Visit.{fresh, visit-contains, visit-measure}

-- `y` is joined to `x` by steps of a relation.
pub data Reaches (r : Text → Text → Bool) (x : Text) : Text → Type 0 where
  start : Reaches r x x
  onward : {y z : Text} → Reaches r x y → r y z ≡ true → Reaches r x z

pub Reaches-trans :
    (r : Text → Text → Bool) (x y z : Text) → Reaches r x y → Reaches r y z → Reaches r x z
Reaches-trans r x y z p start = p
Reaches-trans r x y z p (onward {y = w} q e) = onward (Reaches-trans r x y w p q) e

abbrev pub near : Adjacency → Text → Text → Bool
near adjacency x y = contains y (neighbors_of x adjacency)

abbrev pub IsSymmetric : Adjacency → Type 0
IsSymmetric adjacency =
    (x y : Text)
    → contains y (neighbors_of x adjacency) ≡ true
    → contains x (neighbors_of y adjacency) ≡ true

-- With a node its neighbours are in the set.
abbrev pub IsClosed : Adjacency → List Text → Type 0
IsClosed adjacency nodes =
    (x y : Text)
    → contains x nodes ≡ true
    → contains y (neighbors_of x adjacency) ≡ true
    → contains y nodes ≡ true

module _ (adjacency : Adjacency) (both : IsSymmetric adjacency) (root : Text)
    (before : List Text) where
  -- The search from `root`, where the nodes in `before` had been visited.
  pub record IsFrontier (queue visited component : List Text) : Type 0 where
    pub reached_component :
        (x : Text) → contains x component ≡ true → Reaches (near adjacency) root x
    pub reached_queue : (x : Text) → contains x queue ≡ true → Reaches (near adjacency) root x
    pub parts :
        (x : Text)
        → contains x visited ≡ (contains x before || (contains x component || contains x queue))
    pub apart_component : (x : Text) → contains x component ≡ true → contains x before ≡ false
    pub apart_queue : (x : Text) → contains x queue ≡ true → contains x before ≡ false
    pub covered :
        (x y : Text)
        → contains x component ≡ true
        → contains y (neighbors_of x adjacency) ≡ true
        → contains y visited ≡ true
    pub distinct : NoDup component
    pub rooted : contains root visited ≡ true

  first-IsFrontier :
      contains root before ≡ false → IsFrontier (root ∷ []) (tree_insert root before) []
  first-IsFrontier new = record {
    reached_component = λ x h. cc;
    reached_queue =
        λ x h. subst (Reaches (near adjacency) root) (ground (arith, h, text_beq_iff root x)) start;
    parts = λ x. ground (arith, contains-insert x root before);
    apart_component = λ x h. cc;
    apart_queue = λ x h. ground (arith, h, new, text_beq_iff root x);
    covered = λ x y h. cc;
    distinct = tt;
    rooted = ground (arith, contains-insert root root before, text_beq_iff root root);
  }

  round-IsFrontier :
      (current : Text) (queue visited component : List Text)
      → IsFrontier (current ∷ queue) visited component
      → IsFrontier
          (visit (neighbors_of current adjacency) (queue, visited)).0
          (visit (neighbors_of current adjacency) (queue, visited)).1
          (tree_insert current component)
  round-IsFrontier current queue visited component f =
      let around : List Text = neighbors_of current adjacency in
      let at_current : contains current (current ∷ queue) ≡ true =
        ground (arith, text_beq_iff current current) in
      let added = λ (x : Text). contains-insert x current component in
      let left = λ (x : Text). visit-contains x around queue visited in
      record {
        reached_component = λ x h. elim (Bool-cases (current == x)) [
          | inl same ↦
              subst (Reaches (near adjacency) root) ((text_beq_iff current x).0 same)
                (f.reached_queue current at_current)
          | inr other ↦ f.reached_component x (ground (arith, h, added x, other))
        ];
        reached_queue = λ x h. elim (Bool-cases (contains x queue)) [
          | inl old ↦ f.reached_queue x (ground (arith, old))
          | inr new ↦
              onward (f.reached_queue current at_current) (ground (arith, h, new, (left x).0))
        ];
        parts = λ x. ground (arith, f.parts x, added x, (left x).0, (left x).1);
        apart_component = λ x h. ground (
          arith,
          h,
          added x,
          f.apart_component x,
          f.apart_queue current at_current,
          text_beq_iff current x,
        );
        apart_queue = λ x h. ground (arith, h, (left x).0, f.apart_queue x, f.parts x);
        covered = λ x y h e. elim (Bool-cases (current == x)) [
          | inl same ↦
              let here : contains y around ≡ true =
                subst (λ z. contains y (neighbors_of z adjacency) ≡ true)
                  (sym ((text_beq_iff current x).0 same)) e in
              ground (arith, here, (left y).1)
          | inr other ↦
              let old = f.covered x y (ground (arith, h, added x, other)) e in
              ground (arith, old, (left y).1)
        ];
        distinct = NoDup-insert current component f.distinct;
        rooted = ground (arith, f.rooted, (left root).1);
      }

  -- With fuel for the nodes not visited and those queued the search ends.
  explore-IsFrontier :
      (fuel : ℕ) (queue visited component : List Text)
      → fresh (keys_of adjacency) visited + length queue ≤ fuel
      → IsFrontier queue visited component
      → (c : List Text) × (v : List Text) × (explore fuel adjacency queue visited component
          ≡ some (c, v))
        × IsFrontier [] v c
  unfolding explore
  explore-IsFrontier zero [] visited component enough f = (component, visited, refl, f)
  explore-IsFrontier (suc fuel) [] visited component enough f = (component, visited, refl, f)
  explore-IsFrontier zero (current ∷ queue) visited component enough f =
      absurd (ground (arith, enough))
  explore-IsFrontier (suc fuel) (current ∷ queue) visited component enough f =
      let around : List Text = neighbors_of current adjacency in
      let bound =
        visit-measure (keys_of adjacency) around queue visited
          (λ x h. neighbor-IsKey x current adjacency (both current x h)) in
      explore-IsFrontier fuel (visit around (queue, visited)).0 (visit around (queue, visited)).1
        (tree_insert current component) (ground (arith, enough, bound))
        (round-IsFrontier current queue visited component f)

  -- What the search from a new node returns, where the visited nodes are closed.
  pub record IsComponent (component visited : List Text) : Type 0 where
    pub exact_to : (x : Text) → contains x component ≡ true → Reaches (near adjacency) root x
    pub exact_from : (x : Text) → Reaches (near adjacency) root x → contains x component ≡ true
    pub distinct : NoDup component
    pub joined : (x : Text) → contains x visited ≡ (contains x before || contains x component)
    pub closed : IsClosed adjacency visited

  module _ (c v : List Text) (f : IsFrontier [] v c) (new : contains root before ≡ false)
      (closed_before : IsClosed adjacency before) where
    stays :
        (x y : Text)
        → contains x c ≡ true
        → contains y (neighbors_of x adjacency) ≡ true
        → contains y c ≡ true
    stays x y h e = elim (Bool-cases (contains y before)) [
      | inl old ↦ ground (arith, closed_before y x old (both x y e), f.apart_component x h)
      | inr apart ↦ ground (arith, apart, f.covered x y h e, f.parts y)
    ]

    reached : (x : Text) → Reaches (near adjacency) root x → contains x c ≡ true
    reached x start = ground (arith, f.rooted, f.parts root, new)
    reached z (onward {y} p e) = stays y z (reached y p) e

    ended-IsComponent : IsComponent c v
    ended-IsComponent = record {
      exact_to = f.reached_component;
      exact_from = reached;
      distinct = f.distinct;
      joined = λ x. ground (arith, f.parts x);
      closed = λ x y h e. elim (Bool-cases (contains x before)) [
        | inl old ↦ ground (arith, closed_before x y old e, f.parts y)
        | inr apart ↦ f.covered x y (ground (arith, apart, h, f.parts x)) e
      ];
    }

  pub explore-IsComponent :
      (fuel : ℕ)
      → fresh (keys_of adjacency) (tree_insert root before) + 1 ≤ fuel
      → contains root before ≡ false
      → IsClosed adjacency before
      → (c : List Text) × (v : List Text) × (explore fuel adjacency
            (root ∷ [])
            (tree_insert root before)
            []
          ≡ some (c, v))
        × IsComponent c v
  explore-IsComponent fuel enough new closed_before =
      let (c, v, done, f) =
        explore-IsFrontier fuel (root ∷ []) (tree_insert root before) [] enough
          (first-IsFrontier new) in
      (c, v, done, ended-IsComponent c v f new closed_before)
