-- ===== src/Communities/Component/Largest.antt =====
-- largest_connected_component: the component that no other is larger than.
use graphloom.Base.{
  suc, ◌+◌, ◌≡◌, ◌≤◌, ◌⊎◌, ◌↔◌, refl, subst, Bool, true, false, ◌||◌, some, List, [], ◌∷◌, length,
  Text, text_eq, text_beq_iff, ◌==◌, ltb, if◌then◌else◌, arith, Bool-cases, inl, inr,
}
use graphloom.Communities.Component.{contains, tree_insert, Adjacency, search_nodes, keys_of}
use graphloom.Communities.Component.Trees.{NoDup}
use graphloom.Communities.Component.Visit.{fresh_le}
use graphloom.Communities.Component.Frontier.{
  Reaches, Reaches-trans, near, start, IsSymmetric, IsClosed, IsComponent, explore-IsComponent,
}

abbrev drop_first : Text → List Text → List Text
drop_first x [] = []
drop_first x (y ∷ ys) = if y == x then ys else y ∷ drop_first x ys

drop_first-contains :
    (x y : Text) (ys : List Text)
    → contains x ys ≡ true
    → (y == x) ≡ false
    → contains x (drop_first y ys) ≡ true
drop_first-contains x y [] h other = cc
drop_first-contains x y (z ∷ zs) h other = ground (
  arith,
  h,
  other,
  drop_first-contains x y zs,
  text_beq_iff z y,
  text_beq_iff z x,
  text_beq_iff y x,
)

length-drop_first :
    (y : Text) (ys : List Text) → contains y ys ≡ true → length (drop_first y ys) + 1 ≡ length ys
length-drop_first y [] h = cc
length-drop_first y (z ∷ zs) h = ground (arith, h, length-drop_first y zs)

-- A list without repetition is no longer than one that has its elements.
length_le_of_NoDup :
    (xs ys : List Text)
    → NoDup xs
    → ((x : Text) → contains x xs ≡ true → contains x ys ≡ true)
    → length xs ≤ length ys
length_le_of_NoDup [] ys distinct h = omega arith
length_le_of_NoDup (x ∷ xs) ys (new, distinct) h =
    let here : contains x ys ≡ true = h x (ground (arith, text_beq_iff x x)) in
    let rest = length_le_of_NoDup xs (drop_first x ys) distinct (λ y e.
      drop_first-contains y x ys (h y (ground (arith, e)))
        (ground (arith, e, new, text_beq_iff x y))) in
    omega (arith, rest, length-drop_first x ys here)

-- The nodes of a list are those that a root reaches, each once.
abbrev pub IsWhole : (Text → Text → Bool) → Text → List Text → Type 0
IsWhole r root nodes = ((x : Text) → (contains x nodes ≡ true) ↔ Reaches r root x) × NoDup nodes

module _ (adjacency : Adjacency) (both : IsSymmetric adjacency) where
  pub record IsSearched (nodes visited largest : List Text) : Type 0 where
    pub closed : IsClosed adjacency visited
    pub rest :
        (x : Text)
        → contains x (keys_of adjacency) ≡ true
        → (contains x visited || contains x nodes) ≡ true
    pub best :
        (x : Text) (others : List Text)
        → contains x visited ≡ true
        → NoDup others
        → ((y : Text) → contains y others ≡ true → Reaches (near adjacency) x y)
        → length others ≤ length largest
    pub whole : (largest ≡ []) ⊎ ((root : Text) × IsWhole (near adjacency) root largest)

  abbrev larger : List Text → List Text → List Text
  larger largest component = if ltb (length largest) (length component) then component else largest

  larger-length :
      (largest component : List Text)
      → (length largest ≤ length (larger largest component))
        × (length component ≤ length (larger largest component))
  larger-length largest component = (ground arith, ground arith)

  -- A component is found from a node that had not been visited.
  found-IsSearched :
      (node : Text) (nodes visited largest component seen : List Text)
      → IsComponent adjacency both node visited component seen
      → IsSearched (node ∷ nodes) visited largest
      → IsSearched nodes seen (larger largest component)
  found-IsSearched node nodes visited largest component seen c s = record {
    closed = c.closed;
    rest = λ x h.
        let at_node = c.exact_from node start in
        ground (arith, s.rest x h, c.joined x, at_node, text_beq_iff node x);
    best = λ x others h distinct reach.
        let (old_le, new_le) = larger-length largest component in
        elim (Bool-cases (contains x visited)) [
          | inl old ↦ omega (arith, s.best x others old distinct reach, old_le)
          | inr new ↦
              let to_x = c.exact_to x (ground (arith, h, new, c.joined x)) in
              omega (
                arith,
                new_le,
                length_le_of_NoDup others component distinct (λ y e.
                    c.exact_from y (Reaches-trans (near adjacency) node x y to_x (reach y e))),
              )
        ];
    whole = elim (Bool-cases (ltb (length largest) (length component))) [
      | inl more ↦ inr (
        node,
        subst (IsWhole (near adjacency) node) (ground (arith, more))
            ((λ x. (c.exact_to x, c.exact_from x)), c.distinct),
      )
      | inr less ↦
          subst (λ l. (l ≡ []) ⊎ ((root : Text) × IsWhole (near adjacency) root l))
            (ground (arith, less)) s.whole
    ];
  }

  pub search_nodes-IsSearched :
      (nodes visited largest : List Text)
      → IsSearched nodes visited largest
      → (l : List Text) × (v : List Text) × (search_nodes
            (suc (length (keys_of adjacency)))
            adjacency
            nodes
            visited
            largest
          ≡ some l)
        × IsSearched [] v l
  unfolding search_nodes
  search_nodes-IsSearched [] visited largest s = (largest, visited, refl, s)
  search_nodes-IsSearched (node ∷ nodes) visited largest s =
      elim (Bool-cases (contains node visited)) [
        | inl old ↦
            let (l, v, e, after) = search_nodes-IsSearched nodes visited largest (record {
              closed = s.closed;
              rest = λ x h. ground (arith, s.rest x h, old, text_beq_iff node x);
              best = s.best;
              whole = s.whole;
            }) in
            (l, v, ground (arith, old, e), after)
        | inr new ↦
            let (component, seen, done, c) =
              explore-IsComponent adjacency both node visited (suc (length (keys_of adjacency)))
                (omega (arith, fresh_le (keys_of adjacency) (tree_insert node visited))) new
                s.closed in
            let (l, v, e, after) =
              search_nodes-IsSearched nodes seen (larger largest component)
                (found-IsSearched node nodes visited largest component seen c s) in
            (l, v, ground (arith, new, done, e), after)
      ]
