-- ===== src/Communities/Component/Trees.antt =====
-- The sets and the adjacency as membership tests.
use graphloom.Base.{
  ◌≡◌, refl, true, false, ◌&&◌, ◌||◌, some, List, [], ◌∷◌, Text, text_eq, text_beq_iff, text_cmp,
  text_cmp_eq, text_cmp_refl, contains_key, ◌==◌, lookup, if◌then◌else◌, arith, Bool-cases, inl,
  inr,
}
use graphloom.Communities.Component.{
  contains, place, tree_insert, put, Adjacency, neighbors_of, add_neighbor, keys_of,
}

-- No element comes twice.
abbrev pub NoDup : List Text → Type 0
NoDup [] = Unit {0}
NoDup (x ∷ xs) = (contains x xs ≡ false) × NoDup xs

contains-place :
    (y x : Text) (xs : List Text) → contains y (place x xs) ≡ ((x == y) || contains y xs)
contains-place y x [] = refl
contains-place y x (z ∷ zs) = ground (arith, contains-place y x zs)

pub contains-insert :
    (y x : Text) (xs : List Text) → contains y (tree_insert x xs) ≡ ((x == y) || contains y xs)
unfolding tree_insert
contains-insert y x xs = ground (arith, contains-place y x xs, text_beq_iff x y)

NoDup-place : (x : Text) (xs : List Text) → contains x xs ≡ false → NoDup xs → NoDup (place x xs)
NoDup-place x [] absent h = (refl, tt)
NoDup-place x (y ∷ ys) absent (one, h) =
    ground (arith, NoDup-place x ys, absent, one, h, contains-place y x ys, text_beq_iff x y)

pub NoDup-insert : (x : Text) (xs : List Text) → NoDup xs → NoDup (tree_insert x xs)
unfolding tree_insert
NoDup-insert x xs h = elim (Bool-cases (contains x xs)) [
  | inl present ↦ rw (present, tree_insert) h
  | inr absent ↦ rw (absent, tree_insert) (NoDup-place x xs absent h)
]

lookup-put {ℓ} :
    {V : Type ℓ} (j k : Text) (v : V) (m : List (Text × V))
    → lookup j (put text_cmp k v m) ≡ (if k == j then some v else lookup j m)
unfolding put lookup
lookup-put j k v [] = ground arith
lookup-put j k v ((i, w) ∷ m) = ground (
  arith,
  lookup-put j k v m,
  text_cmp_eq k i,
  text_cmp_refl k,
  text_beq_iff k j,
  text_beq_iff i j,
)

pub neighbors_of-add_neighbor :
    (x y node neighbor : Text) (adjacency : Adjacency)
    → contains y (neighbors_of x (add_neighbor node neighbor adjacency))
      ≡ (((node == x) && (neighbor == y)) || contains y (neighbors_of x adjacency))
unfolding add_neighbor
neighbors_of-add_neighbor x y node neighbor adjacency = ground (
  arith,
  lookup-put x node (tree_insert neighbor (neighbors_of node adjacency)) adjacency,
  contains-insert y neighbor (neighbors_of node adjacency),
  text_beq_iff node x,
)

contains-keys_of :
    (x : Text) (adjacency : Adjacency) → contains x (keys_of adjacency) ≡ contains_key x adjacency
unfolding lookup
contains-keys_of x [] = refl
contains-keys_of x ((k, s) ∷ adjacency) = ground (arith, contains-keys_of x adjacency)

-- A node that has a neighbour is a key.
pub neighbor-IsKey :
    (x y : Text) (adjacency : Adjacency)
    → contains y (neighbors_of x adjacency) ≡ true
    → contains x (keys_of adjacency) ≡ true
neighbor-IsKey x y adjacency h = ground (arith, contains-keys_of x adjacency, h)
