-- ===== src/Communities/Component/Visit.antt =====
-- visit: what a round of the search leaves in the queue and in the visited nodes.
use graphloom.Base.{
  ℕ, ◌+◌, ◌≡◌, ◌≤◌, refl, true, false, ◌&&◌, ◌||◌, not, List, [], ◌∷◌, ◌++◌, length, length-append,
  Text, text_eq, text_beq_iff, if◌then◌else◌, arith, Bool-cases, inl, inr,
}
use graphloom.Communities.Component.{contains, tree_insert, visit}
use graphloom.Communities.Component.Trees.{contains-insert}

contains-append :
    (x : Text) (xs ys : List Text) → contains x (xs ++ ys) ≡ (contains x xs || contains x ys)
contains-append x [] ys = refl
contains-append x (z ∷ xs) ys = ground (arith, contains-append x xs ys)

-- The nodes that have not been visited.
abbrev pub fresh : List Text → List Text → ℕ
fresh [] visited = 0
fresh (key ∷ keys) visited = (if contains key visited then 0 else 1) + fresh keys visited

fresh-insert_le :
    (n : Text) (keys visited : List Text) → fresh keys (tree_insert n visited) ≤ fresh keys visited
fresh-insert_le n [] visited = omega arith
fresh-insert_le n (key ∷ keys) visited =
    ground (arith, fresh-insert_le n keys visited, contains-insert key n visited)

fresh-insert_lt :
    (n : Text) (keys visited : List Text)
    → contains n keys ≡ true
    → contains n visited ≡ false
    → fresh keys (tree_insert n visited) + 1 ≤ fresh keys visited
fresh-insert_lt n [] visited h absent = cc
fresh-insert_lt n (key ∷ keys) visited h absent = ground (
  arith,
  fresh-insert_lt n keys visited,
  fresh-insert_le n keys visited,
  contains-insert key n visited,
  text_beq_iff key n,
  h,
  absent,
)

pub fresh_le : (keys visited : List Text) → fresh keys visited ≤ length keys
fresh_le [] visited = omega arith
fresh_le (key ∷ keys) visited = ground (arith, fresh_le keys visited)

-- What the loop over the neighbours leaves in the queue and in the visited nodes.
pub visit-contains :
    (x : Text) (neighbors queue visited : List Text)
    → (contains x (visit neighbors (queue, visited)).0
        ≡ (contains x queue || (contains x neighbors && not (contains x visited))))
      × (contains x (visit neighbors (queue, visited)).1
          ≡ (contains x visited || contains x neighbors))
unfolding visit
visit-contains x [] queue visited = (ground arith, ground arith)
visit-contains x (n ∷ neighbors) queue visited = elim (Bool-cases (contains n visited)) [
  | inl old ↦
      let (q, v) = visit-contains x neighbors queue visited in
      (ground (arith, old, q, text_beq_iff n x), ground (arith, old, v, text_beq_iff n x))
  | inr new ↦
      let (q, v) = visit-contains x neighbors (queue ++ n ∷ []) (tree_insert n visited) in
      (
        ground (
          arith,
          new,
          q,
          text_beq_iff n x,
          contains-append x queue (n ∷ []),
          contains-insert x n visited,
        ),
        ground (arith, new, v, text_beq_iff n x, contains-insert x n visited),
      )
]

pub visit-measure :
    (keys neighbors queue visited : List Text)
    → ((x : Text) → contains x neighbors ≡ true → contains x keys ≡ true)
    → fresh keys (visit neighbors (queue, visited)).1 + length (visit neighbors (queue, visited)).0
      ≤ fresh keys visited + length queue
unfolding visit
visit-measure keys [] queue visited h = omega arith
visit-measure keys (n ∷ neighbors) queue visited h =
    let rest = λ (x : Text) (e : contains x neighbors ≡ true). h x (ground (arith, e)) in
    elim (Bool-cases (contains n visited)) [
      | inl old ↦ ground (arith, old, visit-measure keys neighbors queue visited rest)
      | inr new ↦ ground (
        arith,
        new,
        visit-measure keys neighbors (queue ++ n ∷ []) (tree_insert n visited) rest,
        length-append queue (n ∷ []),
        fresh-insert_lt n keys visited (h n (ground (arith, text_beq_iff n n))) new,
      )
    ]
