-- ===== src/Update/Entities.antt =====
-- What merge_entities of operations/update.rs returns.
use Prim.Native.Nat.{Ordering}
use graphloom.Base.{
  ℕ, suc, ◌≤◌, ◌<◌, ◌≡◌, refl, ap, sym, ◌∙◌, subst, Option, none, some, List, [], ◌∷◌, ◌++◌, map,
  Text, text_eq, text_cmp, ◌==◌, lookup, filter, find, arith, ok, ◌>>=◌, try_map, >>=-eq-ok,
  ok-injective, Bool-cases, inl, inr, length, leb, i64_max, max, key-cases, eq→beq, ne→beq,
}
use graphloom.Base.Preds.{All}
use graphloom.Update.{
  EntityTableRow, MergedEntityRow, values_of, group_rows, concat_map, merged_entity_row, checked_id,
  next_human_readable_id, renumber, previous_ids, map_ids, merge_update_entities,
}
use graphloom.Update.Groups.{IsOrdered, group_rows-IsOrdered, values_of-group_rows}

-- The row that the rows of the title make: the first of them gives it its identity.
abbrev pub combined : Text → List EntityTableRow → Option MergedEntityRow
combined title [] = none
combined title (first ∷ rest) = some (record {
  id = first.id;
  human_readable_id = first.human_readable_id;
  title = title;
  entity_type = first.entity_type;
  descriptions = concat_map (λ r. r.descriptions) (first ∷ rest);
  text_unit_ids = concat_map (λ r. r.text_unit_ids) (first ∷ rest);
  frequency = length (concat_map (λ r. r.text_unit_ids) (first ∷ rest));
  degree = first.degree;
})

merged_entity_row-combined :
    (entry : Text × List EntityTableRow) (row : MergedEntityRow)
    → merged_entity_row entry ≡ ok row
    → (row.title ≡ entry.0) × (combined entry.0 entry.1 ≡ some row)
unfolding merged_entity_row
merged_entity_row-combined (title, []) row h = cc
merged_entity_row-combined (title, first ∷ rest) row h =
    elim (Bool-cases (leb (length (concat_map (λ r. r.text_unit_ids) (first ∷ rest))) i64_max)) [
      | inl e ↦ ground arith
      | inr e ↦ ground arith
    ]

-- Titles in strictly increasing order, so that none is there twice.
abbrev pub IsIncreasing : List Text → Type 0
IsIncreasing [] = Unit
IsIncreasing (t ∷ ts) = All (λ u. text_cmp t u ≡ Ordering.lt) ts × IsIncreasing ts

All-keys :
    (t : Text) (m : List (Text × List EntityTableRow))
    → All (λ e. text_cmp t e.0 ≡ Ordering.lt) m
    → All (λ u. text_cmp t u ≡ Ordering.lt) (map (λ e. e.0) m)
All-keys t [] h = tt
All-keys t (e ∷ m) h = (h.0, All-keys t m h.1)

IsOrdered-IsIncreasing :
    (m : List (Text × List EntityTableRow)) → IsOrdered m → IsIncreasing (map (λ e. e.0) m)
IsOrdered-IsIncreasing [] h = tt
IsOrdered-IsIncreasing (e ∷ m) h = (All-keys e.0 m h.0, IsOrdered-IsIncreasing m h.1)

resolved_rows :
    (title : Text) (m : List (Text × List EntityTableRow)) (rows : List MergedEntityRow)
    → try_map merged_entity_row m ≡ ok rows
    → (map (λ r. r.title) rows ≡ map (λ e. e.0) m)
      × (find (λ r. r.title == title) rows ≡ combined title (values_of title m))
unfolding find lookup
resolved_rows title [] rows h =
    subst (λ l. (map (λ r. r.title) l ≡ []) × (find (λ r. r.title == title) l ≡ none))
      (ok-injective h) (refl, refl)
resolved_rows title (entry ∷ m) rows h =
    let (row, made, more) =
      >>=-eq-ok (merged_entity_row entry) (λ y. try_map merged_entity_row m >>= λ ys. ok (y ∷ ys))
        h in
    let (rest, later, whole) = >>=-eq-ok (try_map merged_entity_row m) (λ ys. ok (row ∷ ys)) more in
    let (named, same) = merged_entity_row-combined entry row made in
    let (titles, found) = resolved_rows title m rest later in
    subst
      (λ l.
        (map (λ r. r.title) l ≡ map (λ e. e.0) (entry ∷ m))
        × (find (λ r. r.title == title) l ≡ combined title (values_of title (entry ∷ m))))
      (ok-injective whole)
      (
        (λ i. named i ∷ titles i),
        elim (key-cases entry.0 title) [
          | inl here ↦
              (let merged = subst (λ t. combined t entry.1 ≡ some row) here same in
                let first = eq→beq entry.0 title here in
                let second = eq→beq row.title title (named ∙ here) in ground arith)
          | inr other ↦
              (let first = ne→beq entry.0 title other in
                let second = ne→beq row.title title (λ e. other (sym named ∙ e)) in ground arith)
        ],
      )

checked_id_same : (n i : ℕ) → checked_id n ≡ ok i → i ≡ n
checked_id_same n i h = ground arith

-- The numbers from `n` on, one for each row.
abbrev pub count_from : ℕ → List EntityTableRow → List ℕ
count_from n [] = []
count_from n (row ∷ rows) = n ∷ count_from (suc n) rows

renumber-count_from :
    (n : ℕ) (rows out : List EntityTableRow)
    → renumber n rows ≡ ok out
    → (map (λ r. r.human_readable_id) out ≡ count_from n rows)
      × (map (λ r. r.id) out ≡ map (λ r. r.id) rows)
unfolding renumber
renumber-count_from n [] out h = (
  ap (map (λ r. r.human_readable_id)) (sym (ok-injective h)),
  ap (map (λ r. r.id)) (sym (ok-injective h)),
)
renumber-count_from n (row ∷ rows) out h =
    let (i, checked, more) =
      >>=-eq-ok (checked_id n)
        (λ i. renumber (suc n) rows >>= λ rest. ok (record row { human_readable_id = i } ∷ rest))
        h in
    let (rest, later, whole) =
      >>=-eq-ok (renumber (suc n) rows) (λ rest. ok (record row { human_readable_id = i } ∷ rest))
        more in
    let (numbers, ids) = renumber-count_from (suc n) rows rest later in
    let same = checked_id_same n i checked in
    subst
      (λ l.
        (map (λ r. r.human_readable_id) l ≡ count_from n (row ∷ rows))
        × (map (λ r. r.id) l ≡ map (λ r. r.id) (row ∷ rows)))
      (ok-injective whole) ((λ j. same j ∷ numbers j), ap (λ l. row.id ∷ l) ids)

All-below_mono :
    (m n : ℕ) (rows : List EntityTableRow)
    → m ≤ n
    → All (λ r. r.human_readable_id < m) rows
    → All (λ r. r.human_readable_id < n) rows
All-below_mono m n [] h k = tt
All-below_mono m n (r ∷ rows) h k = (omega (arith, k.0), All-below_mono m n rows h k.1)

next_human_readable_id-All :
    (rows : List EntityTableRow) → All (λ r. r.human_readable_id < next_human_readable_id rows) rows
unfolding next_human_readable_id
next_human_readable_id-All [] = tt
next_human_readable_id-All (row ∷ rows) = (
  omega arith,
  All-below_mono (next_human_readable_id rows)
      (max (suc row.human_readable_id) (next_human_readable_id rows)) rows (omega arith)
      (next_human_readable_id-All rows),
)

-- The rows of an update that are numbered on from an index keep their identifiers, get consecutive
-- numbers in their order, and every row of the index has a smaller number than the first of these.
pub renumber-next_human_readable_id :
    (previous delta out : List EntityTableRow)
    → renumber (next_human_readable_id previous) delta ≡ ok out
    → (map (λ r. r.human_readable_id) out ≡ count_from (next_human_readable_id previous) delta)
      × (map (λ r. r.id) out ≡ map (λ r. r.id) delta)
      × All (λ r. r.human_readable_id < next_human_readable_id previous) previous
renumber-next_human_readable_id previous delta out h =
    let (numbers, ids) = renumber-count_from (next_human_readable_id previous) delta out h in
    (numbers, ids, next_human_readable_id-All previous)

-- When the entities of an index and of an update merge: the rows of the update were numbered on from
-- the index; the result has each title once, in increasing order; and its row for a title has the
-- identity of the first row of the title, which is the index's if there is one, and the descriptions
-- and the text units of all of them in their order, whose number is the frequency.
pub merge_update_entities-IsIncreasing :
    (previous delta : List EntityTableRow) (merged : List MergedEntityRow)
    (mapping : List (Text × Text)) (title : Text)
    → merge_update_entities previous delta ≡ ok (merged, mapping)
    → (delta_rows : List EntityTableRow) × (renumber (next_human_readable_id previous) delta
        ≡ ok delta_rows)
      × IsIncreasing (map (λ r. r.title) merged)
      × (find (λ r. r.title == title) merged
          ≡ combined title (filter (λ r. r.title == title) (previous ++ delta_rows)))
unfolding merge_update_entities lookup
merge_update_entities-IsIncreasing previous delta merged mapping title h =
    let n = next_human_readable_id previous in
    let (initial, checked, m1) =
      >>=-eq-ok (checked_id n)
        (λ i. renumber i delta >>= λ d.
          try_map merged_entity_row (group_rows (previous ++ d) []) >>= λ rs.
          ok (rs, map_ids delta (previous_ids previous []) []))
        h in
    let (delta_rows, numbered, m2) =
      >>=-eq-ok (renumber initial delta)
        (λ d. try_map merged_entity_row (group_rows (previous ++ d) []) >>= λ rs.
          ok (rs, map_ids delta (previous_ids previous []) []))
        m1 in
    let entries = group_rows (previous ++ delta_rows) [] in
    let (resolved, made, m3) =
      >>=-eq-ok (try_map merged_entity_row entries)
        (λ rs. ok (rs, map_ids delta (previous_ids previous []) [])) m2 in
    let same : resolved ≡ merged = ap (λ r. r.0) (ok-injective m3) in
    let (titles, found) = resolved_rows title entries resolved made in
    (
      delta_rows,
      subst (λ i. renumber i delta ≡ ok delta_rows) (checked_id_same n initial checked) numbered,
      subst IsIncreasing (sym titles ∙ ap (map (λ r. r.title)) same)
          (IsOrdered-IsIncreasing entries (group_rows-IsOrdered (previous ++ delta_rows) [] tt)),
      ap (find (λ r. r.title == title)) (sym same)
          ∙ found
          ∙ ap (combined title) (values_of-group_rows title (previous ++ delta_rows) []),
    )
