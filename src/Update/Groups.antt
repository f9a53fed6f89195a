-- ===== src/Update/Groups.antt =====
-- The ordered map of rows by title in operations/update.rs.
use Prim.Native.Nat.{Ordering}
use graphloom.Base.{
  ◌≡◌, refl, ap, sym, ◌∙◌, subst, some, List, [], ◌∷◌, ◌++◌, Text, text_eq, text_cmp, text_cmp_eq,
  text_cmp_swap, text_cmp_refl, ◌==◌, if◌then◌else◌, lookup, filter, arith, append_assoc,
  append-nil, inl, inr, key-cases, eq→beq, ne→beq, ◌≢◌,
}
use graphloom.Base.Preds.{All}
use graphloom.Update.{EntityTableRow, insert_ordered, values_of, push_value, group_rows}

text_cmp_lt_trans :
    (s t u : Text)
    → text_cmp s t ≡ Ordering.lt
    → text_cmp t u ≡ Ordering.lt
    → text_cmp s u ≡ Ordering.lt
unfolding text_cmp
text_cmp_lt_trans [] [] u h k = ground arith
text_cmp_lt_trans [] (b ∷ t) [] h k = ground arith
text_cmp_lt_trans [] (b ∷ t) (c ∷ u) h k = refl
text_cmp_lt_trans (a ∷ s) [] u h k = ground arith
text_cmp_lt_trans (a ∷ s) (b ∷ t) [] h k = ground arith
text_cmp_lt_trans (a ∷ s) (b ∷ t) (c ∷ u) h k = ground (arith, text_cmp_lt_trans s t u)

module _ {V : Type 0} where
  abbrev IsAbove : Text → Text × V → Type 0
  IsAbove key entry = text_cmp key entry.0 ≡ Ordering.lt

  -- The entries of a BTreeMap: keys strictly increase.
  abbrev pub IsOrdered : List (Text × V) → Type 0
  IsOrdered [] = Unit
  IsOrdered (entry ∷ rest) = All (IsAbove entry.0) rest × IsOrdered rest

  All-IsAbove_trans :
      (a b : Text) (m : List (Text × V))
      → text_cmp a b ≡ Ordering.lt
      → All (IsAbove b) m
      → All (IsAbove a) m
  All-IsAbove_trans a b [] h k = tt
  All-IsAbove_trans a b (e ∷ m) h k =
      (text_cmp_lt_trans a b e.0 h k.0, All-IsAbove_trans a b m h k.1)

  All-insert_ordered :
      (a key : Text) (value : V) (m : List (Text × V))
      → text_cmp a key ≡ Ordering.lt
      → All (IsAbove a) m
      → All (IsAbove a) (insert_ordered key value m)
  unfolding insert_ordered
  All-insert_ordered a key value [] h k = (h, tt)
  All-insert_ordered a key value (e ∷ m) h k =
      ground (arith, All-insert_ordered a key value m h k.1)

  insert_ordered-IsOrdered :
      (key : Text) (value : V) (m : List (Text × V))
      → IsOrdered m
      → IsOrdered (insert_ordered key value m)
  unfolding insert_ordered
  insert_ordered-IsOrdered key value [] h = (tt, tt)
  insert_ordered-IsOrdered key value (e ∷ m) h = ground (
    arith,
    insert_ordered-IsOrdered key value m h.1,
    All-IsAbove_trans key e.0 m,
    All-insert_ordered e.0 key value m,
    text_cmp_swap key e.0,
    text_cmp_eq key e.0,
  )

  lookup-insert_ordered :
      (key other : Text) (value : V) (m : List (Text × V))
      → lookup other (insert_ordered key value m)
        ≡ (if key == other then some value else lookup other m)
  unfolding lookup insert_ordered
  lookup-insert_ordered key other value [] = refl
  lookup-insert_ordered key other value (e ∷ m) = ground (
    arith,
    lookup-insert_ordered key other value m,
    text_cmp_eq key e.0,
    text_cmp_refl key,
    text_eq.eq_test_iff key other,
    text_eq.eq_test_iff e.0 other,
  )

module _ {V : Type 0} where
  values_of-push_same :
      (key : Text) (value : V) (m : List (Text × List V))
      → values_of key (push_value key value m) ≡ values_of key m ++ value ∷ []
  values_of-push_same key value m = ground (
    arith,
    lookup-insert_ordered key key (values_of key m ++ value ∷ []) m,
    text_eq.eq_test_iff key key,
  )

  values_of-push_ne :
      (key other : Text) (value : V) (m : List (Text × List V))
      → key ≢ other
      → values_of other (push_value key value m) ≡ values_of other m
  values_of-push_ne key other value m h = ground (
    arith,
    lookup-insert_ordered key other (values_of key m ++ value ∷ []) m,
    text_eq.eq_test_iff key other,
  )

pub group_rows-IsOrdered :
    (rows : List EntityTableRow) (m : List (Text × List EntityTableRow))
    → IsOrdered m
    → IsOrdered (group_rows rows m)
unfolding group_rows
group_rows-IsOrdered [] m h = h
group_rows-IsOrdered (row ∷ rows) m h =
    group_rows-IsOrdered rows (push_value row.title row m)
      (insert_ordered-IsOrdered row.title (values_of row.title m ++ row ∷ []) m h)

pub values_of-group_rows :
    (key : Text) (rows : List EntityTableRow) (m : List (Text × List EntityTableRow))
    → values_of key (group_rows rows m) ≡ values_of key m ++ filter (λ r. r.title == key) rows
unfolding group_rows
values_of-group_rows key [] m = sym (append-nil (values_of key m))
values_of-group_rows key (row ∷ rows) m = elim (key-cases row.title key) [
  | inl same ↦
      values_of-group_rows key rows (push_value row.title row m)
      ∙ ap (λ l. l ++ filter (λ r. r.title == key) rows)
          (subst (λ k. values_of k (push_value row.title row m) ≡ values_of k m ++ row ∷ []) same
            (values_of-push_same row.title row m))
      ∙ append_assoc (values_of key m) (row ∷ []) (filter (λ r. r.title == key) rows)
      ∙ ap
          (λ b.
            values_of key m
            ++ (if b
                then row ∷ filter (λ r. r.title == key) rows
                else filter (λ r. r.title == key) rows))
          (sym (eq→beq row.title key same))
  | inr other ↦
      values_of-group_rows key rows (push_value row.title row m)
      ∙ ap (λ l. l ++ filter (λ r. r.title == key) rows)
          (values_of-push_ne row.title key row m other)
      ∙ ap
          (λ b.
            values_of key m
            ++ (if b
                then row ∷ filter (λ r. r.title == key) rows
                else filter (λ r. r.title == key) rows))
          (sym (ne→beq row.title key other))
]
