-- ===== src/Query/Context/Included.antt =====
-- ConversationHistory::build_user_context: the turns that its loop takes.
use graphloom.Base.{
  ℕ, zero, suc, ◌≤◌, ◌<◌, ◌≡◌, refl, sym, ap, ◌∙◌, ◌⊎◌, inl, inr, true, false, List, [], ◌∷◌, ◌++◌,
  map, Text, ok, length, take, arith, ltb→lt, Bool-cases, ltb, append_assoc, append-nil, codes,
  ◌>>=◌,
}
use graphloom.Query.Context.Recent.{map-append}
use graphloom.Query.Context.{
  ConversationTurn, ContextTable, Operation, CsvWriter, TokenCount, push, turn_row, empty_table,
  validate_row, validate_each, validate_rows, render_csv, render_csv_section, section_name,
  include_turns, render_candidate, count_candidate, map_err,
}

program : Unit {0}
unfolding validate_row validate_each validate_rows render_csv render_csv_section include_turns
program = tt

-- The text of a table: its header line and what the writer makes of its records.
abbrev pub section : Text → Text
section body = codes "-----" ++ section_name ++ codes "-----" ++ 10 ∷ body

-- The table of some turns of the user.
abbrev pub table_of : List ConversationTurn → ContextTable
table_of turns = record { columns = empty_table.columns; rows = map turn_row turns }

-- The text that a table has in the context, and the tokens of the text of some turns.
abbrev pub text_of : (List (List Text) → Text) → ContextTable → Text
text_of csv table = section (csv (table.columns ∷ table.rows))

module _ (csv : List (List Text) → Text) (count : Text → ℕ) where
  abbrev pub cost : List ConversationTurn → ℕ
  cost turns = count (text_of csv (table_of turns))

  -- After the turns `before`, exactly the first `k` turns of `ts` are taken: with each of them the
  -- text has at most so many tokens, and with the next turn, if there is one, it has more.
  unfoldable pub IsSelected :
      (max_tokens : ℕ) → (before ts : List ConversationTurn) → (k : ℕ) → Type 0
  IsSelected max_tokens before ts k =
      (k ≤ length ts)
      × ((j : ℕ) → suc j ≤ k → cost (before ++ take (suc j) ts) ≤ max_tokens)
      × ((k ≡ length ts) ⊎ ((k < length ts) × (max_tokens < cost (before ++ take (suc k) ts))))

  cost-snoc :
      (before : List ConversationTurn) (t : ConversationTurn) (ts : List ConversationTurn)
      → cost ((before ++ t ∷ []) ++ ts) ≡ cost (before ++ t ∷ ts)
  cost-snoc before t ts = ap cost (append_assoc before (t ∷ []) ts)

validate_each-turns :
    (t : ContextTable) (turns : List ConversationTurn) (operation : Operation)
    → length t.columns ≡ 2
    → validate_each t (map turn_row turns) operation ≡ ok tt
unfolding program
validate_each-turns t [] operation h = refl
validate_each-turns t (x ∷ xs) operation h = ground (arith, h, validate_each-turns t xs operation h)

module _ (csv : CsvWriter) (text : List (List Text) → Text)
    (written : (turns : List ConversationTurn)
      → csv (empty_table.columns ∷ map turn_row turns)
        ≡ ok (text (empty_table.columns ∷ map turn_row turns))) where
  pub render-table_of :
      (turns : List ConversationTurn) (operation : Operation)
      → render_csv_section csv (table_of turns) section_name operation
        ≡ ok (text_of text (table_of turns))
  unfolding program
  render-table_of turns operation =
      rw (validate_each-turns (table_of turns) turns operation refl, written turns)

  push-table_of :
      (turns : List ConversationTurn) (t : ConversationTurn)
      → push (table_of turns) (turn_row t) ≡ table_of (turns ++ t ∷ [])
  push-table_of turns t =
      ap (λ r. record { columns = empty_table.columns; rows = r })
        (sym (map-append turn_row turns (t ∷ [])))

  module _ (count : TokenCount) (tokens : Text → ℕ) (counted : (s : Text) → count s ≡ ok (tokens s))
      (max_tokens : ℕ) where
    include_turns-table_of :
        (turns : List ConversationTurn) (t : ConversationTurn) (ts : List ConversationTurn)
        → include_turns csv count max_tokens (table_of turns) (t ∷ ts)
          ≡ elim (ltb max_tokens (cost text tokens (turns ++ t ∷ []))) [
            | true ↦ ok (table_of turns)
            | false ↦ include_turns csv count max_tokens (table_of (turns ++ t ∷ [])) ts
          ]
    unfolding include_turns
    include_turns-table_of turns t ts =
        ap
          (λ trial. render_csv_section csv trial section_name render_candidate >>= λ s.
            map_err count_candidate (count s) >>= λ n. elim (ltb max_tokens n) [
              | true ↦ ok (table_of turns)
              | false ↦ include_turns csv count max_tokens trial ts
            ])
          (push-table_of turns t)
        ∙ rw (
          render-table_of (turns ++ t ∷ []) render_candidate,
          counted (text_of text (table_of (turns ++ t ∷ []))),
        )

    -- One turn more before those that are selected.
    IsSelected-cons :
        (turns : List ConversationTurn) (t : ConversationTurn) (ts : List ConversationTurn) (k : ℕ)
        → ltb max_tokens (cost text tokens (turns ++ t ∷ [])) ≡ false
        → IsSelected text tokens max_tokens (turns ++ t ∷ []) ts k
        → IsSelected text tokens max_tokens turns (t ∷ ts) (suc k)
    unfolding IsSelected
    IsSelected-cons turns t ts k h (below, fits, end) = (
      omega arith,
      λ j.
          elim j
            as (λ j.
              suc j ≤ suc k → cost text tokens (turns ++ take (suc j) (t ∷ ts)) ≤ max_tokens) [
                | zero ↦ λ l. ground (arith, h)
                | suc i ↦ λ l.
                    omega
                      (arith, cost-snoc text tokens turns t (take (suc i) ts), fits i (omega arith))
              ],
      elim end [
        | inl e ↦ inl (omega arith)
        | inr (l, over) ↦
            inr (omega arith, omega (arith, cost-snoc text tokens turns t (take (suc k) ts), over))
      ],
    )

    pub include_turns-IsSelected :
        (turns ts : List ConversationTurn)
        → (k : ℕ) × (include_turns csv count max_tokens (table_of turns) ts
            ≡ ok (table_of (turns ++ take k ts)))
          × IsSelected text tokens max_tokens turns ts k
    unfolding program IsSelected
    include_turns-IsSelected turns [] = (
      0,
      ap (λ l. ok (table_of l)) (sym (append-nil turns)),
      (omega arith, λ j h. absurd (omega arith), inl refl),
    )
    include_turns-IsSelected turns (t ∷ ts) =
        elim (Bool-cases (ltb max_tokens (cost text tokens (turns ++ t ∷ [])))) [
          | inl h ↦ (
            0,
            include_turns-table_of turns t ts ∙ rw (h, append-nil turns),
            (
              omega arith,
              λ j l. absurd (omega arith),
              inr (omega arith, ltb→lt max_tokens (cost text tokens (turns ++ t ∷ [])) h),
            ),
          )
          | inr h ↦
              let (k, e, selected) = include_turns-IsSelected (turns ++ t ∷ []) ts in
              (
                suc k,
                include_turns-table_of turns t ts
                    ∙ rw (h, e, append_assoc turns (t ∷ []) (take k ts)),
                IsSelected-cons turns t ts k h selected,
              )
        ]
