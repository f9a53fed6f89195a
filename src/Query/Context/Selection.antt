-- ===== src/Query/Context/Selection.antt =====
-- ConversationHistory::build_user_context: which turns it takes.
use graphloom.Base.{
  ℕ, ◌≡◌, refl, sym, ap, inl, inr, true, false, List, [], ◌∷◌, map, Text, ok, length, take,
  length-take, filter, any, arith, Bool-cases,
}
use graphloom.Query.Context.{
  ConversationHistory, ConversationTurn, CsvWriter, TokenCount, is_user, turn_row, empty_table,
  turn_limit, history_text, build_user_context, render_history,
}
use graphloom.Query.Context.Included.{
  section, table_of, text_of, IsSelected, render-table_of, include_turns-IsSelected,
}

abbrev pub shown_text : (List (List Text) → Text) → List ConversationTurn → Text
shown_text csv [] = section (10 ∷ [])
shown_text csv (t ∷ ts) = text_of csv (table_of (t ∷ ts))

history_text-table_of :
    (csv : CsvWriter) (text : List (List Text) → Text)
    (written : (turns : List ConversationTurn)
      → csv (empty_table.columns ∷ map turn_row turns)
        ≡ ok (text (empty_table.columns ∷ map turn_row turns)))
    (turns : List ConversationTurn)
    → history_text csv (table_of turns) ≡ ok (shown_text text turns)
unfolding history_text
history_text-table_of csv text written [] = refl
history_text-table_of csv text written (t ∷ ts) =
    render-table_of csv text written (t ∷ ts) render_history

-- The questions that the context may take, in the order of the history.
abbrev pub candidates : ConversationHistory → ℕ → List ConversationTurn
candidates history max_turns = take (turn_limit max_turns) (filter is_user history.turns)

-- The text for some turns: empty for a history without a question, and the bare header where none is
-- taken.
abbrev pub selected_text :
    (List (List Text) → Text) → ConversationHistory → List ConversationTurn → Text
selected_text csv history turns = elim (any is_user history.turns) [
  | false ↦ []
  | true ↦ shown_text csv turns
]

selected_text-any :
    (csv : List (List Text) → Text) (history : ConversationHistory) (turns : List ConversationTurn)
    → any is_user history.turns ≡ true
    → selected_text csv history turns ≡ shown_text csv turns
selected_text-any csv history turns h = rw (selected_text, h)

filter-any-false : (ts : List ConversationTurn) → any is_user ts ≡ false → filter is_user ts ≡ []
filter-any-false [] h = refl
filter-any-false (t ∷ ts) h = ground (arith, h, filter-any-false ts)

-- Where the writer and the tokenizer do not fail, build_user_context returns the table of the first
-- `k` questions of the user, and its text. With each question taken, the text had no more tokens
-- than the maximum; and `k` is as large as the maxima let it be: it is the number of the questions up
-- to the maximum of turns, or the text with the next of them has too many tokens.
pub build_user_context-IsSelected :
    (csv : CsvWriter) (text : List (List Text) → Text)
    (written : (turns : List ConversationTurn)
      → csv (empty_table.columns ∷ map turn_row turns)
        ≡ ok (text (empty_table.columns ∷ map turn_row turns)))
    (count : TokenCount) (tokens : Text → ℕ) (counted : (s : Text) → count s ≡ ok (tokens s))
    (history : ConversationHistory) (max_turns max_tokens : ℕ)
    → (k : ℕ) × (build_user_context csv count history max_turns max_tokens
        ≡ ok (record {
          text = selected_text text history (take k (candidates history max_turns));
          table = table_of (take k (candidates history max_turns));
        }))
      × IsSelected text tokens max_tokens [] (candidates history max_turns) k
unfolding build_user_context IsSelected
build_user_context-IsSelected csv text written count tokens counted history max_turns max_tokens =
    elim (Bool-cases (any is_user history.turns)) [
      | inl h ↦
          let (k, e, selected) =
            include_turns-IsSelected csv text written count tokens counted max_tokens []
              (candidates history max_turns) in
          (
            k,
            rw
                (
                  h,
                  e,
                  history_text-table_of csv text written (take k (candidates history max_turns)),
                )
                (ap
                  (λ s.
                    ok (record {
                      text = s;
                      table = table_of (take k (candidates history max_turns));
                    }))
                  (sym (selected_text-any text history (take k (candidates history max_turns)) h))),
            selected,
          )
      | inr h ↦ (
        0,
        rw (selected_text, h),
        (
          omega arith,
          λ j l. absurd (omega arith),
          inl (
              omega (
                arith,
                length-take (turn_limit max_turns) (filter is_user history.turns),
                ap length (filter-any-false history.turns h),
              )),
        ),
      )
    ]
