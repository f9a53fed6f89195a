-- ===== src/Query/Context/Examples.antt =====
-- A history of four turns, and the theorems there. The writer of the examples puts every field on a
-- line of its own, and a token is a byte.
use graphloom.Base.{ℕ, ◌≡◌, refl, List, [], ◌∷◌, ◌++◌, Text, ok, length, reverse, take, find}
use graphloom.Query.Context.{
  ConversationHistory, CsvWriter, TokenCount, user, assistant, validate, recent_user_questions,
  mapping_query, validate_row, validate_each, validate_rows, render_csv, render_csv_section,
  include_turns, history_text, build_user_context,
}
use graphloom.Query.Context.Recent.{recent_user_questions-newest, newest, questions}
use graphloom.Query.Context.Included.{IsSelected, table_of}
use graphloom.Query.Context.Selection.{build_user_context-IsSelected, candidates, selected_text}

program : Unit {0}
unfolding validate find reverse recent_user_questions mapping_query validate_row validate_each
    validate_rows render_csv render_csv_section include_turns history_text build_user_context
program = tt

abbrev history : ConversationHistory
history = record {
  turns =
      record { role = user; content = 1 ∷ 2 ∷ [] }
      ∷ record { role = assistant; content = 3 ∷ [] }
      ∷ record { role = user; content = 4 ∷ [] }
      ∷ record { role = user; content = 5 ∷ 6 ∷ 7 ∷ [] }
      ∷ [];
}

abbrev fields : List Text → Text
fields [] = []
fields (f ∷ fs) = f ++ 10 ∷ fields fs

abbrev written : List (List Text) → Text
written [] = []
written (r ∷ rs) = fields r ++ written rs

abbrev csv : CsvWriter
csv records = ok (written records)

abbrev bytes : TokenCount
bytes text = ok (length text)

newest_two : recent_user_questions history 2 ≡ (5 ∷ 6 ∷ 7 ∷ []) ∷ (4 ∷ []) ∷ []
unfolding program
newest_two = refl

mapped : mapping_query history (9 ∷ []) 2 ≡ 9 ∷ 10 ∷ 5 ∷ 6 ∷ 7 ∷ 10 ∷ 4 ∷ []
unfolding program
mapped = refl

-- Forty-four bytes for the section without rows, eight for the first question and seven for the next.
two_fit :
    build_user_context csv bytes history 0 60
    ≡ ok (record {
      text = selected_text written history (take 2 (candidates history 0));
      table = table_of (take 2 (candidates history 0));
    })
unfolding program
two_fit = refl

recent_user_questions-newest_example :
    recent_user_questions history 2 ≡ newest 2 (questions history)
unfolding program
recent_user_questions-newest_example = recent_user_questions-newest history 2 refl

build_user_context-IsSelected_example :
    (k : ℕ) × (build_user_context csv bytes history 3 60
      ≡ ok (record {
        text = selected_text written history (take k (candidates history 3));
        table = table_of (take k (candidates history 3));
      }))
    × IsSelected written length 60 [] (candidates history 3) k
build_user_context-IsSelected_example =
    build_user_context-IsSelected csv written (λ turns. refl) bytes length (λ s. refl) history 3 60
