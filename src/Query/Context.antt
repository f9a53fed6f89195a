-- ===== src/Query/Context.antt =====
-- query/context/conversation.rs and the part of csv.rs that it uses: the conversation history that
-- local search puts into its context. The csv crate's writer and the tokenizer's `count` are the
-- caller's, so they are parameters. An error keeps the numbers of its message in place of the text.
pub mod Recent
pub mod Included
pub mod Selection
mod Examples
use graphloom.Base.{
  ℕ, zero, suc, Bool, true, false, Option, none, some, List, [], ◌∷◌, ◌++◌, map, Text, codes,
  Result, ok, err, length, take, filter, find, reverse, any, if◌then◌else◌, ltb, eqb, usize_max,
  ◌>>=◌, ◌>>◌,
}
use graphloom.Query.Drift.{enumerate}

pub data ConversationRole : Type 0 where
  system user assistant : ConversationRole

abbrev pub as_str : ConversationRole → Text
as_str system = codes "system"
as_str user = codes "user"
as_str assistant = codes "assistant"

pub record ConversationTurn : Type 0 where
  pub role : ConversationRole
  pub content : Text

pub record ConversationHistory : Type 0 where
  pub turns : List ConversationTurn

-- `turn.role == ConversationRole::User`
abbrev pub is_user : ConversationTurn → Bool
is_user turn = elim turn.role [ user ↦ true | _ ↦ false ]

abbrev pub max_conversation_turns : ℕ
max_conversation_turns = 1024

abbrev pub max_conversation_content_bytes : ℕ
max_conversation_content_bytes = 65536

pub data HistoryError : Type 0 where
  too_many_turns : (turns : ℕ) → HistoryError
  turn_too_long : (index bytes : ℕ) → HistoryError

abbrev pub check_turn : Option (ℕ × ConversationTurn) → Result HistoryError (Unit {0})
check_turn none = ok tt
check_turn (some (index, turn)) = err (turn_too_long index (length turn.content))

unfoldable pub validate : ConversationHistory → Result HistoryError (Unit {0})
validate history =
    if ltb max_conversation_turns (length history.turns)
    then err (too_many_turns (length history.turns))
    else check_turn (
        find (λ entry. ltb max_conversation_content_bytes (length entry.1.content))
          (enumerate 0 history.turns))

-- `if max_turns == 0 { usize::MAX } else { max_turns }`
abbrev pub turn_limit : ℕ → ℕ
turn_limit zero = usize_max
turn_limit (suc n) = suc n

unfoldable pub recent_user_questions : ConversationHistory → (max_turns : ℕ) → List Text
recent_user_questions history max_turns =
    take (turn_limit max_turns) (map (λ t. t.content) (filter is_user (reverse history.turns)))

abbrev pub join : (separator : Text) → List Text → Text
join separator [] = []
join separator (x ∷ []) = x
join separator (x ∷ y ∷ ys) = x ++ separator ++ join separator (y ∷ ys)

unfoldable pub mapping_query : ConversationHistory → (query : Text) → (max_turns : ℕ) → Text
mapping_query history query max_turns =
    query ++ 10 ∷ join (10 ∷ []) (recent_user_questions history max_turns)

-- The `operation` and the `message` of `QueryError::QueryContext`.
pub data Operation : Type 0 where
  render_candidate count_candidate render_history : Operation

pub data Message : Type 0 where
  field_count : (fields columns : ℕ) → Message
  external : Text → Message

pub data QueryError : Type 0 where
  query_context : Operation → Message → QueryError

pub record ContextTable : Type 0 where
  pub columns : List Text
  pub rows : List (List Text)

abbrev pub push : ContextTable → List Text → ContextTable
push table row = record { columns = table.columns; rows = table.rows ++ row ∷ [] }

unfoldable pub validate_row : ContextTable → List Text → Operation → Result QueryError (Unit {0})
validate_row table row operation =
    if eqb (length row) (length table.columns)
    then ok tt
    else err (query_context operation (field_count (length row) (length table.columns)))

unfoldable pub validate_each :
    ContextTable → List (List Text) → Operation → Result QueryError (Unit {0})
validate_each table [] operation = ok tt
validate_each table (row ∷ rows) operation =
    validate_row table row operation >> validate_each table rows operation

unfoldable pub validate_rows : ContextTable → Operation → Result QueryError (Unit {0})
validate_rows table operation = validate_each table table.rows operation

abbrev pub map_err : {T : Type 0} → Operation → Result Text T → Result QueryError T
map_err operation (ok t) = ok t
map_err operation (err e) = err (query_context operation (external e))

-- A writer of records and a token count: the csv crate's and the tokenizer's.
abbrev pub CsvWriter : Type 0
CsvWriter = List (List Text) → Result Text Text

abbrev pub TokenCount : Type 0
TokenCount = Text → Result Text ℕ

module _ (csv : CsvWriter) where
  unfoldable pub render_csv : ContextTable → Operation → Result QueryError Text
  render_csv table operation =
      validate_rows table operation >> map_err operation (csv (table.columns ∷ table.rows))

  unfoldable pub render_csv_section :
      ContextTable → (context_name : Text) → Operation → Result QueryError Text
  render_csv_section table context_name operation = render_csv table operation >>= λ csv_text.
      ok (codes "-----" ++ context_name ++ codes "-----" ++ 10 ∷ csv_text)

pub record ConversationContext : Type 0 where
  pub text : Text
  pub table : ContextTable

abbrev pub section_name : Text
section_name = codes "Conversation History"

abbrev pub turn_row : ConversationTurn → List Text
turn_row turn = as_str user ∷ turn.content ∷ []

abbrev pub empty_table : ContextTable
empty_table = record { columns = codes "turn" ∷ codes "content" ∷ []; rows = [] }

module _ (csv : CsvWriter) (count : TokenCount) (max_tokens : ℕ) where
  -- The `for` loop, with the table so far.
  unfoldable pub include_turns :
      ContextTable → List ConversationTurn → Result QueryError ContextTable
  include_turns table [] = ok table
  include_turns table (turn ∷ turns) =
      render_csv_section csv (push table (turn_row turn)) section_name render_candidate >>= λ text.
      map_err count_candidate (count text) >>= λ tokens. elim (ltb max_tokens tokens) [
        | true ↦ ok table
        | false ↦ include_turns (push table (turn_row turn)) turns
      ]

-- The text of the table that the loop leaves.
unfoldable pub history_text : CsvWriter → ContextTable → Result QueryError Text
history_text csv table = elim table.rows [
  | [] ↦ ok (codes "-----Conversation History-----" ++ 10 ∷ 10 ∷ [])
  | row ∷ rows ↦ render_csv_section csv table section_name render_history
]

unfoldable pub build_user_context :
    CsvWriter
    → TokenCount
    → ConversationHistory
    → (max_turns max_tokens : ℕ) → Result QueryError ConversationContext
build_user_context csv count history max_turns max_tokens =
    if any is_user history.turns
    then (include_turns csv count max_tokens empty_table
          (take (turn_limit max_turns) (filter is_user history.turns))
        >>= λ table. history_text csv table >>= λ text. ok (record { text = text; table = table }))
    else ok (record { text = []; table = empty_table })
