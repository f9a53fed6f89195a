-- ===== src/Explain/Types.antt =====
-- explainability/dto.rs and explainability/record.rs: runs, records and envelopes. A time is a
-- count of units from the start of the calendar, since the store only compares times. The event
-- payload is a parameter: no operation of the store reads it.
use Prim.Native.String.{String}
use graphloom.Base.{
  ℕ, ◌≡◌, ◌↔◌, Bool, true, Option, Text, PartialEq, eqb, arith, Result, ok, err, if◌then◌else◌, leb,
  all, length, ◌||◌, ◌&&◌, ◌==◌, nat_eq,
}

pub data ExplainabilityRunKind : Type 0 where
  index update query prompt_tune : ExplainabilityRunKind

pub data ExplainabilityRunStatus : Type 0 where
  pending running completed failed cancelled : ExplainabilityRunStatus

pub data ExplainabilityQueryMethod : Type 0 where
  basic local global drift : ExplainabilityQueryMethod

abbrev kind_code : ExplainabilityRunKind → ℕ
kind_code index = 0
kind_code update = 1
kind_code query = 2
kind_code prompt_tune = 3

abbrev status_code : ExplainabilityRunStatus → ℕ
status_code pending = 0
status_code running = 1
status_code completed = 2
status_code failed = 3
status_code cancelled = 4

abbrev method_code : ExplainabilityQueryMethod → ℕ
method_code basic = 0
method_code local = 1
method_code global = 2
method_code drift = 3

pub kind_beq_iff :
    (a b : ExplainabilityRunKind) → (eqb (kind_code a) (kind_code b) ≡ true) ↔ (a ≡ b)
kind_beq_iff a b = ground arith

pub status_beq_iff :
    (a b : ExplainabilityRunStatus) → (eqb (status_code a) (status_code b) ≡ true) ↔ (a ≡ b)
status_beq_iff a b = ground arith

pub method_beq_iff :
    (a b : ExplainabilityQueryMethod) → (eqb (method_code a) (method_code b) ≡ true) ↔ (a ≡ b)
method_beq_iff a b = ground arith

instance abbrev pub kind_eq : PartialEq ExplainabilityRunKind
kind_eq = record { eq_test = λ a b. eqb (kind_code a) (kind_code b); eq_test_iff = kind_beq_iff }

instance abbrev pub status_eq : PartialEq ExplainabilityRunStatus
status_eq = record {
  eq_test = λ a b. eqb (status_code a) (status_code b);
  eq_test_iff = status_beq_iff;
}

instance abbrev pub method_eq : PartialEq ExplainabilityQueryMethod
method_eq = record {
  eq_test = λ a b. eqb (method_code a) (method_code b);
  eq_test_iff = method_beq_iff;
}

abbrev pub ExplainabilityRunId : Type 0
ExplainabilityRunId = Text

pub record ExplainabilityRun : Type 0 where
  pub run_id : ExplainabilityRunId
  pub kind : ExplainabilityRunKind
  pub status : ExplainabilityRunStatus
  pub query : Option Text
  pub query_method : Option ExplainabilityQueryMethod
  pub started_at : ℕ
  pub completed_at : Option ℕ
  pub compatibility_profile : Option Text
  pub event_count : ℕ

pub record ExplainabilityRecord (Event : Type 0) : Type 0 where
  pub run_id : ExplainabilityRunId
  pub timestamp : ℕ
  pub span_id : Text
  pub parent_span_id : Option Text
  pub event : Event

pub record ExplainabilityEnvelope (Event : Type 0) : Type 0 where
  pub schema_version : ℕ
  pub sequence : ℕ
  pub record_part : ExplainabilityRecord Event

pub data ContractError : Type 0 where
  invalid_identifier : (kind reason : String) → ContractError
  zero_sequence : ContractError

-- `ExplainabilityEnvelope::new`
unfoldable pub envelope_new :
    {Event : Type 0}
    → ℕ
    → ExplainabilityRecord Event
    → Result ContractError (ExplainabilityEnvelope Event)
envelope_new sequence r =
    if sequence == 0
    then err zero_sequence
    else ok (record { schema_version = 1; sequence = sequence; record_part = r })

abbrev is_identifier_byte : ℕ → Bool
is_identifier_byte b =
    (leb b'a' b && leb b b'z')
    || (leb b'A' b && leb b b'Z')
    || (leb b'0' b && leb b b'9')
    || b == b'-'
    || b == b'_'
    || b == b'.'
    || b == b':'

-- `validate_identifier`, which every parsed run or span identifier passes.
unfoldable pub validate_identifier : Text → String → Result ContractError (Unit {0})
validate_identifier value kind =
    if length value == 0
    then err (invalid_identifier kind "value must not be empty")
    else if leb (length value) 128
    then if all is_identifier_byte value
      then ok tt
      else err (
          invalid_identifier kind
            "only ASCII letters, digits, hyphen, underscore, period, and colon are allowed")
    else err (invalid_identifier kind "value exceeds 128 bytes")
