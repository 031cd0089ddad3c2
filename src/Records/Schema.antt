-- ===== src/Records/Schema.antt =====
-- src/agentmarshal/journal/records.py: `_RECORD_FIELDS`, the field families, `_allowed_fields`.
use agentmarshal.Common.{
  any, leb, if◌then◌else◌, ℕ, String, Bool, true, false, ◌&&◌, Option, none, some, List, [], ◌∷◌,
  ◌++◌,
}
use agentmarshal.Json.{pos, Json, int, Fields, ◌!◌, has, text_of}
use agentmarshal.Registry.{
  RecordType, opened, review, acceptance, completed, abandoned, reopened, amendment, session,
  finding, check, agreement, acknowledgement, ext, named, same_type,
}

abbrev pub supported_schemas : List ℕ
supported_schemas = 1 ∷ 2 ∷ 3 ∷ 4 ∷ 5 ∷ 6 ∷ 7 ∷ []

-- The envelope that every entry of `_RECORD_FIELDS` repeats.
abbrev envelope : List String
envelope = "schema" ∷ "record_type" ∷ "task" ∷ "created_at" ∷ "tool_version" ∷ []

unfoldable pub record_fields : RecordType → List String
record_fields opened = envelope
record_fields review =
    envelope
    ++ ("reviewed_commit" ∷ "reviewed_finding" ∷ "verdict" ∷ "reviewer" ∷ "findings"
        ∷ "advisory_findings" ∷ [])
record_fields acceptance =
    envelope
    ++ ("accepted_commit" ∷ "accepted_finding" ∷ "accepted_by" ∷ "findings" ∷ "reason" ∷ [])
record_fields completed = envelope ++ ("completed_commit" ∷ "completed_finding" ∷ [])
record_fields abandoned = envelope ++ ("reason" ∷ [])
record_fields reopened = envelope ++ ("reason" ∷ [])
record_fields amendment = envelope ++ ("reason" ∷ [])
record_fields session = envelope ++ ("role" ∷ "actor" ∷ "activity" ∷ "outcome" ∷ "tokens" ∷ [])
record_fields finding = envelope ++ ("summary" ∷ [])
record_fields check = envelope
record_fields agreement = envelope
record_fields acknowledgement = envelope
record_fields ext = envelope

abbrev pub schema_2_fields : List String
schema_2_fields = "source" ∷ "artifacts" ∷ "recorded_by" ∷ "recorded_by_source" ∷ []

abbrev pub schema_2_session_fields : List String
schema_2_session_fields = "usage" ∷ []

abbrev pub schema_4_fields : List String
schema_4_fields = "reviewed_finding" ∷ "accepted_finding" ∷ "completed_finding" ∷ []

abbrev pub schema_5_fields : List String
schema_5_fields = "reviewed_contract" ∷ []

abbrev pub schema_7_session_fields : List String
schema_7_session_fields =
    "commit" ∷ "model" ∷ "trace" ∷ "cli_session" ∷ "report_ready" ∷ "fallback_reason" ∷ "started_at"
    ∷ "ended_at" ∷ "resets_at" ∷ "cost" ∷ []

abbrev pub schema_7_contract_fields : List String
schema_7_contract_fields = "contract" ∷ []

abbrev pub schema_7_check_fields : List String
schema_7_check_fields = "commit" ∷ "name" ∷ "result" ∷ "failed_step" ∷ "excerpt" ∷ "run_url" ∷ []

abbrev pub schema_7_acknowledgement_fields : List String
schema_7_acknowledgement_fields = "commit" ∷ "file" ∷ "signature" ∷ "marker" ∷ "reason" ∷ []

abbrev pub schema_7_acceptance_fields : List String
schema_7_acceptance_fields = "accepted_pause" ∷ "operational" ∷ []

abbrev pub schema_7_review_fields : List String
schema_7_review_fields = "previous_review" ∷ "classes" ∷ "verification" ∷ "evidence" ∷ []

abbrev pub schema_7_completed_fields : List String
schema_7_completed_fields = "advisory_dispositions" ∷ []

abbrev pub schema_7_ext_fields : List String
schema_7_ext_fields = "kind" ∷ "commit" ∷ "payload" ∷ "payload_sha256" ∷ []

-- One entry of `_FIELD_FAMILIES`; `only = none` is every record type.
pub record Family : Type 0 where
  pub introduced : ℕ
  pub only : Option RecordType
  pub family : List String

abbrev family_of : ℕ → Option RecordType → List String → Family
family_of n t fs = record { introduced = n; only = t; family = fs }

abbrev pub field_families : List Family
field_families =
    family_of 2 none schema_2_fields
    ∷ family_of 2 (some session) schema_2_session_fields
    ∷ family_of 5 (some review) schema_5_fields
    ∷ family_of 7 (some session) schema_7_session_fields
    ∷ family_of 7 (some opened) schema_7_contract_fields
    ∷ family_of 7 (some amendment) schema_7_contract_fields
    ∷ family_of 7 (some agreement) schema_7_contract_fields
    ∷ family_of 7 (some check) schema_7_check_fields
    ∷ family_of 7 (some acknowledgement) schema_7_acknowledgement_fields
    ∷ family_of 7 (some acceptance) schema_7_acceptance_fields
    ∷ family_of 7 (some review) schema_7_review_fields
    ∷ family_of 7 (some completed) schema_7_completed_fields
    ∷ family_of 7 (some ext) schema_7_ext_fields
    ∷ []

-- `only_type is None or record_type == only_type`
unfoldable pub covers_type : Option RecordType → RecordType → Bool
unfolding same_type
covers_type none t = true
covers_type (some u) t = same_type t u

unfoldable pub add_families : RecordType → ℕ → List Family → List String → List String
unfolding covers_type
add_families t schema [] fields = fields
add_families t schema (f ∷ fs) fields =
    add_families t schema fs
      (if leb f.introduced schema && covers_type f.only t then fields ++ f.family else fields)

unfoldable pub allowed_fields : RecordType → ℕ → List String
unfolding add_families record_fields
allowed_fields t schema = add_families t schema field_families (record_fields t)

-- `data["record_type"]`, read as a key of the registry. (`_RECORD_FIELDS` has the same keys.)
unfoldable pub record_type_of : Fields → Option RecordType
record_type_of r = named (text_of (r ! "record_type"))

abbrev is_just_type : RecordType → Option RecordType → Bool
is_just_type t none = false
is_just_type t (some u) = same_type u t

-- `data["record_type"] == "<type>"`
unfoldable pub is_type : RecordType → Fields → Bool
is_type t r = is_just_type t (record_type_of r)

-- `data["schema"]` where the version check has passed
unfoldable pub schema_number : Option Json → ℕ
schema_number (some (int (pos n))) = n
schema_number _ = 0

unfoldable pub schema_of : Fields → ℕ
unfolding ◌!◌ schema_number
schema_of r = schema_number (r ! "schema")

-- `data.keys() & fields` is not empty
unfoldable pub has_any : Fields → List String → Bool
unfolding any has
has_any r fields = any (λ k. has r k) fields
