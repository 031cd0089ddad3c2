-- ===== src/Records/Validate.antt =====
-- src/agentmarshal/journal/records.py: `_RULES`, `_RULE_FROM_SCHEMA` and `_validate_record`.
use package.text.Mathlib.Text.{◌==◌ as str_eq}
use agentmarshal.Common.{
  plain, refused, Result, ok, Check, ◌>>◌, guard, each, text, leb, if◌then◌else◌, ℕ, String, Bool,
  true, false, not, ◌&&◌, Option, none, some, List, [], ◌∷◌,
}
use agentmarshal.Json.{Fields}
use agentmarshal.Runtime.{Runtime}
use agentmarshal.Registry.{RecordType, record_types, name}
use agentmarshal.Records.Schema.{record_type_of, schema_of}
use agentmarshal.Records.Rules.Envelope.{
  check_schema_version, check_record_type, check_record_type_predicate, check_reviewed_contract,
  check_fields, check_required_strings, check_timestamp_text, check_created_at, check_tool_version,
}
use agentmarshal.Records.Rules.Lifecycle.{
  check_completed_record, check_finding_record, check_abandoned_record, check_reopened_record,
  check_amendment_record, check_check_schema, check_agreement_schema, check_acknowledgement_schema,
  check_ext_schema,
}
use agentmarshal.Records.Rules.Session.{
  check_session_fields, check_coordination, check_session_tokens, check_session_usage,
  check_session_fields_7,
}
use agentmarshal.Records.Rules.Evidence.{
  check_contract_hash_7, check_check_fields_7, check_agreement_fields_7,
  check_acknowledgement_fields_7, check_ext_fields_7,
}
use agentmarshal.Records.Rules.Acceptance.{check_acceptance_record, check_acceptance_fields_7}
use agentmarshal.Records.Rules.Review.{check_review_record, check_review_fields_7}
use agentmarshal.Records.Rules.Completed.{check_completed_fields_7}
use agentmarshal.Records.Rules.Provenance.{
  check_provenance, check_artifact_ref_text, check_recorded_by,
}
use agentmarshal.Records.Rules.Placement.{
  RuleContext, check_finding_binding, check_task_placement, check_filename_record_type,
  check_finding_binding_target,
}
use agentmarshal.Records.Rules.Bounds.{
  check_bounded_text, check_bounded_text_bytes, check_bounded_json, check_forgeable_text,
}
use agentmarshal.Records.Forgeable.{when}

pub record Rule : Type 0 where
  pub name : String
  pub check : RuleContext → Fields → Check

abbrev pub rule : String → (Fields → Check) → Rule
rule n c = record { name = n; check = λ context r. c r }

abbrev pub placing_rule : String → (RuleContext → Fields → Check) → Rule
placing_rule n c = record { name = n; check = c }

-- `_RULES`, in the order of the decorated functions
unfoldable pub rules : Runtime → List Rule
rules rt =
    rule "record-type" check_record_type
    ∷ rule "record-type-predicate" check_record_type_predicate
    ∷ rule "reviewed-contract" check_reviewed_contract
    ∷ rule "fields" check_fields
    ∷ rule "required-strings" check_required_strings
    ∷ rule "timestamp-text" (check_timestamp_text rt)
    ∷ rule "created-at" (check_created_at rt)
    ∷ rule "tool-version" check_tool_version
    ∷ rule "review" (check_review_record rt)
    ∷ rule "acceptance" (check_acceptance_record rt)
    ∷ rule "completed" check_completed_record
    ∷ rule "finding" (check_finding_record rt)
    ∷ rule "abandoned" check_abandoned_record
    ∷ rule "reopened" (check_reopened_record rt)
    ∷ rule "amendment" (check_amendment_record rt)
    ∷ rule "check" check_check_schema
    ∷ rule "agreement" check_agreement_schema
    ∷ rule "acknowledgement" check_acknowledgement_schema
    ∷ rule "ext" check_ext_schema
    ∷ rule "session-fields" check_session_fields
    ∷ rule "coordination" check_coordination
    ∷ rule "session-tokens" check_session_tokens
    ∷ rule "session-usage" check_session_usage
    ∷ rule "session-fields-7" (check_session_fields_7 rt)
    ∷ rule "contract-hash-7" check_contract_hash_7
    ∷ rule "check-fields-7" (check_check_fields_7 rt)
    ∷ rule "agreement-fields-7" check_agreement_fields_7
    ∷ rule "acknowledgement-fields-7" (check_acknowledgement_fields_7 rt)
    ∷ rule "acceptance-fields-7" (check_acceptance_fields_7 rt)
    ∷ rule "review-fields-7" (check_review_fields_7 rt)
    ∷ rule "completed-fields-7" (check_completed_fields_7 rt)
    ∷ rule "ext-fields-7" (check_ext_fields_7 rt)
    ∷ rule "provenance" check_provenance
    ∷ rule "artifact-ref-text" (check_artifact_ref_text rt)
    ∷ rule "recorded-by" check_recorded_by
    ∷ rule "finding-binding" check_finding_binding
    ∷ placing_rule "task-placement" check_task_placement
    ∷ placing_rule "filename-record-type" check_filename_record_type
    ∷ placing_rule "finding-binding-target" check_finding_binding_target
    ∷ rule "bounded-text" check_bounded_text
    ∷ rule "bounded-text-bytes" check_bounded_text_bytes
    ∷ rule "bounded-json" (check_bounded_json rt)
    ∷ rule "forgeable-text" (check_forgeable_text rt)
    ∷ []

-- `_RULE_FROM_SCHEMA`: the schema that a rule applies from at read time
abbrev pub rule_from_schema : List (String × ℕ)
rule_from_schema =
    ("record-type", 1)
    ∷ ("record-type-predicate", 1)
    ∷ ("reviewed-contract", 5)
    ∷ ("fields", 1)
    ∷ ("required-strings", 1)
    ∷ ("created-at", 1)
    ∷ ("tool-version", 1)
    ∷ ("review", 1)
    ∷ ("acceptance", 1)
    ∷ ("completed", 1)
    ∷ ("finding", 1)
    ∷ ("abandoned", 1)
    ∷ ("reopened", 1)
    ∷ ("amendment", 1)
    ∷ ("check", 1)
    ∷ ("agreement", 1)
    ∷ ("acknowledgement", 1)
    ∷ ("ext", 1)
    ∷ ("session-fields", 1)
    ∷ ("coordination", 6)
    ∷ ("session-tokens", 1)
    ∷ ("session-usage", 1)
    ∷ ("session-fields-7", 7)
    ∷ ("contract-hash-7", 7)
    ∷ ("check-fields-7", 7)
    ∷ ("agreement-fields-7", 7)
    ∷ ("acknowledgement-fields-7", 7)
    ∷ ("acceptance-fields-7", 7)
    ∷ ("review-fields-7", 7)
    ∷ ("completed-fields-7", 7)
    ∷ ("ext-fields-7", 7)
    ∷ ("provenance", 2)
    ∷ ("artifact-ref-text", 8)
    ∷ ("timestamp-text", 8)
    ∷ ("recorded-by", 1)
    ∷ ("finding-binding", 4)
    ∷ ("task-placement", 1)
    ∷ ("filename-record-type", 1)
    ∷ ("finding-binding-target", 1)
    ∷ ("bounded-text", 7)
    ∷ ("bounded-text-bytes", 7)
    ∷ ("bounded-json", 7)
    ∷ ("forgeable-text", 7)
    ∷ []

unfoldable pub lookup_bound : List (String × ℕ) → String → Option ℕ
lookup_bound [] name = none
lookup_bound ((n, bound) ∷ table) name =
    if str_eq n name then some bound else lookup_bound table name

-- `bound is not None and bound <= schema`
unfoldable pub reaches : Option ℕ → ℕ → Bool
reaches none schema = false
reaches (some bound) schema = leb bound schema

-- At write time every rule applies; at read time the rules of the record's schema and below.
unfoldable pub applies : Bool → ℕ → String → Bool
unfolding reaches lookup_bound
applies true schema name = true
applies false schema name = reaches (lookup_bound rule_from_schema name) schema

-- One turn of the loop over `_RULES`.
unfoldable pub apply_rule : Bool → RuleContext → Fields → Rule → Check
apply_rule for_write context r rule =
    when (applies for_write (schema_of r) rule.name) (rule.check context r)

abbrev writable_type : Option RecordType → Bool
writable_type none = false
writable_type (some t) = (record_types t).writable

unfoldable pub is_writable : Fields → Bool
unfolding record_types record_type_of
is_writable r = writable_type (record_type_of r)

unfoldable pub validate_record : Runtime → Bool → RuleContext → Fields → Result Fields
validate_record rt for_write context r = do
  check_schema_version r
  each (apply_rule for_write context r) (rules rt)
  guard (not (for_write && not (is_writable r))) (refused (plain "record type") "is not writable")
  ok r
