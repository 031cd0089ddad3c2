-- ===== src/Records/Builders/Stamp.antt =====
-- src/agentmarshal/journal/records.py: `_minimum_schema`.
use agentmarshal.Common.{ltb, if◌then◌else◌, ℕ, Bool, ◌&&◌, ◌||◌}
use agentmarshal.Json.{Fields, ◌!◌, has, fields_of, is_dict}
use agentmarshal.Registry.{finding, check, agreement, acknowledgement, ext}
use agentmarshal.Records.Schema.{
  schema_4_fields, schema_7_session_fields, schema_7_contract_fields, schema_7_acceptance_fields,
  schema_7_review_fields, schema_7_completed_fields, is_type, has_any,
}
use agentmarshal.Records.Rules.Session.{is_coordination}

-- `if test: schema = max(schema, n)`
unfoldable pub raise_to : ℕ → Bool → ℕ → ℕ
raise_to n test schema = if test && ltb schema n then n else schema

unfoldable pub has_reviewer_actor : Fields → Bool
unfolding is_dict fields_of has ◌!◌
has_reviewer_actor r = is_dict (r ! "reviewer") && has (fields_of (r ! "reviewer")) "actor"

unfoldable pub minimum_schema : Fields → ℕ
minimum_schema r =
    let s4 = raise_to 4 (is_type finding r || has_any r schema_4_fields) 3 in
    let s5 = raise_to 5 (has r "reviewed_contract") s4 in
    let s6 = raise_to 6 (is_coordination r) s5 in
    let s7a = raise_to 7 (has_any r schema_7_session_fields) s6 in
    let s7b = raise_to 7 (has_any r schema_7_contract_fields) s7a in
    let s7c = raise_to 7 (has_any r schema_7_acceptance_fields) s7b in
    let s7d = raise_to 7 (has_any r schema_7_review_fields) s7c in
    let s7e = raise_to 7 (has_any r schema_7_completed_fields) s7d in
    let s7f = raise_to 7 (has_reviewer_actor r) s7e in
    let s7g = raise_to 7 (is_type check r) s7f in
    let s7h = raise_to 7 (is_type agreement r) s7g in
    let s7i = raise_to 7 (is_type acknowledgement r) s7h in raise_to 7 (is_type ext r) s7i
