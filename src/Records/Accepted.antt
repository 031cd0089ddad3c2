-- ===== src/Records/Accepted.antt =====
-- src/agentmarshal/journal/records.py: what a record has once validation accepts it, on the write path
-- and on the read path of every schema.
pub mod Review
pub mod Acceptance
use agentmarshal.Common.{
  All, All-map, What, pass, each, each-ok, guard-ok, Text, ◌≤◌, String, ◌≡◌, refl, ◌⊎◌, Bool, true,
  false, Option, none, some, List, arith,
}
use agentmarshal.Json.{pos, negsuc, Json, int, Fields, ◌!◌, has}
use agentmarshal.Runtime.{Runtime}
use agentmarshal.Registry.{name}
use agentmarshal.Records.Schema.{schema_number, schema_of}
use agentmarshal.Records.Rules.Envelope.{
  is_supported, check_schema_version, check_record_type, check_fields,
}
use agentmarshal.Records.Rules.Review.{check_review_record}
use agentmarshal.Records.Rules.Placement.{RuleContext}
use agentmarshal.Records.Validate.{rules, rule_from_schema, lookup_bound, applies}
use agentmarshal.Records.Sound.{IsAccepted}
use agentmarshal.Records.Patterns.{commit_matches, is_ulid}
use agentmarshal.Records.Forgeable.{forges_rendered_text, reject_control_characters, is_match}
use agentmarshal.Records.Rules.Lifecycle.{validate_binding, check_completed_record}
use agentmarshal.Records.Rules.Acceptance.{check_acceptance_record}

supported_range :
    (v : Option Json) → is_supported v ≡ true → (1 ≤ schema_number v) × (schema_number v ≤ 7)
unfolding is_supported schema_number
supported_range none h = cc
supported_range (some (Json.int (pos n))) h = ground arith
supported_range (some (Json.int (negsuc n))) h = cc
supported_range (some _) h = cc

module _ (rt : Runtime) (for_write : Bool) (context : RuleContext) (r : Fields) where
  -- An accepted record has a supported schema.
  pub accepted_schema : IsAccepted rt for_write context r → (1 ≤ schema_of r) × (schema_of r ≤ 7)
  unfolding schema_of check_schema_version
  accepted_schema a =
      supported_range (r ! "schema") (guard-ok (is_supported (r ! "schema")) _ a.version)

  from_first :
      (name : String)
      → lookup_bound rule_from_schema name ≡ some 1
      → IsAccepted rt for_write context r
      → applies for_write (schema_of r) name ≡ true
  unfolding applies
  from_first name e a = ground (arith, accepted_schema a)

  pub accepted_review_rule : IsAccepted rt for_write context r → check_review_record rt r ≡ pass
  unfolding rules lookup_bound
  accepted_review_rule a = a.every_rule.1.1.1.1.1.1.1.1.0 (from_first "review" refl a)

  pub accepted_acceptance_rule :
      IsAccepted rt for_write context r → check_acceptance_record rt r ≡ pass
  unfolding rules lookup_bound
  accepted_acceptance_rule a = a.every_rule.1.1.1.1.1.1.1.1.1.0 (from_first "acceptance" refl a)

  pub accepted_completed_rule : IsAccepted rt for_write context r → check_completed_record r ≡ pass
  unfolding rules lookup_bound
  accepted_completed_rule a = a.every_rule.1.1.1.1.1.1.1.1.1.1.0 (from_first "completed" refl a)

  pub accepted_fields_rule : IsAccepted rt for_write context r → check_fields r ≡ pass
  unfolding rules lookup_bound
  accepted_fields_rule a = a.every_rule.1.1.1.0 (from_first "fields" refl a)

  pub accepted_type_rule : IsAccepted rt for_write context r → check_record_type r ≡ pass
  unfolding rules lookup_bound
  accepted_type_rule a = a.every_rule.0 (from_first "record-type" refl a)

-- A record names exactly one of a commit and a finding, and that one is well-formed.
abbrev pub IsBound : Fields → String → String → Type 0
IsBound r commit_field finding_field =
    ((has r commit_field ≡ true)
      × (has r finding_field ≡ false)
      × (is_match commit_matches (r ! commit_field) ≡ true))
    ⊎ ((has r commit_field ≡ false)
        × (has r finding_field ≡ true)
        × (is_match is_ulid (r ! finding_field) ≡ true))

pub validate_binding-IsBound :
    (r : Fields) (record_type commit_field finding_field : String)
    → validate_binding r record_type commit_field finding_field ≡ pass
    → IsBound r commit_field finding_field
unfolding validate_binding
validate_binding-IsBound r record_type commit_field finding_field h = ground arith

-- None of the texts can add a line to rendered output or reorder it.
abbrev pub NoneForges : Runtime → List Text → Type 0
NoneForges rt ids = All (λ k. forges_rendered_text rt k ≡ false) ids

pub reject-clean :
    (rt : Runtime) (s : Text) (what : What)
    → reject_control_characters rt s what ≡ pass
    → forges_rendered_text rt s ≡ false
unfolding reject_control_characters
reject-clean rt s what h = ground arith

pub each-NoneForges :
    (rt : Runtime) (what : What) (ids : List Text)
    → each (λ k. reject_control_characters rt k what) ids ≡ pass
    → NoneForges rt ids
each-NoneForges rt what ids h =
    All-map ids (λ k. reject-clean rt k what)
      (each-ok (λ k. reject_control_characters rt k what) ids h)
