-- ===== src/Examples/Checked.antt =====
-- src/agentmarshal/journal/records.py: the model's validation, run on the sample records and files.
use agentmarshal.Common.{
  length, all, any, is_empty, every_below, ok, each, text, text_eq, contains, contains_text,
  starts_with, is_unique, is_disjoint, ◌≤◌, ◌≡◌, refl, true, false, none, some, [], ◌∷◌, arith,
}
use agentmarshal.Json.{
  pos, int, str, elements, keys, values, get, put, ◌!◌, has, text_of, list_of, fields_of, is_str,
  is_list, is_dict,
}
use agentmarshal.Registry.{
  review, acceptance, completed, check, record_types, name, named, same_type, same_state, includes,
  is_registered_record_type,
}
use agentmarshal.Records.Schema.{
  record_fields, schema_4_fields, covers_type, add_families, allowed_fields, record_type_of,
  is_type, schema_number, schema_of, has_any,
}
use agentmarshal.Records.Patterns.{
  in_range, is_digit, is_hex, hex_matches, commit_matches, sha256_matches, span, digits_match,
  drop_prefix, task_id_matches, amount_matches, currency_matches, first_in, is_ulid,
  record_kind_matches, take_text, drop_text, match_record_filename,
}
use agentmarshal.Records.Forgeable.{
  forges_character, forges_rendered_text, reject_control_characters, is_non_empty, strips_to_some,
  is_non_blank, is_one_of, is_match, reject_in, is_id_list, ids_of, keys_outside, refuse_outside,
  has_all, has_exactly,
}
use agentmarshal.Records.Rules.Envelope.{
  is_supported, check_schema_version, is_known_type, check_record_type, check_record_type_predicate,
  check_reviewed_contract, allowed_of, check_fields, check_required_strings, replace_z, is_utc,
  utc_timestamp, check_timestamp_text, check_created_at, check_tool_version,
}
use agentmarshal.Records.Rules.Lifecycle.{
  validate_binding, check_completed_record, validate_finding_record, check_finding_record,
  check_abandoned_record, check_reopened_record, check_amendment_record, check_check_schema,
  check_agreement_schema, check_acknowledgement_schema, check_ext_schema,
}
use agentmarshal.Records.Rules.Session.{
  check_session_fields, is_coordination, check_coordination, is_count, check_session_tokens,
  validate_session_usage, check_session_usage, validate_session_cost, optional_timestamp, in_order,
  is_bool, session_times, check_session_fields_7,
}
use agentmarshal.Records.Rules.Verification.{
  check_verification_string, entry_keys, validate_verification_section, is_non_empty_dict,
  validate_verification,
}
use agentmarshal.Records.Rules.Evidence.{
  check_contract_hash_7, check_check_fields_7, check_agreement_fields_7, is_position,
  check_acknowledgement_fields_7, check_payload_pin, canonical_json, check_ext_fields_7,
}
use agentmarshal.Records.Rules.Acceptance.{
  count_present, validate_acceptance_record, check_acceptance_record, is_component,
  validate_accepted_pause, is_true, check_acceptance_fields_7,
}
use agentmarshal.Records.Rules.Review.{
  validate_reviewer, is_approved, findings_of, advisory_of, validate_review_findings,
  validate_advisory_findings, validate_review_record, check_review_record, check_review_keyed_field,
  validate_classes, validate_evidence, validate_reviewer_actor, check_review_fields_7,
}
use agentmarshal.Records.Rules.Completed.{
  validate_disposition_entry, each_disposition, check_completed_fields_7,
}
use agentmarshal.Records.Rules.Provenance.{
  validate_provenance, check_provenance, check_artifact_ref_text, check_recorded_by,
}
use agentmarshal.Records.Rules.Placement.{
  check_finding_binding, matches_declared, check_task_placement, check_filename_record_type,
  bound_finding, check_finding_binding_target,
}
use agentmarshal.Records.Rules.Bounds.{
  utf8_width, utf8_length, check_text_limits, check_bounded_text, check_bounded_text_bytes,
  check_bounded_json, check_forgeable_text,
}
use agentmarshal.Records.Validate.{
  rules, lookup_bound, reaches, applies, apply_rule, is_writable, validate_record,
}
use agentmarshal.Records.ReadBack.{write_context, content_context}
use agentmarshal.Records.Files.{
  validate_task_id, matched_name, loaded_object, validate_record_content, with_id, read_record,
  read_each, read_records, ids_of_findings, finding_ids, with_recorder, is_identifier,
  validate_record_for_write,
}
use agentmarshal.Records.Surrogates.{is_surrogate}
use agentmarshal.Examples.Samples.{
  sample_review, sample_acceptance, sample_completion, sample_finding, review_file, finding_file,
  simple, sample_findings, Accepts, surrogate_check, ok_text, plain_check, finding_id,
  sample_origin, built_completion, built_abandonment,
}
use agentmarshal.Records.Builders.Stamp.{raise_to, has_reviewer_actor, minimum_schema}
use agentmarshal.Records.Builders.Create.{
  with_schema, with_optional, create_completed_record, create_abandoned_record,
}

pub samples_accepted :
    Accepts (write_context (text "CR-1") (ok [])) sample_review
    × Accepts (content_context (text "review")) sample_review
    × Accepts (write_context (text "CR-1") (ok [])) sample_acceptance
    × Accepts (write_context (text "CR-1") sample_findings) sample_completion
    × (validate_record_content simple review_file ≡ ok sample_review)
    × (validate_record_for_write simple none (text "CR-1") (finding_file ∷ []) none sample_review
        ≡ ok sample_review)
    × (validate_record_for_write simple none
          (text "CR-1")
          (finding_file ∷ [])
          none
          sample_completion
        ≡ ok sample_completion)
    × (read_records simple (text "CR-1") (finding_file ∷ [])
        ≡ ok (with_id (text "01ARZ3NDEKTSV4RRFFQ69G5FAV") sample_finding ∷ []))
    × (validate_record_for_write simple none (text "CR-1") (finding_file ∷ []) none built_completion
        ≡ ok built_completion)
    × Accepts (write_context (text "CR-1") (ok [])) (built_abandonment 7)
unfolding validate_record rules all any is_empty every_below each text text_eq contains
    contains_text starts_with is_unique is_disjoint elements keys values get put ◌!◌ has text_of
    list_of fields_of is_str is_list is_dict record_types name named same_type same_state includes
    is_registered_record_type record_fields covers_type add_families allowed_fields record_type_of
    is_type schema_number schema_of has_any in_range is_digit is_hex hex_matches commit_matches
    sha256_matches span digits_match drop_prefix task_id_matches amount_matches currency_matches
    first_in is_ulid record_kind_matches take_text drop_text match_record_filename forges_character
    forges_rendered_text reject_control_characters is_non_empty strips_to_some is_non_blank
    is_one_of is_match reject_in is_id_list ids_of keys_outside refuse_outside has_all has_exactly
    is_supported check_schema_version is_known_type check_record_type check_record_type_predicate
    check_reviewed_contract allowed_of check_fields check_required_strings replace_z is_utc
    utc_timestamp check_timestamp_text check_created_at check_tool_version validate_binding
    check_completed_record validate_finding_record check_finding_record check_abandoned_record
    check_reopened_record check_amendment_record check_check_schema check_agreement_schema
    check_acknowledgement_schema check_ext_schema check_session_fields is_coordination
    check_coordination is_count check_session_tokens validate_session_usage check_session_usage
    validate_session_cost optional_timestamp in_order is_bool session_times check_session_fields_7
    check_verification_string entry_keys validate_verification_section is_non_empty_dict
    validate_verification check_contract_hash_7 check_check_fields_7 check_agreement_fields_7
    is_position check_acknowledgement_fields_7 check_payload_pin canonical_json check_ext_fields_7
    count_present validate_acceptance_record check_acceptance_record is_component
    validate_accepted_pause is_true check_acceptance_fields_7 validate_reviewer is_approved
    findings_of advisory_of validate_review_findings validate_advisory_findings
    validate_review_record check_review_record check_review_keyed_field validate_classes
    validate_evidence validate_reviewer_actor check_review_fields_7 validate_disposition_entry
    each_disposition check_completed_fields_7 validate_provenance check_provenance
    check_artifact_ref_text check_recorded_by check_finding_binding matches_declared
    check_task_placement check_filename_record_type bound_finding check_finding_binding_target
    utf8_width utf8_length check_text_limits check_bounded_text check_bounded_text_bytes
    check_bounded_json check_forgeable_text lookup_bound reaches applies apply_rule is_writable
    validate_record_content matched_name loaded_object read_record read_each read_records
    validate_task_id ids_of_findings finding_ids with_recorder is_identifier
    validate_record_for_write
samples_accepted = (refl, refl, refl, refl, refl, refl, refl, refl, refl, refl)

pub sample_types :
    (is_type review sample_review ≡ true)
    × (is_type acceptance sample_acceptance ≡ true)
    × (is_type completed sample_completion ≡ true)
    × (schema_of sample_review ≡ 3)
    × (has_any sample_completion schema_4_fields ≡ true)
    × (match_record_filename review_file.file_name
        ≡ some (text "01ARZ3NDEKTSV4RRFFQ69G5FAW", text_of (sample_review ! "record_type")))
unfolding is_type record_type_of named name text text_eq same_type get ◌!◌ schema_of schema_number
    text_of has_any has any match_record_filename take_text drop_text is_ulid first_in all contains
    span is_empty
sample_types = (refl, refl, refl, refl, refl, refl)

pub surrogate_check_facts :
    (is_type check surrogate_check ≡ true)
    × (surrogate_check ! "excerpt" ≡ some (str (0xd800 ∷ [])))
    × (any is_surrogate (0xd800 ∷ []) ≡ true)
unfolding is_type record_type_of named name text text_eq same_type get ◌!◌ text_of any is_surrogate
surrogate_check_facts = (refl, refl, refl)

pub plain_check_facts :
    (is_type check plain_check ≡ true)
    × (plain_check ! "excerpt" ≡ some (str ok_text))
    × (any is_surrogate ok_text ≡ false)
    × (length ok_text ≤ 1024)
unfolding is_type record_type_of named name text text_eq same_type get ◌!◌ text_of any is_surrogate
plain_check_facts = (refl, refl, refl, omega arith)

pub built_facts :
    (create_abandoned_record sample_origin (text "done") ≡ built_abandonment 3)
    × (put (built_abandonment 3) (text "schema") (int (pos 7)) ≡ built_abandonment 7)
    × (create_completed_record sample_origin none (some finding_id) none ≡ ok built_completion)
unfolding create_abandoned_record create_completed_record with_schema with_optional put text text_eq
    minimum_schema name agentmarshal.Records.Builders.Stamp.raise_to is_type record_type_of named
    text_of ◌!◌ same_type agentmarshal.Records.Builders.Stamp.has_reviewer_actor has_any
    is_coordination
built_facts = (refl, refl, refl)
