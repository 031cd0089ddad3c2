-- ===== src/Examples/Journal.antt =====
-- src/agentmarshal/journal/records.py: the theorems on records at the sample records.
use agentmarshal.Common.{
  plain, Error, refused, unicode_encode_error, ok, err, pass, each, text, text_eq, ◌≤◌, ◌≡◌, refl,
  true, false, [], ◌∷◌, arith,
}
use agentmarshal.Json.{pos, int, Fields, end, ◌!◌, text_of}
use agentmarshal.Records.Schema.{schema_of}
use agentmarshal.Records.Rules.Placement.{RuleContext}
use agentmarshal.Records.Rules.Bounds.{check_bounded_text_bytes}
use agentmarshal.Records.Validate.{rules, applies, apply_rule, validate_record}
use agentmarshal.Records.Sound.{validate_record-IsAccepted, IsRefusedBy, read_refusal_is_own}
use agentmarshal.Records.ReadBack.{
  write_context, read_context, written_reads_back, content_reads_back,
}
use agentmarshal.Records.Accepted.{IsBound}
use agentmarshal.Records.Accepted.Review.{ReviewIsSound, accepted-ReviewIsSound}
use agentmarshal.Records.Accepted.Acceptance.{
  AcceptanceIsSound, accepted-AcceptanceIsSound, accepted_completion-IsBound,
}
use agentmarshal.Records.Builders.Stamp.{minimum_schema}
use agentmarshal.Records.Builders.Least.{stamp_is_least}
use agentmarshal.Records.Surrogates.{surrogate_excerpt_raises, short_excerpt_is_bounded}
use agentmarshal.Examples.Samples.{
  ◌⇒◌, ◌⨾◌, word, sample_review, sample_acceptance, sample_completion, simple, sample_findings,
  surrogate_check, ok_text, plain_check,
}
use agentmarshal.Examples.Checked.{
  samples_accepted, sample_types, surrogate_check_facts, plain_check_facts,
}
use agentmarshal.Registry.{named, is_registered_record_type}
use agentmarshal.Records.Rules.Envelope.{check_schema_version, is_known_type, check_record_type}

abbrev live_context : RuleContext
live_context = write_context (text "CR-1") (ok [])

written_reads_back_example :
    validate_record simple false
      (read_context (text "CR-1") (text_of (sample_review ! "record_type")))
      sample_review
    ≡ ok sample_review
written_reads_back_example =
    written_reads_back simple (text "CR-1") (ok []) sample_review samples_accepted.0

content_reads_back_example :
    validate_record simple false
      (read_context (text_of (sample_review ! "task")) (text "review"))
      sample_review
    ≡ ok sample_review
content_reads_back_example =
    content_reads_back simple (text "review") sample_review samples_accepted.1

accepted-ReviewIsSound_example : ReviewIsSound simple sample_review
accepted-ReviewIsSound_example =
    accepted-ReviewIsSound simple true live_context sample_review samples_accepted.0 sample_types.0

accepted-AcceptanceIsSound_example : AcceptanceIsSound simple sample_acceptance
accepted-AcceptanceIsSound_example =
    accepted-AcceptanceIsSound simple true live_context sample_acceptance samples_accepted.2
      sample_types.1

accepted_completion-IsBound_example :
    IsBound sample_completion "completed_commit" "completed_finding"
accepted_completion-IsBound_example =
    accepted_completion-IsBound simple true (write_context (text "CR-1") sample_findings)
      sample_completion samples_accepted.3 sample_types.2

stamp_is_least_example : minimum_schema sample_review ≤ schema_of sample_review
stamp_is_least_example =
    stamp_is_least simple live_context sample_review
      (validate_record-IsAccepted simple true live_context sample_review samples_accepted.0)
      (omega (arith, sample_types.3))

-- A record of no known type, where it is read.
abbrev untyped : Fields
untyped = "schema" ⇒ int (pos 1) ⨾ "record_type" ⇒ word "note" ⨾ end

abbrev untyped_error : Error
untyped_error = refused (plain "record") "has an unknown or missing record type"

untyped_is_refused :
    validate_record simple false (read_context (text "CR-1") (text "note")) untyped
    ≡ err untyped_error
unfolding validate_record agentmarshal.Records.Rules.Envelope.check_schema_version
    agentmarshal.Common.text_eq agentmarshal.Common.each agentmarshal.Records.Validate.rules
    agentmarshal.Records.Validate.apply_rule agentmarshal.Records.Validate.applies schema_of
    agentmarshal.Records.Rules.Envelope.check_record_type
    agentmarshal.Records.Rules.Envelope.is_known_type
    agentmarshal.Registry.is_registered_record_type agentmarshal.Registry.named
untyped_is_refused = refl

read_refusal_is_own_example :
    IsRefusedBy simple (read_context (text "CR-1") (text "note")) untyped untyped_error
read_refusal_is_own_example =
    read_refusal_is_own simple (read_context (text "CR-1") (text "note")) untyped untyped_error
      untyped_is_refused

surrogate_excerpt_raises_example :
    check_bounded_text_bytes surrogate_check ≡ err unicode_encode_error
surrogate_excerpt_raises_example =
    surrogate_excerpt_raises surrogate_check (0xd800 ∷ []) surrogate_check_facts.0
      surrogate_check_facts.1 surrogate_check_facts.2

short_excerpt_is_bounded_example : check_bounded_text_bytes plain_check ≡ pass
short_excerpt_is_bounded_example =
    short_excerpt_is_bounded plain_check ok_text plain_check_facts.0 plain_check_facts.1
      plain_check_facts.2 plain_check_facts.3
