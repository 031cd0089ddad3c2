-- ===== src/Records/Builders/Evidence.antt =====
-- src/agentmarshal/journal/records.py: the functions `create_…_record` that build the evidence records:
-- sessions, reviews, acceptances, checks, acknowledgements and records of extensions.
use agentmarshal.Common.{
  plain, labelled, refused, Result, ok, err, guard, ◌>>◌, Text, text, ◌==◌, ℕ, ◌+◌, Bool, true,
  false, not, ◌&&◌, ◌||◌, Option, none, some, List,
}
use agentmarshal.Json.{ℤ, Json, null, bool, int, str, arr, obj, Items, nil, cons, Fields, end, put}
use agentmarshal.Runtime.{Runtime}
use agentmarshal.Registry.{review, acceptance, session, check, acknowledgement, ext, name}
use agentmarshal.Records.Rules.Evidence.{canonical_json}
use agentmarshal.Records.Builders.Create.{
  Origin, with_schema, with_optional, entry, opening_fields, source_field, str_option, texts,
  objects, is_given, both_or_neither, binding_field,
}

-- The keyword arguments of `create_session_record` that may be left out; `usage` holds the provider
-- and the method.
pub record SessionExtras : Type 0 where
  pub usage_provider : Option Text
  pub usage_method : Option Text
  pub commit : Option Text
  pub model : Option Text
  pub trace : Option Text
  pub cli_session : Option Text
  pub report_ready : Option Bool
  pub fallback_reason : Option Text
  pub started_at : Option Text
  pub ended_at : Option Text
  pub resets_at : Option Text
  pub cost : Option Fields

pub record Session : Type 0 where
  pub role : Text
  pub actor : Text
  pub activity : Text
  pub outcome : Text
  pub input_tokens : ℤ
  pub output_tokens : ℤ
  pub cache_tokens : ℤ

abbrev bool_option : Option Bool → Option Json
bool_option none = none
bool_option (some b) = some (bool b)

abbrev fields_option : Option Fields → Option Json
fields_option none = none
fields_option (some r) = some (obj r)

abbrev usage_of : Option Text → Option Text → Option Json
usage_of none method = none
usage_of (some provider) none = none
usage_of (some provider) (some method) =
    some (obj (entry "provider" (str provider) (entry "method" (str method) end)))

abbrev tokens_of : Session → Fields
tokens_of s =
    entry "input" (int s.input_tokens)
      (entry "output" (int s.output_tokens) (entry "cache" (int s.cache_tokens) end))

session_fields : Origin → Session → Fields
session_fields o s = opening_fields session o (
    entry "role" (str s.role) (
      entry "actor" (str s.actor) (
        entry "activity" (str s.activity)
          (entry "outcome" (str s.outcome) (entry "tokens" (obj (tokens_of s)) (source_field o))))))

session_family : SessionExtras → Fields → Fields
session_family e r =
    let r1 = with_optional "commit" (str_option e.commit) r in
    let r2 = with_optional "model" (str_option e.model) r1 in
    let r3 = with_optional "trace" (str_option e.trace) r2 in
    let r4 = with_optional "cli_session" (str_option e.cli_session) r3 in
    let r5 = with_optional "report_ready" (bool_option e.report_ready) r4 in
    let r6 = with_optional "fallback_reason" (str_option e.fallback_reason) r5 in
    let r7 = with_optional "started_at" (str_option e.started_at) r6 in
    let r8 = with_optional "ended_at" (str_option e.ended_at) r7 in
    let r9 = with_optional "resets_at" (str_option e.resets_at) r8 in
    with_optional "cost" (fields_option e.cost) r9

unfoldable pub create_session_record : Origin → Session → SessionExtras → Result Fields
unfolding session_fields session_family
create_session_record o s e = do
  guard (both_or_neither e.usage_provider e.usage_method)
      (refused (plain "session record argument") "is required when its pair is supplied")
  ok (
      with_schema (
        session_family e
          (with_optional "usage" (usage_of e.usage_provider e.usage_method) (session_fields o s))))

pub record Reviewer : Type 0 where
  pub role : Text
  pub vendor : Text
  pub model : Text
  pub email : Text
  pub actor : Option Text

pub record ReviewExtras : Type 0 where
  pub reviewed_contract : Option Text
  pub advisory_findings : List Text
  pub artifacts : List Fields
  pub previous_review : Option Text
  pub classes : Option Fields
  pub verification : Option Fields
  pub evidence : Option Fields

-- `if values: record[name] = values`, for an argument whose default is as if empty
abbrev given_items : Items → Option Json
given_items nil = none
given_items (cons x xs) = some (arr (cons x xs))

reviewer_object : Reviewer → Fields
reviewer_object v = with_optional "actor" (str_option v.actor) (
    entry "role" (str v.role) (
      entry "vendor" (str v.vendor)
        (entry "model" (str v.model) (entry "email" (str v.email) end))))

review_fields : Origin → Text → Reviewer → List Text → Fields
unfolding reviewer_object
review_fields o verdict v findings = opening_fields review o (
    entry "verdict" (str verdict) (
      entry "reviewer" (obj (reviewer_object v))
        (entry "findings" (arr (texts findings)) (source_field o))))

review_family : ReviewExtras → Fields → Fields
review_family e r =
    let r1 = with_optional "reviewed_contract" (str_option e.reviewed_contract) r in
    let r2 = with_optional "advisory_findings" (given_items (texts e.advisory_findings)) r1 in
    let r3 = with_optional "artifacts" (given_items (objects e.artifacts)) r2 in
    let r4 = with_optional "previous_review" (str_option e.previous_review) r3 in
    let r5 = with_optional "classes" (fields_option e.classes) r4 in
    let r6 = with_optional "verification" (fields_option e.verification) r5 in
    with_optional "evidence" (fields_option e.evidence) r6

unfoldable pub create_review_record :
    Origin → Option Text → Option Text → Text → Reviewer → List Text → ReviewExtras → Result Fields
unfolding review_fields review_family
create_review_record o commit id verdict v findings e = do
  guard (not (both_or_neither commit id)) (
      refused (plain "review record")
        "must name exactly one of 'reviewed_commit' or 'reviewed_finding'")
  ok (
      with_schema (
        review_family e (
          binding_field "reviewed_finding" id "reviewed_commit" commit
            (review_fields o verdict v findings))))

abbrev count : Bool → ℕ
count true = 1
count false = 0

abbrev acceptance_form : Option (List Text) → Option Text → Fields → Fields
acceptance_form (some findings) pause r = put r (text "findings") (arr (texts findings))
acceptance_form none (some pause) r =
    put r (text "accepted_pause") (obj (entry "extension" (str pause) end))
acceptance_form none none r = put r (text "operational") (bool true)

unfoldable pub create_acceptance_record :
    Origin
    → Option Text
    → Option Text
    → Text
    → Text
    → Option (List Text)
    → Option Text
    → Bool
    → Result Fields
create_acceptance_record o commit id accepted_by reason findings pause operational = do
  guard (not (both_or_neither commit id)) (
      refused (plain "acceptance record")
        "must name exactly one of 'accepted_commit' or 'accepted_finding'")
  guard (count (is_given findings) + count (is_given pause) + count operational == 1) (
      refused (plain "acceptance record")
        "must name exactly one of 'findings', 'accepted_pause' or 'operational'")
  guard (not (is_given id && (is_given pause || operational))) (
      refused (plain "acceptance record fields 'accepted_pause' and 'operational'")
        "bind by 'accepted_commit', never 'accepted_finding'")
  ok (
      with_schema (
        binding_field "accepted_finding" id "accepted_commit" commit (
          acceptance_form findings pause (
            opening_fields acceptance o (
              entry "accepted_by" (str accepted_by)
                (entry "reason" (str reason) (source_field o)))))))

unfoldable pub create_check_record :
    Origin → Text → Text → Text → Option Text → Option Text → Option Text → Fields
create_check_record o commit name result failed_step excerpt run_url =
    let r = opening_fields check o (
      entry "commit" (str commit)
        (entry "name" (str name) (entry "result" (str result) (source_field o)))) in
    let r1 = with_optional "failed_step" (str_option failed_step) r in
    let r2 = with_optional "excerpt" (str_option excerpt) r1 in
    with_schema (with_optional "run_url" (str_option run_url) r2)

abbrev hit_field : Option Text → Option ℤ → Fields → Fields
hit_field (some signature) marker r = put r (text "signature") (str signature)
hit_field none none r = put r (text "marker") null
hit_field none (some marker) r = put r (text "marker") (int marker)

unfoldable pub create_acknowledgement_record :
    Origin → Text → Text → Text → Option Text → Option ℤ → Result Fields
create_acknowledgement_record o commit file reason signature marker = do
  guard (not (both_or_neither signature marker))
      (refused (plain "acknowledgement record") "must name exactly one of 'signature' or 'marker'")
  ok (
      with_schema (
        hit_field signature marker (
          opening_fields acknowledgement o (
            entry "commit" (str commit)
              (entry "file" (str file) (entry "reason" (str reason) (source_field o)))))))

unfoldable pub pinned : Runtime → Option (List ℕ) → Origin → Text → Text → Json → Result Fields
pinned rt none o kind commit payload =
    err (refused (labelled "ext record field" "payload") "must be a JSON value")
pinned rt (some canonical) o kind commit payload = ok (
    with_schema (
      opening_fields ext o (
        entry "kind" (str kind) (
          entry "commit" (str commit) (
            entry "payload" payload
              (entry "payload_sha256" (str (rt.sha256 canonical)) (source_field o)))))))

unfoldable pub create_ext_record : Runtime → Origin → Text → Text → Json → Result Fields
unfolding pinned
create_ext_record rt o kind commit payload =
    pinned rt (canonical_json rt (some payload)) o kind commit payload
