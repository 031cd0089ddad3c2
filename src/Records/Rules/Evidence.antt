-- ===== src/Records/Rules/Evidence.antt =====
-- src/agentmarshal/journal/records.py: the rules on the contract hash and on check, agreement,
-- acknowledgement and ext records; and the ids of `_LEAK_PATTERNS` in
-- src/agentmarshal/journal/capture.py.
use agentmarshal.Common.{
  plain, labelled, refused, err, Check, ◌>>◌, guard, each, Text, text_eq, if◌then◌else◌, ℕ, suc,
  String, Bool, true, false, not, Option, none, some, List, [], ◌∷◌,
}
use agentmarshal.Json.{pos, Json, int, Fields, ◌!◌, has, text_of}
use agentmarshal.Runtime.{Runtime}
use agentmarshal.Registry.{check, agreement, acknowledgement, ext}
use agentmarshal.Records.Schema.{is_type}
use agentmarshal.Records.Forgeable.{is_non_blank, is_one_of, is_match, when}
use agentmarshal.Records.Patterns.{commit_matches, sha256_matches, record_kind_matches}

unfoldable pub check_contract_hash_7 : Fields → Check
unfolding has is_match sha256_matches ◌!◌
check_contract_hash_7 r = when (has r "contract") (
    guard (is_match sha256_matches (r ! "contract"))
      (refused (labelled "record field" "contract") "must be exactly 64 lowercase hex characters"))

abbrev check_results : List String
check_results = "error" ∷ "failed" ∷ "passed" ∷ "skipped" ∷ []

unfoldable pub check_check_fields_7 : Runtime → Fields → Check
unfolding is_type is_match commit_matches is_non_blank is_one_of each has ◌!◌
check_check_fields_7 rt r = when (is_type check r) (do
  guard (is_match commit_matches (r ! "commit")) (
      refused (labelled "check record field" "commit")
        "must be exactly 40 lowercase hex characters")
  guard (is_non_blank rt (r ! "name"))
      (refused (labelled "check record field" "name") "must be a non-empty string")
  guard (is_one_of check_results (r ! "result")) (
      refused (labelled "check record field" "result")
        "must be one of error, failed, passed, skipped")
  each
      (λ k. when (has r k) (
        guard (is_non_blank rt (r ! k))
          (refused (labelled "check record field" k) "must be a non-empty string")))
      ("failed_step" ∷ "excerpt" ∷ "run_url" ∷ []))

unfoldable pub check_agreement_fields_7 : Fields → Check
unfolding is_type has
check_agreement_fields_7 r = when (is_type agreement r) (
    guard (has r "contract")
      (refused (plain "agreement record") "must carry 'contract' — the hash agreed with"))

abbrev pub leak_signature_ids : List String
leak_signature_ids =
    "private-key-block" ∷ "aws-access-key-id" ∷ "github-token" ∷ "github-pat" ∷ "gitlab-token"
    ∷ "slack-token" ∷ "google-api-key" ∷ "openai-key" ∷ "authorization-header" ∷ []

-- `type(marker) is int and marker >= 1`
unfoldable pub is_position : Option Json → Bool
is_position (some (int (pos (suc n)))) = true
is_position _ = false

unfoldable pub check_acknowledgement_fields_7 : Runtime → Fields → Check
unfolding is_type is_match commit_matches is_non_blank has is_one_of is_position ◌!◌
check_acknowledgement_fields_7 rt r = when (is_type acknowledgement r) (do
  guard (is_match commit_matches (r ! "commit")) (
      refused (labelled "acknowledgement record field" "commit")
        "must be exactly 40 lowercase hex characters")
  guard (is_non_blank rt (r ! "file"))
      (refused (labelled "acknowledgement record field" "file") "must be a non-empty string")
  guard (if has r "signature" then not (has r "marker") else has r "marker")
      (refused (plain "acknowledgement record") "must name exactly one of 'signature' or 'marker'")
  if has r "signature"
      then guard (is_one_of leak_signature_ids (r ! "signature")) (
          refused (labelled "acknowledgement record field" "signature")
            "must be one of the leak-scan signature ids")
      else guard (is_position (r ! "marker")) (
          refused (labelled "acknowledgement record field" "marker")
            "must be an integer of at least 1")
  guard (is_non_blank rt (r ! "reason"))
      (refused (labelled "acknowledgement record field" "reason") "must be a non-empty string"))

-- The pin on the payload: `canonical = none` is the `TypeError` or `ValueError` of the encoder.
unfoldable pub check_payload_pin : Runtime → Option (List ℕ) → Text → Check
unfolding text_eq
check_payload_pin rt none declared =
    err (refused (labelled "ext record field" "payload") "must be a JSON value")
check_payload_pin rt (some canonical) declared = guard (text_eq (rt.sha256 canonical) declared) (
    refused (labelled "ext record field" "payload_sha256")
      "must be the sha256 of the payload's canonical form")

-- `_canonical_json(data["payload"])`; the presence of the payload has been checked.
unfoldable pub canonical_json : Runtime → Option Json → Option (List ℕ)
canonical_json rt none = none
canonical_json rt (some v) = rt.canonical_dumps v

unfoldable pub check_ext_fields_7 : Runtime → Fields → Check
unfolding is_type is_match record_kind_matches commit_matches has sha256_matches check_payload_pin
    canonical_json text_of ◌!◌
check_ext_fields_7 rt r = when (is_type ext r) (do
  guard (is_match (record_kind_matches rt) (r ! "kind"))
      (refused (labelled "ext record field" "kind") "must be of the form '<name>/<kind>@<version>'")
  guard (is_match commit_matches (r ! "commit"))
      (refused (labelled "ext record field" "commit") "must be exactly 40 lowercase hex characters")
  guard (has r "payload") (refused (plain "ext record") "must carry 'payload'")
  guard (is_match sha256_matches (r ! "payload_sha256")) (
      refused (labelled "ext record field" "payload_sha256")
        "must be exactly 64 lowercase hex characters")
  check_payload_pin rt (canonical_json rt (r ! "payload")) (text_of (r ! "payload_sha256")))
