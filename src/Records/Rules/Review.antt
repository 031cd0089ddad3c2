-- ===== src/Records/Rules/Review.antt =====
-- src/agentmarshal/journal/records.py: the rules on review records.
use agentmarshal.Common.{
  is_empty, plain, labelled, keyed, within, refused, Check, pass, ◌>>◌, guard, each, Text, contains,
  contains_text, is_unique, is_disjoint, leb, if◌then◌else◌, ℕ, String, Bool, not, ◌&&◌, Option,
  some, List, [], ◌∷◌, ◌++◌,
}
use agentmarshal.Json.{Json, Fields, end, field, keys, values, ◌!◌, has, fields_of, is_dict}
use agentmarshal.Runtime.{Runtime}
use agentmarshal.Registry.{review}
use agentmarshal.Records.Schema.{is_type, schema_of}
use agentmarshal.Records.Forgeable.{
  reject_control_characters, is_non_empty, is_non_blank, is_one_of, is_match, reject_in, is_id_list,
  ids_of, refuse_outside, when,
}
use agentmarshal.Records.Patterns.{sha256_matches, is_ulid}
use agentmarshal.Records.Rules.Lifecycle.{validate_binding}
use agentmarshal.Records.Rules.Verification.{is_non_empty_dict, validate_verification}

abbrev pub review_verdicts : List String
review_verdicts = "approved" ∷ "changes_required" ∷ "blocked" ∷ "rejected" ∷ []

abbrev pub reviewer_fields : List String
reviewer_fields = "role" ∷ "vendor" ∷ "model" ∷ "email" ∷ []

abbrev pub reviewer_keys : ℕ → List String
reviewer_keys schema = if leb 7 schema then reviewer_fields ++ "actor" ∷ [] else reviewer_fields

unfoldable pub validate_reviewer : Fields → Check
validate_reviewer r =
    let reviewer = fields_of (r ! "reviewer") in
    do
      guard (is_dict (r ! "reviewer"))
          (refused (labelled "review record field" "reviewer") "must be an object")
      each
          (λ k.
            guard (is_non_empty (reviewer ! k))
              (refused (labelled "review record reviewer field" k) "must be a non-empty string"))
          reviewer_fields
      guard (is_match (contains b'@') (reviewer ! "email"))
          (refused (labelled "review record reviewer field" "email") "must contain '@'")
      refuse_outside (reviewer_keys (schema_of r)) reviewer
          (plain "review record field 'reviewer' must contain only")

-- `verdict == "approved"`
unfoldable pub is_approved : Fields → Bool
unfolding is_one_of ◌!◌
is_approved r = is_one_of ("approved" ∷ []) (r ! "verdict")

unfoldable pub findings_of : Fields → List Text
unfolding ids_of ◌!◌
findings_of r = ids_of (r ! "findings")

unfoldable pub advisory_of : Fields → List Text
unfolding ids_of ◌!◌
advisory_of r = ids_of (r ! "advisory_findings")

unfoldable pub validate_review_findings : Runtime → Fields → Check
validate_review_findings rt r = do
  guard (is_id_list (r ! "findings")) (
      refused (labelled "review record field" "findings")
        "must be an array of non-empty finding ids")
  each (λ k. reject_control_characters rt k (plain "review record finding id")) (findings_of r)
  guard (is_unique (findings_of r))
      (refused (plain "review record findings") "must have unique finding ids")
  guard (not (is_approved r && not (is_empty (findings_of r))))
      (refused (plain "approved review records") "must have no findings")
  guard (not (not (is_approved r) && is_empty (findings_of r)))
      (refused (plain "non-approved review records") "must have at least one finding id")

unfoldable pub validate_advisory_findings : Runtime → Fields → Check
validate_advisory_findings rt r = do
  guard (is_id_list (r ! "advisory_findings")) (
      refused (labelled "review record field" "advisory_findings")
        "must be an array of non-empty finding ids")
  each (λ k. reject_control_characters rt k (plain "review record advisory finding id"))
      (advisory_of r)
  guard (is_unique (advisory_of r))
      (refused (plain "review record advisory_findings") "must have unique finding ids")
  guard (is_disjoint (advisory_of r) (findings_of r))
      (refused (plain "review record findings and advisory_findings") "must be disjoint")

unfoldable pub validate_review_record : Runtime → Fields → Check
validate_review_record rt r = do
  validate_binding r "review" "reviewed_commit" "reviewed_finding"
  guard (is_one_of review_verdicts (r ! "verdict")) (
      refused (labelled "review record field" "verdict")
        "must be one of approved, changes_required, blocked, or rejected")
  validate_reviewer r
  validate_review_findings rt r
  when (has r "advisory_findings") (validate_advisory_findings rt r)
  when (has r "reviewed_contract") (
      guard (is_match sha256_matches (r ! "reviewed_contract")) (
        refused (labelled "review record field" "reviewed_contract")
          "must be exactly 64 lowercase hex characters"))

unfoldable pub check_review_record : Runtime → Fields → Check
check_review_record rt r = when (is_type review r) (validate_review_record rt r)

-- `named` of `_check_review_keyed_field`: the ids of the two lists of the record
unfoldable pub check_review_keyed_field : Fields → String → Fields → Check
unfolding each contains_text keys findings_of advisory_of
check_review_keyed_field r what keyed_fields =
    each
      (λ k. guard (contains_text k (findings_of r ++ advisory_of r)) (
        refused (within (keyed "review record key" k) what)
          "must name a finding id the record carries"))
      (keys keyed_fields)

unfoldable pub validate_classes : Runtime → Fields → Check
unfolding is_non_empty_dict fields_of check_review_keyed_field each is_non_blank reject_in values
    ◌!◌
validate_classes rt r =
    let classes = fields_of (r ! "classes") in
    do
      guard (is_non_empty_dict (r ! "classes")) (
          refused (labelled "review record field" "classes")
            "must be a non-empty object keyed by finding id")
      check_review_keyed_field r "classes" classes
      each
          (λ v.
            guard (is_non_blank rt (some v))
              (refused (plain "review record 'classes' value") "must be a non-empty string")
            >> reject_in rt (some v) (plain "review record 'classes' value"))
          (values classes)

-- `for finding_id, reference in evidence.items()`
each_reference : Runtime → Fields → Check
unfolding is_non_blank reject_in
each_reference rt end = pass
each_reference rt (field k v rest) =
    let what = keyed "review record 'evidence' key" k in
    do
      guard (is_non_blank rt (some v)) (refused what "must map to a non-empty string")
      reject_in rt (some v) what
      each_reference rt rest

unfoldable pub validate_evidence : Runtime → Fields → Check
unfolding is_non_empty_dict fields_of check_review_keyed_field each_reference ◌!◌
validate_evidence rt r =
    let evidence = fields_of (r ! "evidence") in
    do
      guard (is_non_empty_dict (r ! "evidence")) (
          refused (labelled "review record field" "evidence")
            "must be a non-empty object keyed by finding id")
      check_review_keyed_field r "evidence" evidence
      each_reference rt evidence

unfoldable pub validate_reviewer_actor : Runtime → Option Json → Check
unfolding is_non_blank reject_in
validate_reviewer_actor rt actor = do
  guard (is_non_blank rt actor)
      (refused (labelled "review record reviewer field" "actor") "must be a non-empty string")
  reject_in rt actor (labelled "review record reviewer field" "actor")

unfoldable pub check_review_fields_7 : Runtime → Fields → Check
check_review_fields_7 rt r = when (is_type review r) (do
  when (has r "previous_review") (
      guard (is_match is_ulid (r ! "previous_review")) (
        refused (labelled "review record field" "previous_review")
          "must be a 26-character Crockford base32 ULID"))
  when (has r "classes") (validate_classes rt r)
  when (has r "evidence") (validate_evidence rt r)
  when (has r "verification") (validate_verification rt (r ! "verification"))
  when (is_dict (r ! "reviewer") && has (fields_of (r ! "reviewer")) "actor")
      (validate_reviewer_actor rt (fields_of (r ! "reviewer") ! "actor")))
