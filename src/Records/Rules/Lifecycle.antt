-- ===== src/Records/Rules/Lifecycle.antt =====
-- src/agentmarshal/journal/records.py: the rules on completed, finding, abandoned, reopened and
-- amendment records, `_validate_binding`, and the schema gates of the schema-7 record types.
use agentmarshal.Common.{
  is_empty, plain, labelled, refused, err, Check, ◌>>◌, guard, each, ltb, if◌then◌else◌, String,
  not, ◌&&◌, some,
}
use agentmarshal.Json.{Json, Fields, ◌!◌, has, list_of, fields_of, is_list}
use agentmarshal.Runtime.{Runtime}
use agentmarshal.Registry.{
  RecordType, completed, abandoned, reopened, amendment, finding, check, agreement, acknowledgement,
  ext,
}
use agentmarshal.Records.Schema.{is_type, schema_of}
use agentmarshal.Records.Forgeable.{is_non_empty, is_non_blank, is_match, reject_in, when}
use agentmarshal.Records.Patterns.{commit_matches, is_ulid}

unfoldable pub validate_binding : Fields → String → String → String → Check
validate_binding r record_type commit_field finding_field =
    if has r commit_field
    then (if has r finding_field
        then err (refused (labelled record_type commit_field) "must name exactly one binding")
        else guard (is_match commit_matches (r ! commit_field)) (
            refused (labelled record_type commit_field)
              "must be exactly 40 lowercase hex characters"))
    else if has r finding_field
    then guard (is_match is_ulid (r ! finding_field)) (
        refused (labelled record_type finding_field) "must be a 26-character Crockford base32 ULID")
    else err (refused (labelled record_type commit_field) "must name exactly one binding")

unfoldable pub check_completed_record : Fields → Check
check_completed_record r =
    when (is_type completed r)
      (validate_binding r "completed" "completed_commit" "completed_finding")

finding_artifact : Runtime → Json → Check
unfolding fields_of reject_in ◌!◌
finding_artifact rt artifact =
    reject_in rt (fields_of (some artifact) ! "ref") (plain "finding record artifact 'ref'")

unfoldable pub validate_finding_record : Runtime → Fields → Check
unfolding is_non_blank reject_in is_list list_of is_empty each finding_artifact ◌!◌
validate_finding_record rt r = do
  guard (is_non_blank rt (r ! "summary"))
      (refused (labelled "finding record field" "summary") "must be a non-empty string")
  reject_in rt (r ! "summary") (labelled "finding record field" "summary")
  guard (is_list (r ! "artifacts") && not (is_empty (list_of (r ! "artifacts"))))
      (refused (labelled "finding record field" "artifacts") "must be a non-empty array")
  each (finding_artifact rt) (list_of (r ! "artifacts"))

unfoldable pub check_finding_record : Runtime → Fields → Check
check_finding_record rt r = when (is_type finding r) (validate_finding_record rt r)

unfoldable pub check_abandoned_record : Fields → Check
unfolding is_type is_non_empty ◌!◌
check_abandoned_record r = when (is_type abandoned r) (
    guard (is_non_empty (r ! "reason"))
      (refused (labelled "abandoned record field" "reason") "must be a non-empty string"))

unfoldable pub check_reopened_record : Runtime → Fields → Check
unfolding is_type is_non_blank ◌!◌
check_reopened_record rt r = when (is_type reopened r) (
    guard (is_non_blank rt (r ! "reason"))
      (refused (labelled "reopened record field" "reason") "must be a non-empty string"))

unfoldable pub check_amendment_record : Runtime → Fields → Check
unfolding is_type is_non_blank ◌!◌
check_amendment_record rt r = when (is_type amendment r) (
    guard (is_non_blank rt (r ! "reason"))
      (refused (labelled "amendment record field" "reason") "must be a non-empty string"))

requires_schema_7 : RecordType → String → Fields → Check
unfolding is_type schema_of
requires_schema_7 t what r =
    guard (not (is_type t r && ltb (schema_of r) 7)) (refused (plain what) "require schema 7")

unfoldable pub check_check_schema : Fields → Check
unfolding requires_schema_7
check_check_schema r = requires_schema_7 check "check records" r

unfoldable pub check_agreement_schema : Fields → Check
unfolding requires_schema_7
check_agreement_schema r = requires_schema_7 agreement "agreement records" r

unfoldable pub check_acknowledgement_schema : Fields → Check
unfolding requires_schema_7
check_acknowledgement_schema r = requires_schema_7 acknowledgement "acknowledgement records" r

unfoldable pub check_ext_schema : Fields → Check
unfolding requires_schema_7
check_ext_schema r = requires_schema_7 ext "ext records" r
