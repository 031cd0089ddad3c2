-- ===== src/Records/Rules/Provenance.antt =====
-- src/agentmarshal/journal/records.py: provenance, artifact references and the recorder; and
-- `SOURCE_VALUES` of src/agentmarshal/journal/attestation.py.
use agentmarshal.Common.{
  plain, labelled, refused, Check, ◌>>◌, guard, each, leb, String, Bool, false, not, ◌&&◌, ◌||◌,
  Option, none, some, List, [], ◌∷◌,
}
use agentmarshal.Json.{Json, Fields, ◌!◌, has, list_of, fields_of, is_list, is_dict}
use agentmarshal.Runtime.{Runtime}
use agentmarshal.Registry.{RecordType, record_types}
use agentmarshal.Records.Schema.{record_type_of, schema_of}
use agentmarshal.Records.Forgeable.{is_non_empty, is_one_of, is_match, reject_in, has_exactly, when}
use agentmarshal.Records.Patterns.{sha256_matches}

abbrev pub source_values : List String
source_values = "imported-from-host" ∷ "live" ∷ []

validate_artifact : Json → Check
unfolding is_dict fields_of has_exactly is_non_empty is_match sha256_matches ◌!◌
validate_artifact artifact =
    let entry = fields_of (some artifact) in
    do
      guard (is_dict (some artifact) && has_exactly entry ("ref" ∷ "hash" ∷ []))
          (refused (plain "each artifact") "must contain only 'ref' and 'hash'")
      guard (is_non_empty (entry ! "ref"))
          (refused (labelled "artifact field" "ref") "must be a non-empty string")
      guard (is_match sha256_matches (entry ! "hash"))
          (refused (labelled "artifact field" "hash") "must be exactly 64 lowercase hex characters")

unfoldable pub validate_provenance : Fields → Check
unfolding is_one_of has is_list each list_of validate_artifact ◌!◌
validate_provenance r = do
  guard (is_one_of source_values (r ! "source"))
      (refused (labelled "record field" "source") "must be one of imported-from-host, live")
  when (has r "artifacts") (do
    guard (is_list (r ! "artifacts"))
        (refused (labelled "record field" "artifacts") "must be an array")
    each validate_artifact (list_of (r ! "artifacts")))

unfoldable pub check_provenance : Fields → Check
unfolding schema_of validate_provenance
check_provenance r = when (leb 2 (schema_of r)) (validate_provenance r)

-- An artifact that is no object has no `ref`, and neither has an `artifacts` that is no array.
unfoldable pub check_artifact_ref_text : Runtime → Fields → Check
unfolding each list_of fields_of reject_in ◌!◌
check_artifact_ref_text rt r =
    each
      (λ artifact.
        reject_in rt (fields_of (some artifact) ! "ref") (labelled "artifact field" "ref"))
      (list_of (r ! "artifacts"))

abbrev pub recorded_by_sources : List String
recorded_by_sources = "git-identity" ∷ "override" ∷ "project-actor" ∷ []

abbrev requires_recorder : Option RecordType → Bool
requires_recorder none = false
requires_recorder (some t) = (record_types t).requires_recorded_by

unfoldable pub check_recorded_by : Fields → Check
unfolding has record_type_of record_types is_non_empty is_one_of ◌!◌
check_recorded_by r = do
  guard
      (not (
        requires_recorder (record_type_of r)
        && not (has r "recorded_by" && has r "recorded_by_source")))
      (refused (plain "record")
        "requires a resolvable recorder in 'recorded_by' and 'recorded_by_source'")
  when (has r "recorded_by" || has r "recorded_by_source") (do
    guard (has r "recorded_by" && has r "recorded_by_source") (
        refused (plain "record fields 'recorded_by' and 'recorded_by_source'")
          "must appear together or not at all")
    guard (is_non_empty (r ! "recorded_by"))
        (refused (labelled "record field" "recorded_by") "must be a non-empty string")
    guard (is_one_of recorded_by_sources (r ! "recorded_by_source")) (
        refused (labelled "record field" "recorded_by_source")
          "must be one of git-identity, override, project-actor"))
