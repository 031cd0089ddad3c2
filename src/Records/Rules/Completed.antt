-- ===== src/Records/Rules/Completed.antt =====
-- src/agentmarshal/journal/records.py: the advisory dispositions of a completed record.
use agentmarshal.Common.{
  is_empty, What, labelled, keyed, within, refused, Check, pass, ◌>>◌, guard, Text, if◌then◌else◌,
  String, not, ◌&&◌, some, List, [], ◌∷◌,
}
use agentmarshal.Json.{Json, Fields, end, field, ◌!◌, has, fields_of, is_str, is_dict}
use agentmarshal.Runtime.{Runtime}
use agentmarshal.Registry.{completed}
use agentmarshal.Records.Schema.{is_type}
use agentmarshal.Records.Forgeable.{
  reject_control_characters, is_non_blank, is_one_of, is_match, reject_in, refuse_outside, when,
}
use agentmarshal.Records.Patterns.{task_id_matches}
use agentmarshal.Records.Rules.Verification.{is_non_empty_dict}

abbrev dispositions : List String
dispositions = "deferred" ∷ "fixed" ∷ "rejected" ∷ []

abbrev disposition_keys : List String
disposition_keys = "disposition" ∷ "reason" ∷ "follow_up" ∷ []

abbrev reason_required_dispositions : List String
reason_required_dispositions = "deferred" ∷ "rejected" ∷ []

disposition_reason : Runtime → What → Fields → Check
unfolding has is_non_blank reject_in is_one_of ◌!◌
disposition_reason rt what entry =
    if has entry "reason"
    then (guard (is_non_blank rt (entry ! "reason"))
          (refused (within what "field 'reason'") "must be a non-empty string")
        >> reject_in rt (entry ! "reason") (within what "field 'reason'"))
    else guard (not (is_one_of reason_required_dispositions (entry ! "disposition")))
        (refused (within what "field 'reason'") "is required on 'deferred' and 'rejected'")

disposition_follow_up : Runtime → What → Fields → Check
unfolding is_one_of is_str reject_in is_match task_id_matches ◌!◌
disposition_follow_up rt what entry = do
  guard (is_one_of ("deferred" ∷ []) (entry ! "disposition"))
      (refused (within what "field 'follow_up'") "is admitted on 'deferred' alone")
  guard (is_str (entry ! "follow_up"))
      (refused (within what "field 'follow_up'") "must be a task id matching CR-<number>")
  reject_in rt (entry ! "follow_up") (within what "field 'follow_up'")
  guard (is_match task_id_matches (entry ! "follow_up"))
      (refused (within what "field 'follow_up'") "must be a task id matching CR-<number>")

unfoldable pub validate_disposition_entry : Runtime → Text → Json → Check
unfolding is_empty reject_control_characters is_dict fields_of refuse_outside is_one_of
    disposition_reason has disposition_follow_up ◌!◌
validate_disposition_entry rt finding_id value =
    let what = keyed "completed record 'advisory_dispositions' entry" finding_id in
    let key = keyed "completed record 'advisory_dispositions' key" finding_id in
    let entry = fields_of (some value) in
    do
      guard (not (is_empty finding_id)) (refused key "must be a non-empty finding id")
      reject_control_characters rt finding_id key
      guard (is_dict (some value)) (refused what "must be an object")
      refuse_outside disposition_keys entry (within what "has unsupported fields:")
      guard (is_one_of dispositions (entry ! "disposition"))
          (refused (within what "field 'disposition'") "must be one of deferred, fixed, rejected")
      disposition_reason rt what entry
      when (has entry "follow_up") (disposition_follow_up rt what entry)

-- `for finding_id, entry in dispositions.items()`
unfoldable pub each_disposition : Runtime → Fields → Check
unfolding validate_disposition_entry
each_disposition rt end = pass
each_disposition rt (field finding_id value rest) =
    validate_disposition_entry rt finding_id value >> each_disposition rt rest

unfoldable pub check_completed_fields_7 : Runtime → Fields → Check
unfolding is_type has is_non_empty_dict fields_of each_disposition ◌!◌
check_completed_fields_7 rt r = when (is_type completed r && has r "advisory_dispositions") (do
  guard (not (has r "completed_finding")) (
      refused (labelled "completed record field" "advisory_dispositions")
        "binds by 'completed_commit', never 'completed_finding'")
  guard (is_non_empty_dict (r ! "advisory_dispositions")) (
      refused (labelled "completed record field" "advisory_dispositions")
        "must be a non-empty object keyed by finding id")
  each_disposition rt (fields_of (r ! "advisory_dispositions")))
