-- ===== src/Records/Rules/Acceptance.antt =====
-- src/agentmarshal/journal/records.py: the rules on acceptance records.
use agentmarshal.Common.{
  any, is_empty, plain, labelled, refused, Check, ◌>>◌, guard, each, Text, text, text_eq, contains,
  contains_text, is_unique, ◌==◌, if◌then◌else◌, ℕ, suc, String, Bool, false, not, ◌&&◌, Option,
  some, List, [], ◌∷◌,
}
use agentmarshal.Json.{Json, bool, Fields, ◌!◌, has, fields_of, is_str, is_dict}
use agentmarshal.Runtime.{Runtime}
use agentmarshal.Registry.{acceptance}
use agentmarshal.Records.Schema.{schema_7_acceptance_fields, is_type, has_any}
use agentmarshal.Records.Forgeable.{
  reject_control_characters, is_non_blank, is_match, reject_in, is_id_list, ids_of, has_exactly,
  when,
}
use agentmarshal.Records.Rules.Lifecycle.{validate_binding}

abbrev pub acceptance_forms : List String
acceptance_forms = "findings" ∷ "accepted_pause" ∷ "operational" ∷ []

-- `len(data.keys() & fields)`, for names that differ
unfoldable pub count_present : Fields → List String → ℕ
unfolding has
count_present r [] = 0
count_present r (k ∷ ks) = let rest = count_present r ks in if has r k then suc rest else rest

abbrev pub accepted_findings : Runtime → Fields → Check
accepted_findings rt r = do
  guard (is_id_list (r ! "findings") && not (is_empty (ids_of (r ! "findings")))) (
      refused (labelled "acceptance record field" "findings")
        "must be a non-empty array of finding ids")
  each (λ k. reject_control_characters rt k (plain "acceptance record finding id"))
      (ids_of (r ! "findings"))
  guard (is_unique (ids_of (r ! "findings")))
      (refused (plain "acceptance record findings") "must have unique finding ids")

unfoldable pub validate_acceptance_record : Runtime → Fields → Check
validate_acceptance_record rt r = do
  validate_binding r "acceptance" "accepted_commit" "accepted_finding"
  each
      (λ k.
        guard (is_non_blank rt (r ! k))
          (refused (labelled "acceptance record field" k) "must be a non-empty string")
        >> reject_in rt (r ! k) (labelled "acceptance record field" k))
      ("accepted_by" ∷ "reason" ∷ [])
  guard (count_present r acceptance_forms == 1) (
      refused (plain "acceptance record")
        "must name exactly one of 'findings', 'accepted_pause' or 'operational'")
  when (has r "findings") (accepted_findings rt r)

unfoldable pub check_acceptance_record : Runtime → Fields → Check
check_acceptance_record rt r = when (is_type acceptance r) (validate_acceptance_record rt r)

-- one path component: non-empty, neither `.` nor `..`, and without `/` and `\`
unfoldable pub is_component : Text → Bool
unfolding is_empty contains_text contains text text_eq any
is_component s =
    not (is_empty s)
    && not (contains_text s (text "." ∷ text ".." ∷ []))
    && not (contains 47 s)
    && not (contains 92 s)

unfoldable pub validate_accepted_pause : Runtime → Option Json → Check
unfolding is_dict fields_of has_exactly is_str reject_in is_match is_component ◌!◌
validate_accepted_pause rt value =
    let extension = fields_of value ! "extension" in
    do
      guard (is_dict value && has_exactly (fields_of value) ("extension" ∷ [])) (
          refused (labelled "acceptance record field" "accepted_pause")
            "must be an object carrying only 'extension'")
      guard (is_str extension) (
          refused (plain "acceptance record 'accepted_pause' field 'extension'") "must be a string")
      reject_in rt extension (plain "acceptance record 'accepted_pause' field 'extension'")
      guard (is_match is_component extension) (
          refused (plain "acceptance record 'accepted_pause' field 'extension'")
            "must be one non-empty path component")

-- `data["operational"] is True`
unfoldable pub is_true : Option Json → Bool
is_true (some (bool b)) = b
is_true _ = false

unfoldable pub check_acceptance_fields_7 : Runtime → Fields → Check
unfolding is_type has_any has validate_accepted_pause is_true ◌!◌
check_acceptance_fields_7 rt r =
    when (is_type acceptance r && has_any r schema_7_acceptance_fields) (do
      guard (not (has r "accepted_finding")) (
          refused (plain "acceptance record field")
            "binds by 'accepted_commit', never 'accepted_finding'")
      when (has r "accepted_pause") (validate_accepted_pause rt (r ! "accepted_pause"))
      when (has r "operational") (
          guard (is_true (r ! "operational"))
            (refused (labelled "acceptance record field" "operational") "must be true")))
