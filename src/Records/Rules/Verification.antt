-- ===== src/Records/Rules/Verification.antt =====
-- src/agentmarshal/journal/records.py: the `verification` object of a review record.
use agentmarshal.Common.{
  is_empty, What, plain, labelled, keyed, within, item, refused, Check, pass, ◌>>◌, guard, each,
  Text, text, text_eq, if◌then◌else◌, ℕ, ◌+◌, String, Bool, true, false, not, ◌&&◌, Option, some,
  List, [], ◌∷◌,
}
use agentmarshal.Json.{Json, obj, Fields, end, field, ◌!◌, list_of, fields_of, is_list, is_dict}
use agentmarshal.Runtime.{Runtime}
use agentmarshal.Records.Forgeable.{is_non_blank, reject_in, refuse_outside, has_all}

abbrev pub verification_sections : List String
verification_sections = "executed" ∷ "not_run" ∷ "read" ∷ []

unfoldable pub check_verification_string : Runtime → Option Json → What → Check
unfolding is_non_blank reject_in
check_verification_string rt value what =
    guard (is_non_blank rt value) (refused what "must be a non-empty string")
    >> reject_in rt value what

-- `_VERIFICATION_ENTRY_KEYS[section]`; the caller has refused every other section but "read".
unfoldable pub entry_keys : Text → List String
unfolding text text_eq
entry_keys section =
    if text_eq section (text "executed") then "what" ∷ "result" ∷ [] else "what" ∷ "why" ∷ []

verification_entry : Runtime → List String → What → Json → Check
unfolding is_dict fields_of refuse_outside has_all each check_verification_string ◌!◌
verification_entry rt expected what entry =
    let fields = fields_of (some entry) in
    do
      guard (is_dict (some entry)) (refused what "must be an object")
      refuse_outside expected fields (within what "has unsupported fields:")
      guard (has_all fields expected) (refused what "must contain the section's two keys")
      each (λ k. check_verification_string rt (fields ! k) (within what k)) expected

-- `for index, item in enumerate(entries)`
each_at : (ℕ → Json → Check) → ℕ → List Json → Check
each_at f n [] = pass
each_at f n (x ∷ xs) = f n x >> each_at f (n + 1) xs

unfoldable pub validate_verification_section : Runtime → Text → Json → Check
unfolding is_list list_of is_empty each_at check_verification_string verification_entry entry_keys
    text text_eq
validate_verification_section rt section value =
    let what = keyed "review record 'verification' field" section in
    let entries = list_of (some value) in
    do
      guard (is_list (some value) && not (is_empty entries))
          (refused what "must be a non-empty array")
      if text_eq section (text "read")
          then each_at (λ n x. check_verification_string rt (some x) (item what "item" n)) 0 entries
          else each_at (λ n x. verification_entry rt (entry_keys section) (item what "entry" n) x) 0
              entries

-- `for section, entries in verification.items()`
each_section : Runtime → Fields → Check
unfolding validate_verification_section
each_section rt end = pass
each_section rt (field section value rest) =
    validate_verification_section rt section value >> each_section rt rest

unfoldable pub is_non_empty_dict : Option Json → Bool
is_non_empty_dict (some (obj (field k v f))) = true
is_non_empty_dict _ = false

unfoldable pub validate_verification : Runtime → Option Json → Check
unfolding is_non_empty_dict fields_of refuse_outside each_section
validate_verification rt value = do
  guard (is_non_empty_dict value) (
      refused (labelled "review record field" "verification")
        "must be a non-empty object carrying one or more of 'executed', 'read' and 'not_run'")
  refuse_outside verification_sections (fields_of value)
      (plain "review record 'verification' has unsupported fields:")
  each_section rt (fields_of value)
