-- ===== src/Contracts/Scope.antt =====
-- src/agentmarshal/journal/contracts.py: `validate_scope_entry` and `scope_covers`.
use agentmarshal.Common.{
  any, is_empty, What, keyed, contract_refused, Check, guard, ◌>>◌, each, Text, text, text_eq,
  contains, contains_text, starts_with, ◌==◌, if◌then◌else◌, ℕ, String, Bool, false, not, ◌&&◌,
  ◌||◌, List, [], ◌∷◌,
}
use agentmarshal.Runtime.{Runtime}
use agentmarshal.Records.Forgeable.{forges_rendered_text}

-- `entry.endswith("/")`
unfoldable pub ends_with_slash : Text → Bool
ends_with_slash [] = false
ends_with_slash (c ∷ []) = c == b'/'
ends_with_slash (c ∷ d ∷ s) = ends_with_slash (d ∷ s)

-- `entry.rstrip("/")`
unfoldable pub rstrip_slash : Text → Text
rstrip_slash [] = []
rstrip_slash (c ∷ s) =
    let rest = rstrip_slash s in if (c == b'/') && is_empty rest then [] else c ∷ rest

abbrev add_to_first : ℕ → List Text → List Text
add_to_first c [] = (c ∷ []) ∷ []
add_to_first c (part ∷ parts) = (c ∷ part) ∷ parts

-- `entry.split("/")`
unfoldable pub split_slash : Text → List Text
split_slash [] = [] ∷ []
split_slash (c ∷ s) =
    let rest = split_slash s in if c == b'/' then [] ∷ rest else add_to_first c rest

unfoldable pub reject_control_characters : Runtime → Text → What → Check
reject_control_characters rt value what =
    guard (not (forges_rendered_text rt value))
      (contract_refused what "must not contain control characters")

abbrev pub metacharacters : List ℕ
metacharacters = b'*' ∷ b'?' ∷ b'[' ∷ []

unfoldable pub has_dot_part : Text → Bool
has_dot_part entry =
    any (λ part. contains_text part (text "." ∷ text ".." ∷ [])) (split_slash entry)

unfoldable pub validate_scope_entry : Runtime → Text → String → Check
validate_scope_entry rt entry what = do
  guard (not (is_empty entry)) (contract_refused (keyed what entry) "is empty")
  guard (not (starts_with entry (b'/' ∷ [])))
      (contract_refused (keyed what entry) "starts with '/' and must be relative")
  each
      (λ m.
        guard (not (contains m entry))
          (contract_refused (keyed what entry) "contains unsupported glob metacharacter"))
      metacharacters
  guard (not (has_dot_part entry))
      (contract_refused (keyed what entry) "contains a '.' or '..' component")
  reject_control_characters rt entry (keyed what entry)

-- One turn of the loop of `scope_covers`.
unfoldable pub entry_covers : Text → Text → Bool
entry_covers path entry =
    if ends_with_slash entry
    then text_eq path (rstrip_slash entry) || starts_with path entry
    else text_eq path entry

unfoldable pub scope_covers : List Text → Text → Bool
scope_covers [] path = false
scope_covers (entry ∷ scope) path = entry_covers path entry || scope_covers scope path
