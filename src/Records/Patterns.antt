-- ===== src/Records/Patterns.antt =====
-- src/agentmarshal/journal/records.py: the compiled patterns that identifiers and values are
-- matched against (each by `fullmatch`), `_is_ulid` and `validate_task_id`; and `_RECORD_KIND` of
-- src/agentmarshal/journal/extensions.py.
use agentmarshal.Common.{
  length, all, is_empty, Text, text, text_eq, contains, leb, ◌==◌, if◌then◌else◌, ℕ, zero, suc,
  Bool, true, false, not, ◌&&◌, ◌||◌, Option, none, some, [], ◌∷◌,
}
use agentmarshal.Runtime.{Runtime}

unfoldable pub in_range : ℕ → ℕ → ℕ → Bool
in_range lo hi c = leb lo c && leb c hi

-- [0-9], [a-z], [A-Z], [0-9a-f]
unfoldable pub is_digit : ℕ → Bool
unfolding in_range
is_digit c = in_range 48 57 c

is_lower : ℕ → Bool
unfolding in_range
is_lower c = in_range 97 122 c

is_upper : ℕ → Bool
unfolding in_range
is_upper c = in_range 65 90 c

unfoldable pub is_hex : ℕ → Bool
unfolding is_digit in_range
is_hex c = is_digit c || in_range 97 102 c

-- [0-9a-f]{n}
unfoldable pub hex_matches : ℕ → Text → Bool
unfolding all is_hex
hex_matches n s = (length s == n) && all is_hex s

unfoldable pub commit_matches : Text → Bool
unfolding hex_matches
commit_matches s = hex_matches 40 s

unfoldable pub sha256_matches : Text → Bool
unfolding hex_matches
sha256_matches s = hex_matches 64 s

-- The longest prefix of characters that pass, and the rest.
unfoldable pub span : (ℕ → Bool) → Text → Text × Text
span p [] = ([], [])
span p (c ∷ s) = let (a, b) = span p s in if p c then (c ∷ a, b) else ([], c ∷ s)

-- CR-[0-9]+
unfoldable pub digits_match : Text → Bool
unfolding all is_digit is_empty
digits_match s = not (is_empty s) && all is_digit s

unfoldable pub drop_prefix : Text → Text → Option Text
drop_prefix [] s = some s
drop_prefix (p ∷ ps) [] = none
drop_prefix (p ∷ ps) (c ∷ s) = if p == c then drop_prefix ps s else none

abbrev when_some : Option Text → (Text → Bool) → Bool
when_some none p = false
when_some (some s) p = p s

unfoldable pub task_id_matches : Text → Bool
unfolding digits_match drop_prefix text
task_id_matches s = when_some (drop_prefix (text "CR-") s) digits_match

-- [0-9]+(\.[0-9]+)?
amount_tail : Text → Bool
unfolding digits_match
amount_tail [] = true
amount_tail (c ∷ s) = (c == b'.') && digits_match s

unfoldable pub amount_matches : Text → Bool
unfolding span is_empty amount_tail is_digit
amount_matches s = let (digits, rest) = span is_digit s in not (is_empty digits) && amount_tail rest

-- [A-Z]{3}
unfoldable pub currency_matches : Text → Bool
unfolding all is_upper
currency_matches s = (length s == 3) && all is_upper s

abbrev pub crockford_base32 : Text
crockford_base32 = text "0123456789ABCDEFGHJKMNPQRSTVWXYZ"

unfoldable pub first_in : Text → Text → Bool
unfolding contains
first_in [] cs = false
first_in (c ∷ s) cs = contains c cs

unfoldable pub is_ulid : Text → Bool
unfolding first_in all contains text
is_ulid s =
    (length s == 26) && first_in s (text "01234567") && all (λ c. contains c crockford_base32) s

-- [^/@\s]+/[^/@\s]+@[^/@\s]+ (`\s` and `str.strip` both go by `str.isspace`)
kind_character : Runtime → ℕ → Bool
kind_character rt c = not (c == b'/') && not (c == b'@') && not (rt.is_space c)

kind_part : Runtime → Text → Bool
unfolding all is_empty kind_character
kind_part rt s = not (is_empty s) && all (kind_character rt) s

abbrev after : ℕ → Text → Option Text
after sep [] = none
after sep (c ∷ s) = if c == sep then some s else none

unfoldable pub record_kind_matches : Runtime → Text → Bool
unfolding span kind_part kind_character is_empty
record_kind_matches rt s =
    let (extension, r1) = span (kind_character rt) s in
    not (is_empty extension)
    && when_some (after b'/' r1) (λ s1.
      let (kind, r2) = span (kind_character rt) s1 in
      not (is_empty kind) && when_some (after b'@' r2) (kind_part rt))

-- `(?P<record_id>[0-7][…]{25})-(?P<record_type>[a-z]+)\.json`, with the two groups
unfoldable pub take_text : ℕ → Text → Text
take_text zero s = []
take_text (suc n) [] = []
take_text (suc n) (c ∷ s) = c ∷ take_text n s

unfoldable pub drop_text : ℕ → Text → Text
drop_text zero s = s
drop_text (suc n) [] = []
drop_text (suc n) (c ∷ s) = drop_text n s

type_and_suffix : Text → Option Text → Option (Text × Text)
unfolding span is_lower is_empty text_eq text
type_and_suffix record_id none = none
type_and_suffix record_id (some s) =
    let (record_type, suffix) = span is_lower s in
    if not (is_empty record_type) && text_eq suffix (text ".json")
    then some (record_id, record_type)
    else none

unfoldable pub match_record_filename : Text → Option (Text × Text)
unfolding take_text drop_text is_ulid type_and_suffix
match_record_filename s =
    let record_id = take_text 26 s in
    if is_ulid record_id then type_and_suffix record_id (after b'-' (drop_text 26 s)) else none
