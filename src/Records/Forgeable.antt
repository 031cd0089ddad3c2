-- ===== src/Records/Forgeable.antt =====
-- src/agentmarshal/journal/records.py: `forges_rendered_text`, `_reject_control_characters`, and the
-- tests on texts that the rules share.
use agentmarshal.Common.{
  all, any, is_empty, What, refused, unsupported, Check, pass, guard, Text, text, text_eq, contains,
  contains_text, if◌then◌else◌, ℕ, String, Bool, true, false, not, ◌&&◌, ◌||◌, Option, some, List,
  [], ◌∷◌, map,
}
use agentmarshal.Json.{Json, str, arr, Fields, elements, keys, has, text_of, list_of}
use agentmarshal.Runtime.{
  Category, control, surrogate, line_separator, paragraph_separator, other, Runtime,
}

forgeable_category : Category → Bool
forgeable_category control = true
forgeable_category surrogate = true
forgeable_category line_separator = true
forgeable_category paragraph_separator = true
forgeable_category other = false

abbrev pub bidirectional_controls : Text
bidirectional_controls =
    0x061c ∷ 0x200e ∷ 0x200f ∷ 0x202a ∷ 0x202b ∷ 0x202c ∷ 0x202d ∷ 0x202e ∷ 0x2066 ∷ 0x2067 ∷ 0x2068
    ∷ 0x2069 ∷ []

unfoldable pub forges_character : Runtime → ℕ → Bool
unfolding forgeable_category contains any
forges_character rt c = forgeable_category (rt.category c) || contains c bidirectional_controls

unfoldable pub forges_rendered_text : Runtime → Text → Bool
unfolding any forges_character
forges_rendered_text rt s = any (forges_character rt) s

unfoldable pub reject_control_characters : Runtime → Text → What → Check
unfolding forges_rendered_text
reject_control_characters rt s what =
    guard (not (forges_rendered_text rt s)) (refused what "must not contain control characters")

-- `isinstance(value, str) and value`
unfoldable pub is_non_empty : Option Json → Bool
unfolding is_empty
is_non_empty (some (str s)) = not (is_empty s)
is_non_empty _ = false

-- `value.strip()` has a character
unfoldable pub strips_to_some : Runtime → Text → Bool
unfolding all
strips_to_some rt s = not (all rt.is_space s)

-- `isinstance(value, str) and value.strip()`
unfoldable pub is_non_blank : Runtime → Option Json → Bool
unfolding strips_to_some
is_non_blank rt (some (str s)) = strips_to_some rt s
is_non_blank rt _ = false

-- `isinstance(value, str) and value in {…}`
unfoldable pub is_one_of : List String → Option Json → Bool
unfolding contains_text text text_eq any
is_one_of words (some (str s)) = contains_text s (map text words)
is_one_of words _ = false

-- `isinstance(value, str) and pattern.fullmatch(value)`
unfoldable pub is_match : (Text → Bool) → Option Json → Bool
is_match pattern (some (str s)) = pattern s
is_match pattern _ = false

-- `_reject_control_characters`, where the value is a string
unfoldable pub reject_in : Runtime → Option Json → What → Check
unfolding reject_control_characters
reject_in rt (some (str s)) what = reject_control_characters rt s what
reject_in rt _ what = pass

-- `isinstance(xs, list) and all(isinstance(x, str) and x for x in xs)`
unfoldable pub is_id_list : Option Json → Bool
unfolding all is_non_empty elements
is_id_list (some (arr xs)) = all (λ x. is_non_empty (some x)) (elements xs)
is_id_list _ = false

-- The texts of such a list.
unfoldable pub ids_of : Option Json → List Text
unfolding list_of text_of
ids_of v = map (λ x. text_of (some x)) (list_of v)

-- `data.keys() - allowed`, in the record's order
unfoldable pub keys_outside : List String → List Text → List Text
unfolding contains_text text text_eq any
keys_outside allowed [] = []
keys_outside allowed (k ∷ ks) =
    let rest = keys_outside allowed ks in
    if contains_text k (map text allowed) then rest else k ∷ rest

unfoldable pub refuse_outside : List String → Fields → What → Check
unfolding keys_outside keys is_empty
refuse_outside allowed r what =
    let unexpected = keys_outside allowed (keys r) in
    guard (is_empty unexpected) (unsupported what unexpected)

-- `data.keys() == expected`, after no key is outside
unfoldable pub has_all : Fields → List String → Bool
unfolding has all
has_all r expected = all (λ k. has r k) expected

-- `data.keys() == {…}`
unfoldable pub has_exactly : Fields → List String → Bool
unfolding has_all keys_outside keys is_empty
has_exactly r expected = is_empty (keys_outside expected (keys r)) && has_all r expected

-- `if test: …`, with no else
abbrev pub when : Bool → Check → Check
when true c = c
when false c = pass
