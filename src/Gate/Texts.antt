-- ===== src/Gate/Texts.antt =====
-- src/agentmarshal/journal/gate.py: the methods of Python's strings and the sets of strings it uses.
use agentmarshal.Common.{
  all, is_empty, Text, text_eq, contains, contains_text, starts_with, ◌==◌, if◌then◌else◌, ℕ, Bool,
  true, false, not, ◌&&◌, ◌||◌, Option, none, some, List, [], ◌∷◌, ◌++◌,
}
use agentmarshal.Ulid.Encoding.{text_lt}
use mathlib.Core.Option
pub mod Sets
pub mod Suffixes
pub mod Sorted

-- `", ".join(parts)`
unfoldable pub join_comma : List Text → Text
join_comma [] = []
join_comma (part ∷ []) = part
join_comma (part ∷ next ∷ parts) = part ++ (b',' ∷ b' ' ∷ join_comma (next ∷ parts))

-- `"; ".join(parts)`
unfoldable pub join_semicolon : List Text → Text
join_semicolon [] = []
join_semicolon (part ∷ []) = part
join_semicolon (part ∷ next ∷ parts) = part ++ (b';' ∷ b' ' ∷ join_semicolon (next ∷ parts))

-- `set(xs) == set(ys)`
unfoldable pub same_set : List Text → List Text → Bool
unfolding all contains_text
same_set xs ys = all (λ x. contains_text x ys) xs && all (λ y. contains_text y xs) ys

unfoldable pub insert_text : Text → List Text → List Text
unfolding text_lt
insert_text x [] = x ∷ []
insert_text x (y ∷ ys) = let rest = insert_text x ys in if text_lt y x then y ∷ rest else x ∷ y ∷ ys

-- `sorted(xs)`
unfoldable pub sorted : List Text → List Text
unfolding insert_text
sorted [] = []
sorted (x ∷ xs) = insert_text x (sorted xs)

-- `[x for x in xs if test(x)]`
unfoldable pub select {ℓ} : {A : Type ℓ} → (A → Bool) → List A → List A
select test [] = []
select test (x ∷ xs) = let rest = select test xs in if test x then x ∷ rest else rest

-- `dict.fromkeys(xs)`, and a set as the list of its elements
unfoldable pub distinct : List Text → List Text
unfolding select text_eq
distinct [] = []
distinct (x ∷ xs) = let rest = distinct xs in x ∷ select (λ y. not (text_eq x y)) rest

abbrev pub add_to_first : ℕ → List Text → List Text
add_to_first c [] = (c ∷ []) ∷ []
add_to_first c (part ∷ parts) = (c ∷ part) ∷ parts

-- `s.split(sep)`, for a separator of one character
unfoldable pub split : ℕ → Text → List Text
split sep [] = [] ∷ []
split sep (c ∷ s) = let rest = split sep s in if c == sep then [] ∷ rest else add_to_first c rest

-- `[token for token in s.split("\0") if token]`
unfoldable pub tokens_of : Text → List Text
unfolding select split is_empty
tokens_of s = select (λ token. not (is_empty token)) (split 0 s)

-- `infix in s`
unfoldable pub has_infix : Text → Text → Bool
unfolding starts_with
has_infix p [] = is_empty p
has_infix p (c ∷ s) = starts_with (c ∷ s) p || has_infix p s

-- `s.rsplit(sep, maxsplit=1)[-1]`
unfoldable pub after_last : ℕ → Text → Text
after_last sep [] = []
after_last sep (c ∷ s) =
    let rest = after_last sep s in if contains sep s then rest else if c == sep then s else c ∷ s

-- `s.removesuffix(suffix)`, and `s.endswith(suffix)` where it gives a text
unfoldable pub drop_suffix : Text → Text → Option Text
unfolding text_eq
drop_suffix suffix [] = if is_empty suffix then some [] else none
drop_suffix suffix (c ∷ s) =
    let rest = Option.map (λ t. c ∷ t) (drop_suffix suffix s) in
    if text_eq (c ∷ s) suffix then some [] else rest

unfoldable pub or_text : Option Text → Text → Text
or_text none s = s
or_text (some t) s = t

unfoldable pub ends_with : Text → Text → Bool
unfolding drop_suffix
ends_with s suffix = is_given_text (drop_suffix suffix s)
  where
    is_given_text : Option Text → Bool
    is_given_text none = false
    is_given_text (some t) = true
