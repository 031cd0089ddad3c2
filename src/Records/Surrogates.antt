-- ===== src/Records/Surrogates.antt =====
-- src/agentmarshal/journal/records.py: how the byte bound on a check's excerpt meets a text that has no
-- UTF-8 form.
use agentmarshal.Common.{
  length, any, unicode_encode_error, err, pass, each, Text, leb, Option-cases, or-eq-false, ℕ, ◌+◌,
  ◌*◌, ◌≤◌, ◌≡◌, refl, inl, inr, Bool, true, false, ◌&&◌, none, some, [], ◌∷◌, arith,
}
use agentmarshal.Json.{str, Fields, ◌!◌, has}
use agentmarshal.Registry.{check}
use agentmarshal.Records.Schema.{is_type}
use agentmarshal.Records.Rules.Bounds.{
  utf8_width, utf8_length, check_text_limits, check_bounded_text_bytes,
}

-- The code points that UTF-8 has no form for.
unfoldable pub is_surrogate : ℕ → Bool
is_surrogate c = leb 0xd800 c && leb c 0xdfff

surrogate_has_no_width : (c : ℕ) → is_surrogate c ≡ true → utf8_width c ≡ none
unfolding is_surrogate utf8_width
surrogate_has_no_width c h = ground arith

width_of_scalar : (c : ℕ) → is_surrogate c ≡ false → (n : ℕ) × (utf8_width c ≡ some n) × (n ≤ 4)
unfolding is_surrogate utf8_width
width_of_scalar c h = elim (Option-cases (utf8_width c)) [
  | inl e ↦ absurd (ground arith)
  | inr (n, e) ↦ (n, e, ground arith)
]

-- A text has a UTF-8 length unless it holds a surrogate.
no_length : (s : Text) → any is_surrogate s ≡ true → utf8_length s ≡ none
unfolding any utf8_length
no_length [] h = cc
no_length (c ∷ s) h =
    ground (arith, surrogate_has_no_width c, no_length s, Option-cases (utf8_width c))

has_length :
    (s : Text)
    → any is_surrogate s ≡ false
    → (n : ℕ) × (utf8_length s ≡ some n) × (n ≤ 4 * length s)
unfolding any utf8_length
has_length [] h = (0, refl, omega arith)
has_length (c ∷ s) h =
    let (hc, hs) = or-eq-false (is_surrogate c) (any is_surrogate s) h in
    let (m, em, lm) = width_of_scalar c hc in
    let (n, en, ln) = has_length s hs in (m + n, rw (em, en), omega arith)

-- On a check record whose excerpt holds a lone surrogate, the byte bound does not refuse the record:
-- it raises the encoder's own error.
pub surrogate_excerpt_raises :
    (r : Fields) (s : Text)
    → is_type check r ≡ true
    → r ! "excerpt" ≡ some (str s)
    → any is_surrogate s ≡ true
    → check_bounded_text_bytes r ≡ err unicode_encode_error
unfolding check_bounded_text_bytes check_text_limits each has
surrogate_excerpt_raises r s t e h = ground (arith, no_length s h)

-- On a check record, an excerpt of at most 1024 characters, none of them a surrogate, is within
-- the byte bound.
pub short_excerpt_is_bounded :
    (r : Fields) (s : Text)
    → is_type check r ≡ true
    → r ! "excerpt" ≡ some (str s)
    → any is_surrogate s ≡ false
    → length s ≤ 1024
    → check_bounded_text_bytes r ≡ pass
unfolding check_bounded_text_bytes check_text_limits each has
short_excerpt_is_bounded r s t e h l = let (n, en, ln) = has_length s h in ground arith
