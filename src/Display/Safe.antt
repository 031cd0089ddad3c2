-- ===== src/Display/Safe.antt =====
-- src/agentmarshal/journal/display.py: `escape_for_display` against the forgeable-text rule.
use agentmarshal.Common.{
  any, any-append, any-cons, Text, Bool-cases, ℕ, zero, suc, ◌/◌, ◌%◌, ◌^◌, ◌≤◌, ◌<◌, ◌≡◌, refl,
  ◌↔◌, inl, inr, false, [], ◌∷◌, arith,
}
use agentmarshal.Runtime.{other, Runtime}
use agentmarshal.Records.Forgeable.{forges_character, forges_rendered_text}
use agentmarshal.Display.Escape.{
  hex_digit, hex_digits, escape_character, escape_each, escape_for_display,
}

-- What Unicode says of ASCII: the printable characters are in none of the refused categories.
pub record AsciiIsPlain (rt : Runtime) : Type 0 where
  pub printable : (c : ℕ) → 32 ≤ c → c ≤ 126 → rt.category c ≡ other

module _ (rt : Runtime) (plain_ascii : AsciiIsPlain rt) where
  pub ascii_is_clean : (c : ℕ) → 32 ≤ c → c ≤ 126 → forges_character rt c ≡ false
  unfolding forges_character
  ascii_is_clean c lo hi = ground (arith, plain_ascii.printable c lo hi)

  hex_digit_is_clean : (n : ℕ) → n < 16 → forges_character rt (hex_digit n) ≡ false
  unfolding hex_digit
  hex_digit_is_clean n h = ascii_is_clean (hex_digit n) (ground arith) (ground arith)

  hex_digits_are_clean : (width n : ℕ) → any (forges_character rt) (hex_digits width n) ≡ false
  unfolding any hex_digits
  hex_digits_are_clean zero n = refl
  hex_digits_are_clean (suc width) n =
      ground (
        arith,
        hex_digits_are_clean width n,
        hex_digit_is_clean (n / 16 ^ width % 16) (omega arith),
      )

  escape_is_clean : (c : ℕ) → any (forges_character rt) (escape_character c) ≡ false
  unfolding escape_character any
  escape_is_clean c = ground (
    arith,
    ascii_is_clean 92 (omega arith) (omega arith),
    ascii_is_clean b'n' (omega arith) (omega arith),
    ascii_is_clean b'r' (omega arith) (omega arith),
    ascii_is_clean b't' (omega arith) (omega arith),
    ascii_is_clean b'u' (omega arith) (omega arith),
    ascii_is_clean b'U' (omega arith) (omega arith),
    hex_digits_are_clean 4 c,
    hex_digits_are_clean 8 c,
  )

  clean_head : (c : ℕ) → forges_rendered_text rt (c ∷ []) ≡ false → forges_character rt c ≡ false
  unfolding forges_rendered_text any
  clean_head c good = ground arith

  escape_each_is_clean : (s : Text) → any (forges_character rt) (escape_each rt s) ≡ false
  unfolding escape_each
  escape_each_is_clean [] = unfold any in refl
  escape_each_is_clean (c ∷ s) = elim (Bool-cases (forges_rendered_text rt (c ∷ []))) [
    | inl bad ↦ rw (
      bad,
      any-append (forges_character rt) (escape_character c) (escape_each rt s),
      escape_is_clean c,
      escape_each_is_clean s,
    )
    | inr good ↦ rw good (
        any-cons (forges_character rt) c (escape_each rt s) (clean_head c good)
          (escape_each_is_clean s))
  ]

  -- Where the printable ASCII characters are in none of the refused categories, what is escaped
  -- for display holds no character that the forgeable-text rule refuses.
  pub escaped_never_forges : (s : Text) → forges_rendered_text rt (escape_for_display rt s) ≡ false
  unfolding escape_for_display
  escaped_never_forges s = elim (Bool-cases (forges_rendered_text rt s)) [
    | inl bad ↦ rw bad (unfold forges_rendered_text in escape_each_is_clean s)
    | inr good ↦ rw good good
  ]

  -- Where the printable ASCII characters are in none of the refused categories, a text is
  -- displayed as it is exactly when the forgeable-text rule accepts it.
  pub shown_as_is_iff_accepted :
      (s : Text) → (escape_for_display rt s ≡ s) ↔ (forges_rendered_text rt s ≡ false)
  shown_as_is_iff_accepted s =
      (λ same. rw (← same) (escaped_never_forges s), λ good. unfold escape_for_display in rw good)
