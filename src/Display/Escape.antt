-- ===== src/Display/Escape.antt =====
-- src/agentmarshal/journal/display.py: `_escape_character` and `escape_for_display`.
use agentmarshal.Common.{
  Text, ltb, leb, ◌==◌, if◌then◌else◌, ℕ, zero, suc, ◌+◌, ◌/◌, ◌%◌, ◌^◌, not, [], ◌∷◌, ◌++◌,
}
use agentmarshal.Runtime.{Runtime}
use agentmarshal.Records.Forgeable.{forges_rendered_text}

-- A digit of `{codepoint:x}`.
unfoldable pub hex_digit : ℕ → ℕ
hex_digit n = if ltb n 10 then n + 48 else n + 87

-- `{codepoint:0<width>x}`, for a code point of at most `width` digits
unfoldable pub hex_digits : ℕ → ℕ → Text
unfolding hex_digit
hex_digits zero n = []
hex_digits (suc width) n = hex_digit (n / 16 ^ width % 16) ∷ hex_digits width n

unfoldable pub escape_character : ℕ → Text
escape_character c =
    if c == 10
    then 92 ∷ b'n' ∷ []
    else if c == 13
    then 92 ∷ b'r' ∷ []
    else if c == 9
    then 92 ∷ b't' ∷ []
    else if leb c 0xffff
    then 92 ∷ b'u' ∷ hex_digits 4 c
    else 92 ∷ b'U' ∷ hex_digits 8 c

-- `"".join(…)`
unfoldable pub escape_each : Runtime → Text → Text
escape_each rt [] = []
escape_each rt (c ∷ s) =
    let rest = escape_each rt s in
    if forges_rendered_text rt (c ∷ []) then escape_character c ++ rest else c ∷ rest

unfoldable pub escape_for_display : Runtime → Text → Text
escape_for_display rt s = if not (forges_rendered_text rt s) then s else escape_each rt s
