-- ===== src/Examples/Rendering.antt =====
-- src/agentmarshal/journal/display.py and the identifiers of src/agentmarshal/journal/records.py: the
-- theorems at small texts, times and draws.
use agentmarshal.Common.{
  length, All, ℕ, ◌+◌, ◌^◌, ◌≤◌, ◌<◌, ◌≡◌, ◌↔◌, true, false, some, List, [], ◌∷◌, arith,
}
use agentmarshal.Records.Patterns.{is_ulid}
use agentmarshal.Records.Forgeable.{forges_rendered_text}
use agentmarshal.Display.Escape.{escape_for_display}
use agentmarshal.Display.Safe.{AsciiIsPlain, escaped_never_forges, shown_as_is_iff_accepted}
use agentmarshal.Ulid.Generate.{start, generate_pair, generate_ulid}
use agentmarshal.Ulid.Monotone.{last_ulid, ulids, Rises, IsCall, ulids-Rises}
use agentmarshal.Ulid.WellFormed.{generate_ulid-is_ulid}
use agentmarshal.Examples.Samples.{simple}

pub simple-AsciiIsPlain : AsciiIsPlain simple
simple-AsciiIsPlain = record { printable = λ c lo hi. ground arith }

escaped_never_forges_example :
    forges_rendered_text simple (escape_for_display simple (b'a' ∷ 10 ∷ 27 ∷ [])) ≡ false
escaped_never_forges_example = escaped_never_forges simple simple-AsciiIsPlain (b'a' ∷ 10 ∷ 27 ∷ [])

shown_as_is_iff_accepted_example :
    (escape_for_display simple (b'a' ∷ []) ≡ b'a' ∷ [])
    ↔ (forges_rendered_text simple (b'a' ∷ []) ≡ false)
shown_as_is_iff_accepted_example = shown_as_is_iff_accepted simple simple-AsciiIsPlain (b'a' ∷ [])

-- The second call's clock has gone back, and the third call's too.
abbrev calls : List (ℕ × ℕ)
calls = (1000, 5) ∷ (900, 6) ∷ (901, 7) ∷ []

calls-IsCall : All (IsCall 2000) calls
calls-IsCall =
    ((omega arith, omega arith), ((omega arith, omega arith), ((omega arith, omega arith), tt)))

few_calls : 2000 + length calls ≤ 2 ^ 50
few_calls = omega arith

ulids-Rises_example :
    Rises
      (last_ulid 999 3)
      (ulids calls (record { last_timestamp = some 999; last_randomness = 3 }))
ulids-Rises_example =
    ulids-Rises calls 999 3 2000 (omega arith) (omega arith) few_calls calls-IsCall

early : (generate_pair 1000 5 start).0 < 2 ^ 48
unfolding generate_pair
early = omega arith

generate_ulid-is_ulid_example : is_ulid (generate_ulid 1000 5 start).0 ≡ true
generate_ulid-is_ulid_example = generate_ulid-is_ulid 1000 5 start early
