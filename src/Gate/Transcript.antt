-- ===== src/Gate/Transcript.antt =====
-- src/agentmarshal/journal/gate.py: the transcript that both gates build by `say` and `check`, and
-- the count of the violations.
use agentmarshal.Common.{Text, text, ◌==◌, ℕ, suc, String, Bool, true, false, List, [], ◌∷◌, ◌++◌}
use agentmarshal.Runtime.{Runtime}
use agentmarshal.Display.Escape.{escape_for_display}
pub mod Counted
pub mod Told

pub record Transcript : Type 0 where
  pub lines : List Text
  pub violations : ℕ

abbrev pub blank : Transcript
blank = record { lines = []; violations = 0 }

unfoldable pub say : Runtime → Text → Transcript → Transcript
unfolding escape_for_display
say rt message t = record t { lines = t.lines ++ (escape_for_display rt message ∷ []) }

abbrev verdict_word : Bool → String
verdict_word true = "PASS: "
verdict_word false = "FAIL: "

abbrev pub counted : Bool → ℕ → ℕ
counted true n = n
counted false n = suc n

unfoldable pub check_line : Runtime → Bool → Text → Transcript → Transcript
unfolding say text
check_line rt passed message t =
    let said = say rt (text (verdict_word passed) ++ message) t in
    record said { violations = counted passed t.violations }

-- `violations == 0`
unfoldable pub is_clear : Transcript → Bool
is_clear t = t.violations == 0
