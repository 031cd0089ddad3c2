-- ===== src/Gate/Transcript/Counted.antt =====
-- src/agentmarshal/journal/gate.py: the violations that a line counts.
use agentmarshal.Common.{Text, ◌≡◌, refl, Bool, true, false, ◌&&◌, arith}
use agentmarshal.Runtime.{Runtime}
use agentmarshal.Gate.Transcript.{Transcript, say, check_line, is_clear}

pub check_clear :
    (rt : Runtime) (passed : Bool) (message : Text) (t : Transcript)
    → is_clear (check_line rt passed message t) ≡ (is_clear t && passed)
unfolding check_line is_clear
check_clear rt true message t = ground arith
check_clear rt false message t = ground arith

pub say_clear :
    (rt : Runtime) (message : Text) (t : Transcript) → is_clear (say rt message t) ≡ is_clear t
unfolding say is_clear
say_clear rt message t = refl
