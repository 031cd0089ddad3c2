-- ===== src/Gate/Independence/Ranked.antt =====
-- src/agentmarshal/journal/gate.py: how the findings on the sessions are ranked into a verdict.
use agentmarshal.Common.{
  any, Text, ◌≡◌, refl, Bool, true, false, ◌||◌, Option, none, some, List, [], ◌∷◌,
}
use agentmarshal.Json.{Fields}
use agentmarshal.Runtime.{Runtime}
use agentmarshal.Gate.Identity.{Host}
use agentmarshal.Gate.Independence.{
  IndependenceRule, Compared, gap, equal, distinct_value, compare_session, Verdict, turn,
  judge_sessions,
}

unfoldable pub is_equal : Compared → Bool
is_equal (equal message) = true
is_equal _ = false

unfoldable pub is_gap : Compared → Bool
is_gap (gap message) = true
is_gap _ = false

unfoldable pub is_noted : Option Text → Bool
is_noted none = false
is_noted (some first) = true

-- An equal value outranks a gap, and a gap a pass.
unfoldable pub ranked : Bool → Bool → Option Bool
ranked true gaps = some false
ranked false true = none
ranked false false = some true

-- One turn, where the verdict of the rest is known for every first gap.
turn_verdict :
    (k : Compared) (g : Option Text) (next : Option Text → Verdict) (e gaps : Bool)
    → ((g : Option Text) → (next g).0 ≡ ranked e (is_noted g || gaps))
    → (turn k g next).0 ≡ ranked (is_equal k || e) (is_noted g || (is_gap k || gaps))
unfolding is_equal is_gap is_noted ranked
turn_verdict (gap message) none next e gaps h = h (some message)
turn_verdict (gap message) (some first) next e gaps h = h (some first)
turn_verdict (equal message) g next e gaps h = refl
turn_verdict distinct_value g next e gaps h = h g

module _ (rt : Runtime) (host : Host) (rule : IndependenceRule) (of_reviewer : Text)
    (declared : Option (List Text)) where
  unfoldable pub equals_reviewer : Fields → Bool
  equals_reviewer s = is_equal (compare_session rt host rule of_reviewer declared s)

  unfoldable pub is_unjudgeable : Fields → Bool
  is_unjudgeable s = is_gap (compare_session rt host rule of_reviewer declared s)

  pub sessions_verdict :
      (g : Option Text) (sessions : List Fields)
      → (judge_sessions rt host rule of_reviewer declared g sessions).0
        ≡ ranked (any equals_reviewer sessions) (is_noted g || any is_unjudgeable sessions)
  unfolding judge_sessions any equals_reviewer is_unjudgeable
  sessions_verdict none [] = unfold is_noted in unfold ranked in refl
  sessions_verdict (some first) [] = unfold is_noted in unfold ranked in refl
  sessions_verdict g (s ∷ sessions) =
      turn_verdict (compare_session rt host rule of_reviewer declared s) g _
        (any equals_reviewer sessions) (any is_unjudgeable sessions)
        (λ g. sessions_verdict g sessions)
