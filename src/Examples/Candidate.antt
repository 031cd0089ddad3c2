-- ===== src/Examples/Candidate.antt =====
-- src/agentmarshal/journal/gate.py: the theorems on the evidence of a candidate, at two candidates.
use mathlib.Core.List.{Memᴰ}
use agentmarshal.Common.{
  any, is_empty, ok, Text, text, contains, ◌≡◌, refl, inl, true, List, [], ◌∷◌, ◌++◌,
}
use agentmarshal.Json.{Json}
use agentmarshal.Runtime.{Runtime}
use agentmarshal.Registry.{done_state}
use agentmarshal.Status.Projection.{Projection}
use agentmarshal.Gate.Transcript.{Transcript, blank, is_clear}
use agentmarshal.Gate.Base.{Candidate, task_records_prefix, latest_at_base, is_closing, say_base}
use agentmarshal.Ulid.Encoding.{text_lt}
use agentmarshal.Gate.Base.Closed.{by_completion, IsClosedBy}
use agentmarshal.Gate.Base.Extended.{IsExtended, say_base-IsExtended}
use agentmarshal.Gate.Evidence.{judge_lifecycle, judge_tampered, say_added, judge_collisions}
use agentmarshal.Examples.Samples.{simple}

-- A task that is done on the base, and a candidate that adds a session to it.
abbrev records_directory : Text
records_directory = text ".agentmarshal/journal/tasks/CR-1/records/"

abbrev closed_candidate : Candidate
closed_candidate = record {
  changes = (b'A', records_directory ++ text "B-session.json") ∷ [];
  base_tree = (records_directory ++ text "A-completed.json") ∷ [];
  show = λ path. ok [];
}

adding_a_session : is_clear (say_base simple closed_candidate (text "CR-1") done_state blank) ≡ true
unfolding is_closing latest_at_base is_empty is_clear say_base agentmarshal.Common.contains any
adding_a_session = refl

IsClosedBy-completion : IsClosedBy by_completion closed_candidate.base_tree (text "CR-1") (text "A")
unfolding task_records_prefix text_lt
IsClosedBy-completion = record { present = Memᴰ.head refl; latest = (inl refl, tt) }

say_base-IsExtended_example : IsExtended by_completion closed_candidate (text "CR-1")
say_base-IsExtended_example =
    say_base-IsExtended simple closed_candidate (text "CR-1") done_state blank by_completion
      (text "A") IsClosedBy-completion adding_a_session

-- A candidate that adds a review to an open task.
abbrev adding_candidate : Candidate
adding_candidate = record {
  changes = (b'A', records_directory ++ text "01ARZ3NDEKTSV4RRFFQ69G5FAW-review.json") ∷ [];
  base_tree = (records_directory ++ text "01ARZ3NDEKTSV4RRFFQ69G5FAA-opened.json") ∷ [];
  show = λ path. ok (text "review");
}

unfoldable adding_said : Transcript
adding_said = judge_lifecycle simple adding_candidate (text "CR-1") (
    judge_collisions simple adding_candidate
      (say_added simple adding_candidate [] (judge_tampered simple adding_candidate blank)))
