-- ===== src/Gate/Base.antt =====
-- src/agentmarshal/journal/gate.py: what `run_gate` asks of a task's state on the base tree, by the
-- names of the records there; and `projected_state_of` of src/agentmarshal/journal/status.py.
use agentmarshal.Common.{
  all, is_empty, Result, Text, text, contains_text, starts_with, ◌==◌, if◌then◌else◌, ℕ, Bool, true,
  false, not, ◌&&◌, ◌||◌, Option, none, some, List, ◌++◌, map,
}
use agentmarshal.Registry.{
  RecordType, State, open_state, done_state, abandoned_state, record_types, named,
}
use agentmarshal.Runtime.{Runtime}
use agentmarshal.Status.Projection.{admitted_after}
use agentmarshal.Gate.Texts.{sorted, select, ends_with}
use agentmarshal.Gate.Transcript.{Transcript, say, check_line}
use agentmarshal.Gate.Paths.{
  tasks_prefix, is_record_path, record_type_from_record_path, is_append_only_evidence_path,
}
use agentmarshal.Gate.Identity.{last_of}
pub mod Facts
pub mod Closed
pub mod Extended

-- What `run_gate` reads of a candidate: the pairs of `_changed_with_status`, the paths of the base
-- tree, and `git show <commit>:<path>`.
pub record Candidate : Type 0 where
  pub changes : List (ℕ × Text)
  pub base_tree : List Text
  pub show : Text → Result Text

abbrev paths_of : List (ℕ × Text) → List Text
paths_of changes = map (λ change. change.1) changes

unfoldable pub is_added : ℕ × Text → Bool
is_added change = change.0 == b'A'

unfoldable pub evidence_changes : Candidate → List (ℕ × Text)
unfolding select is_append_only_evidence_path
evidence_changes c = select (λ change. is_append_only_evidence_path change.1) c.changes

unfoldable pub added_records : Candidate → List Text
unfolding select is_record_path is_added
added_records c = paths_of (select is_added (select (λ change. is_record_path change.1) c.changes))

-- `f"{_JOURNAL_PREFIX}tasks/{task}/"` and `f"{…}records/"`
unfoldable pub task_dir_prefix : Text → Text
unfolding text
task_dir_prefix task = tasks_prefix ++ (task ++ text "/")

unfoldable pub task_records_prefix : Text → Text
unfolding task_dir_prefix text
task_records_prefix task = task_dir_prefix task ++ text "records/"

unfoldable pub is_lifecycle_path : Text → Bool
unfolding ends_with text
is_lifecycle_path path =
    ends_with path (text "-completed.json")
    || (ends_with path (text "-abandoned.json") || ends_with path (text "-reopened.json"))

-- The latest lifecycle record's path: names are sorted, and the ids that lead them are monotonic.
unfoldable pub latest_at_base : List Text → Text → Option Text
unfolding last_of sorted select starts_with task_records_prefix is_lifecycle_path
latest_at_base base_tree task = last_of (
    sorted (
      select (λ path. starts_with path (task_records_prefix task) && is_lifecycle_path path)
        base_tree))

unfoldable pub is_closing : Option Text → Bool
unfolding ends_with text
is_closing none = false
is_closing (some path) = not (ends_with path (text "-reopened.json"))

unfoldable pub projects_to : Option RecordType → Option State
unfolding record_types
projects_to none = none
projects_to (some t) = (record_types t).projects_to

unfoldable pub projected_state_of : Text → Option State
unfolding projects_to named
projected_state_of record_type = projects_to (named record_type)

abbrev pub admitted_type : Option RecordType → State → Bool
admitted_type none s = false
admitted_type (some t) s = admitted_after t s

-- `record_type_is_admitted_after_terminal`, of a type's name
unfoldable pub is_admitted_after_terminal : Text → State → Bool
unfolding named admitted_after
is_admitted_after_terminal record_type s = admitted_type (named record_type) s

abbrev terminal_of : Option Text → Option State
terminal_of none = none
terminal_of (some path) = projected_state_of (record_type_from_record_path path)

-- `terminal_state_at_base`
unfoldable pub terminal_state_at_base : Option Text → Option State
unfolding is_closing projected_state_of record_type_from_record_path
terminal_state_at_base latest = if is_closing latest then terminal_of latest else none

unfoldable pub admits_all : Option State → List Text → Bool
unfolding all is_admitted_after_terminal record_type_from_record_path
admits_all none paths = false
admits_all (some s) paths =
    all (λ path. is_admitted_after_terminal (record_type_from_record_path path) s) paths

unfoldable pub admitted_records_only : Candidate → Text → Option State → Bool
unfolding is_empty added_records all is_added starts_with task_dir_prefix task_records_prefix
    admits_all
admitted_records_only c task terminal =
    not (is_empty (added_records c))
    && (all (λ change. is_added change && starts_with change.1 (task_dir_prefix task)) c.changes
        && (admits_all terminal (added_records c)
            && all (λ path. starts_with path (task_records_prefix task)) (added_records c)))

abbrev pub state_word : State → Text
state_word open_state = text "open"
state_word done_state = text "done"
state_word abandoned_state = text "abandoned"

module _ (rt : Runtime) where
  unfoldable pub say_admitted : Bool → Transcript → Transcript
  unfolding say text
  say_admitted true t =
      say rt
        (text
          "PASS: reopening append to a task completed at base (reopening is admitted post-terminal)")
        t
  say_admitted false t =
      say rt
        (text
          "PASS: measurements-only append to a task closed at base (session records accrue post-terminal)")
        t

  -- The first line of the transcript, in the embedded placement.
  unfoldable pub say_base : Candidate → Text → State → Transcript → Transcript
  unfolding latest_at_base is_closing terminal_state_at_base admitted_records_only say_admitted
      contains_text record_type_from_record_path added_records say check_line text
  say_base c task state t =
      let latest = latest_at_base c.base_tree task in
      if not (is_closing latest)
      then say rt (text "PASS: task " ++ (task ++ text " is not closed at base")) t
      else if admitted_records_only c task (terminal_state_at_base latest)
      then say_admitted
          (contains_text (text "reopened") (map record_type_from_record_path (added_records c))) t
      else check_line rt false
          (text "task "
            ++ (task
                ++ (text " is already closed at base (candidate state: "
                    ++ (state_word state ++ text ")"))))
          t
