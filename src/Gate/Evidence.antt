-- ===== src/Gate/Evidence.antt =====
-- src/agentmarshal/journal/gate.py: the checks of `run_gate` on the evidence that a candidate adds, in
-- the embedded placement: append-only, valid, free of collisions and of a consistent lifecycle.
use agentmarshal.Common.{
  all, is_empty, Error, refused, unsupported, gate_refused, Result, ok, err, ◌>>=◌, Text, text,
  text_eq, contains_text, starts_with, ◌==◌, if◌then◌else◌, ℕ, suc, Bool, true, false, not, ◌&&◌,
  ◌||◌, Option, none, some, List, [], ◌∷◌, ◌++◌, map,
}
use agentmarshal.Json.{str, Fields, end, field, ◌!◌, text_of, is_str}
use agentmarshal.Registry.{State}
use agentmarshal.Runtime.{Runtime}
use agentmarshal.Records.Patterns.{drop_prefix}
use agentmarshal.Records.Files.{validate_record_content}
use agentmarshal.Status.Projection.{project_status}
use agentmarshal.Gate.Texts.{
  join_comma, join_semicolon, sorted, select, distinct, split, after_last, or_text,
}
use agentmarshal.Gate.Transcript.{Transcript, check_line}
use agentmarshal.Gate.Paths.{tasks_prefix, record_type_from_record_path, record_path_task}
use agentmarshal.Gate.Base.{
  Candidate, is_added, evidence_changes, added_records, task_dir_prefix, task_records_prefix,
  latest_at_base, is_closing, terminal_state_at_base, admits_all, state_word,
}
use agentmarshal.Gate.Findings.Released.{judged}
pub mod Valid
pub mod Consistent
pub mod Kept

-- `sorted(path for status, path in evidence_changes if status != "A")`
unfoldable pub tampered_records : Candidate → List Text
unfolding sorted select is_added evidence_changes
tampered_records c =
    sorted
      (map (λ change. change.1) (select (λ change. not (is_added change)) (evidence_changes c)))

-- `Path(path).name`, of a path without a trailing slash
unfoldable pub file_name_of : Text → Text
unfolding after_last
file_name_of path = after_last b'/' path

unfoldable pub task_matches : Fields → Text → Bool
unfolding is_str text_eq text_of ◌!◌
task_matches r task = is_str (r ! "task") && text_eq (text_of (r ! "task")) task

-- `except (GateError, JournalRecordError)`
abbrev pub is_caught : Error → Bool
is_caught (refused what why) = true
is_caught (unsupported what names) = true
is_caught (gate_refused message) = true
is_caught _ = false

-- The refusal of what `validate_record_content` gives, if any; an error that is caught is named without
-- its text, and any other one leaves the gate.
unfoldable pub content_refusal : Text → Text → Result Fields → Result (List Text)
unfolding task_matches text
content_refusal path task (err e) =
    if is_caught e then ok ((path ++ text ": the record is refused") ∷ []) else err e
content_refusal path task (ok r) =
    if not (task_matches r task)
    then ok ((path ++ text ": record task does not match its directory") ∷ [])
    else ok []

module _ (rt : Runtime) (c : Candidate) where
  unfoldable pub added_record : Text → Result Fields
  unfolding file_name_of validate_record_content
  added_record path = c.show path >>= λ content.
      validate_record_content rt (record { file_name = file_name_of path; content = content })

  unfoldable pub path_refusal : Text → Option Text → Result (List Text)
  unfolding content_refusal added_record text
  path_refusal path none =
      ok ((path ++ text ": only tasks/<id>/records/<file> is a record path") ∷ [])
  path_refusal path (some task) = content_refusal path task (added_record path)

  -- The loop over the added records.
  unfoldable pub invalid_records : List Text → Result (List Text)
  unfolding path_refusal record_path_task
  invalid_records [] = ok []
  invalid_records (path ∷ paths) = path_refusal path (record_path_task path) >>= λ here_invalid.
      invalid_records paths >>= λ later_invalid. ok (here_invalid ++ later_invalid)

-- `sorted(colliding)`
unfoldable pub colliding_records : Candidate → List Text
unfolding select is_added contains_text evidence_changes
colliding_records c =
    map (λ change. change.1)
      (select (λ change. is_added change && contains_text change.1 c.base_tree)
        (evidence_changes c))

abbrev first_part : List Text → Text
first_part [] = []
first_part (part ∷ parts) = part

-- `_task_of`
unfoldable pub task_of : Text → Text
unfolding split or_text drop_prefix
task_of path = first_part (split b'/' (or_text (drop_prefix tasks_prefix path) path))

unfoldable pub typed : Text → Fields
unfolding text
typed record_type = field (text "record_type") (str record_type) end

-- The names of a task's records after the merge, in order, and their types.
unfoldable pub merged_paths : Candidate → Text → List Text
unfolding sorted distinct select starts_with task_records_prefix added_records
merged_paths c task = sorted (
    select (λ path. starts_with path (task_records_prefix task))
      (distinct (c.base_tree ++ added_records c)))

unfoldable pub merged_state : Candidate → Text → Result State
unfolding project_status typed record_type_from_record_path merged_paths
merged_state c task =
    project_status (map (λ path. typed (record_type_from_record_path path)) (merged_paths c task))

unfoldable pub admitted_only : Candidate → Text → Option State → Bool
unfolding admits_all all is_added select starts_with task_dir_prefix task_records_prefix
    added_records
admitted_only c task terminal =
    all (λ change. is_added change || not (starts_with change.1 (task_dir_prefix task))) c.changes
    && admits_all terminal
        (select (λ path. starts_with path (task_records_prefix task)) (added_records c))

module _ (rt : Runtime) (c : Candidate) where
  -- One turn of the loop over the affected tasks, after the projection, whose error is named without
  -- its text.
  unfoldable pub judge_affected : Text → Text → Result State → Transcript × ℕ → Transcript × ℕ
  unfolding check_line text text_eq is_closing latest_at_base admitted_only terminal_state_at_base
  judge_affected judged affected (err e) (t, refusals) = (
    check_line rt false
        (text "task " ++ (affected ++ text ": its records do not project to a state")) t,
    suc refusals,
  )
  judge_affected judged affected (ok state) (t, refusals) =
      let latest = latest_at_base c.base_tree affected in
      if text_eq affected judged
      then (t, refusals)
      else if not (is_closing latest)
      then (t, refusals)
      else if admitted_only c affected (terminal_state_at_base latest)
      then (t, refusals)
      else (
        check_line rt false
            (text "task "
              ++ (affected
                  ++ (text " is already closed at base (candidate state: "
                      ++ (state_word state ++ text ")"))))
            t,
        suc refusals,
      )

  unfoldable pub judge_each : Text → List Text → Transcript × ℕ → Transcript × ℕ
  unfolding judge_affected merged_state
  judge_each judged [] t = t
  judge_each judged (affected ∷ tasks) t =
      judge_each judged tasks (judge_affected judged affected (merged_state c affected) t)

  unfoldable pub affected_tasks : List Text
  unfolding sorted distinct task_of added_records
  affected_tasks = sorted (distinct (map task_of (added_records c)))

  unfoldable pub judge_lifecycle : Text → Transcript → Transcript
  unfolding judge_each affected_tasks check_line text
  judge_lifecycle judged t =
      let (said, refusals) = judge_each judged affected_tasks (t, 0) in
      if refusals == 0
      then check_line rt true (text "task lifecycle records are consistent") said
      else said

  unfoldable pub judge_tampered : Transcript → Transcript
  unfolding check_line is_empty tampered_records text join_comma
  judge_tampered t =
      let tampered = tampered_records c in
      check_line rt (is_empty tampered)
        (if is_empty tampered
          then text "evidence records are append-only"
          else text "append-only violation, records modified, deleted or renamed: "
            ++ join_comma tampered)
        t

  unfoldable pub say_added : List Text → Transcript → Transcript
  unfolding check_line is_empty sorted text join_semicolon
  say_added invalid t =
      if not (is_empty invalid)
      then check_line rt false (text "invalid added records: " ++ join_semicolon (sorted invalid)) t
      else check_line rt true (text "added records are valid") t

  unfoldable pub judge_added : Transcript → Result Transcript
  unfolding say_added invalid_records added_records
  judge_added t = invalid_records rt c (added_records c) >>= λ invalid. ok (say_added invalid t)

  unfoldable pub judge_collisions : Transcript → Transcript
  unfolding check_line is_empty colliding_records sorted text join_comma
  judge_collisions t =
      let colliding = colliding_records c in
      if not (is_empty colliding)
      then check_line rt false
          (text "record paths already exist on the base: " ++ join_comma (sorted colliding)) t
      else check_line rt true (text "no record-path collisions with the base tree") t

  -- The four checks, in the order of `run_gate`.
  unfoldable pub judge_evidence : Text → Transcript → Result Transcript
  unfolding judge_lifecycle judge_tampered judge_added judge_collisions
  judge_evidence judged t =
      judge_added (judge_tampered t) >>= λ said. ok (judge_lifecycle judged (judge_collisions said))
