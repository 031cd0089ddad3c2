-- ===== src/Gate/Base/Facts.antt =====
-- src/agentmarshal/journal/gate.py: what may be added to a task that is closed on the base tree.
use agentmarshal.Common.{
  all, is_empty, All, All-map, all-All, Text, starts_with, if◌then◌else◌, and-eq-true, ◌≡◌, refl,
  sym, ◌∙◌, Bool, true, false, not, ◌&&◌, Option, none, some, List, arith,
}
use agentmarshal.Registry.{State}
use agentmarshal.Runtime.{Runtime}
use agentmarshal.Gate.Transcript.{Transcript, check_line, is_clear}
use agentmarshal.Gate.Paths.{record_type_from_record_path}
use agentmarshal.Gate.Base.{
  Candidate, is_added, added_records, task_dir_prefix, task_records_prefix, latest_at_base,
  is_closing, is_admitted_after_terminal, terminal_state_at_base, admits_all, admitted_records_only,
  say_base,
}
use agentmarshal.Gate.Transcript.Counted.{check_clear}

-- Additions alone, inside the task's directory, and records alone of the types that the state which
-- the task has on the base admits.
pub record IsAppended (c : Candidate) (task : Text) : Type 0 where
  pub terminal : State
  pub reached : terminal_state_at_base (latest_at_base c.base_tree task) ≡ some terminal
  pub added : All (λ change. is_added change ≡ true) c.changes
  pub inside : All (λ change. starts_with change.1 (task_dir_prefix task) ≡ true) c.changes
  pub some_record : is_empty (added_records c) ≡ false
  pub placed : All (λ path. starts_with path (task_records_prefix task) ≡ true) (added_records c)
  pub admitted :
      All
        (λ path. is_admitted_after_terminal (record_type_from_record_path path) terminal ≡ true)
        (added_records c)

not_empty : (b : Bool) → not b ≡ true → b ≡ false
not_empty b h = ground (arith, h)

admitted_by :
    (terminal : Option State) (paths : List Text)
    → admits_all terminal paths ≡ true
    → (s : State) × (terminal ≡ some s)
      × All (λ path. is_admitted_after_terminal (record_type_from_record_path path) s ≡ true) paths
unfolding admits_all
admitted_by none paths h = cc
admitted_by (some s) paths h = (
  s,
  refl,
  all-All (λ path. is_admitted_after_terminal (record_type_from_record_path path) s) paths h,
)

admitted_records_only-IsAppended :
    (c : Candidate) (task : Text)
    → admitted_records_only c task (terminal_state_at_base (latest_at_base c.base_tree task)) ≡ true
    → IsAppended c task
unfolding admitted_records_only
admitted_records_only-IsAppended c task h =
    let (given, h1) = and-eq-true (not (is_empty (added_records c))) _ h in
    let (changes, h2) = and-eq-true (all _ c.changes) _ h1 in
    let (types, placed) = and-eq-true (admits_all _ (added_records c)) _ h2 in
    let (s, reached, admitted) = admitted_by _ (added_records c) types in
    let each_change =
      all-All (λ change. is_added change && starts_with change.1 (task_dir_prefix task)) c.changes
        changes in
    record {
      terminal = s;
      reached = reached;
      added =
          All-map c.changes
            (λ change g.
              (and-eq-true (is_added change) (starts_with change.1 (task_dir_prefix task)) g).0)
            each_change;
      inside =
          All-map c.changes
            (λ change g.
              (and-eq-true (is_added change) (starts_with change.1 (task_dir_prefix task)) g).1)
            each_change;
      some_record = not_empty (is_empty (added_records c)) given;
      placed =
          all-All (λ path. starts_with path (task_records_prefix task)) (added_records c) placed;
      admitted = admitted;
    }

never : (b : Bool) → (b && false) ≡ true → ⊥
never b h = ground (arith, h)

let_through :
    (rt : Runtime) (closing admitted : Bool) (x y : Transcript) (message : Text) (t : Transcript)
    → closing ≡ true
    → is_clear (if not closing then x else if admitted then y else check_line rt false message t)
      ≡ true
    → admitted ≡ true
let_through rt true true x y message t e h = refl
let_through rt true false x y message t e h =
    absurd (never (is_clear t) (sym (check_clear rt false message t) ∙ h))
let_through rt false admitted x y message t e h = cc

-- Where the latest lifecycle record of a task on the base closes it, the gate's first check passes only a
-- candidate that adds files alone, in the task's directory, and at least one record there, each of a
-- type that the task's state on the base admits.
pub say_base-IsAppended :
    (rt : Runtime) (c : Candidate) (task : Text) (state : State) (t : Transcript)
    → is_closing (latest_at_base c.base_tree task) ≡ true
    → is_clear (say_base rt c task state t) ≡ true
    → IsAppended c task
unfolding say_base
say_base-IsAppended rt c task state t closed h =
    admitted_records_only-IsAppended c task (let_through rt _ _ _ _ _ t closed h)
