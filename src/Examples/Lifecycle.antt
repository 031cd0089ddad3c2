-- ===== src/Examples/Lifecycle.antt =====
-- src/agentmarshal/journal/status.py: the theorems on the projection at the records of small tasks.
use agentmarshal.Common.{
  All, ok, text, String, ◌≡◌, refl, ◌≢◌, ◌↔◌, ◌⊎◌, none, some, List, [], ◌∷◌, ◌++◌,
}
use agentmarshal.Json.{str, Fields, end, field}
use agentmarshal.Registry.{
  RecordType, opened, review, completed, abandoned, reopened, session, State, open_state,
  done_state, abandoned_state, record_types, same_type, same_state, includes,
}
use agentmarshal.Status.Projection.{
  is_terminal, admitted_after, admitted_after_state, project_type, project_types, conclude,
  project_status_of, project_status, guard_record, load_task_for_record,
}
use agentmarshal.Status.Phases.{IsMeasurement, Run}
use agentmarshal.Status.Order.{
  IsReopenedLater, abandonment_is_final, completion_yields_to_reopening_alone,
}
use agentmarshal.Status.Guard.{count_opened, guard_admits_what_projects, guard_refuses_nothing_more}
use agentmarshal.Status.Typed.{AreTypes}
use agentmarshal.Status.Exact.{project_status-exact}

abbrev worked : List RecordType
worked = opened ∷ review ∷ []

abbrev given_up : List RecordType
given_up = opened ∷ abandoned ∷ session ∷ []

abbrev brought_back : List RecordType
brought_back = opened ∷ completed ∷ reopened ∷ []

abbrev typed_record : String → Fields
typed_record t = field (text "record_type") (str (text t)) end

projected :
    (load_task_for_record worked completed ≡ ok open_state)
    × (project_status_of worked ≡ ok open_state)
    × (project_status_of (worked ++ completed ∷ []) ≡ ok done_state)
    × (project_status_of ((opened ∷ []) ++ abandoned ∷ session ∷ []) ≡ ok abandoned_state)
    × (project_status_of ((opened ∷ []) ++ completed ∷ reopened ∷ []) ≡ ok open_state)
unfolding load_task_for_record guard_record project_status_of project_types project_type conclude
    admitted_after_state admitted_after record_types is_terminal includes same_state same_type
projected = (refl, refl, refl, refl, refl)

completed_is_not_opened : completed ≢ opened
completed_is_not_opened h = cc

guard_admits_what_projects_example :
    (s' : State) × (project_status_of (worked ++ completed ∷ []) ≡ ok s')
guard_admits_what_projects_example =
    guard_admits_what_projects worked completed open_state completed_is_not_opened projected.0

guard_refuses_nothing_more_example : load_task_for_record worked completed ≡ ok open_state
guard_refuses_nothing_more_example =
    guard_refuses_nothing_more worked completed open_state done_state projected.1 projected.2

abandonment_is_final_example :
    All IsMeasurement (session ∷ []) × (abandoned_state ≡ abandoned_state)
abandonment_is_final_example =
    abandonment_is_final (opened ∷ []) (session ∷ []) abandoned_state projected.3

completion_yields_to_reopening_alone_example :
    IsReopenedLater (reopened ∷ [])
    ⊎ (All IsMeasurement (reopened ∷ []) × (open_state ≡ done_state))
completion_yields_to_reopening_alone_example =
    completion_yields_to_reopening_alone (opened ∷ []) (reopened ∷ []) open_state projected.4

project_status-exact_example :
    (project_status (typed_record "opened" ∷ typed_record "review" ∷ []) ≡ ok open_state) ↔ (
      (ts : List RecordType) × AreTypes (typed_record "opened" ∷ typed_record "review" ∷ []) ts
      × (count_opened ts ≡ 1)
      × Run none ts (some open_state))
project_status-exact_example =
    project_status-exact (typed_record "opened" ∷ typed_record "review" ∷ []) open_state
