-- ===== src/Status/Projection.antt =====
-- src/agentmarshal/journal/status.py: `project_status` and `load_task_for_record`, over the types of
-- the records in their stored order.
use agentmarshal.Common.{
  status_refused, Result, ok, err, Check, ◌>>=◌, ◌>>◌, guard, if◌then◌else◌, Bool, true, false, not,
  ◌&&◌, ◌||◌, Option, none, some, List, [], ◌∷◌,
}
use agentmarshal.Json.{Fields}
use agentmarshal.Registry.{
  RecordType, opened, reopened, State, open_state, done_state, abandoned_state, record_types,
  same_type, includes,
}
use agentmarshal.Records.Schema.{record_type_of}

unfoldable pub is_terminal : Option State → Bool
is_terminal none = false
is_terminal (some open_state) = false
is_terminal (some done_state) = true
is_terminal (some abandoned_state) = true

-- `record_type_is_admitted_after_terminal`
unfoldable pub admitted_after : RecordType → State → Bool
unfolding includes record_types
admitted_after t s = includes (record_types t).admitted_after_terminal s

-- The three variables of the loop of `project_status`.
pub record Projection : Type 0 where
  pub state : Option State
  pub has_opened_record : Bool
  pub has_terminal_record : Bool

abbrev pub initial : Projection
initial = record { state = none; has_opened_record = false; has_terminal_record = false }

-- `state or ""`: the fallback is no terminal state, and nothing is admitted after it.
unfoldable pub admitted_after_state : RecordType → Option State → Bool
unfolding admitted_after
admitted_after_state t none = false
admitted_after_state t (some s) = admitted_after t s

is_reopened : RecordType → Bool
unfolding same_type
is_reopened t = same_type t reopened

is_opened : RecordType → Bool
unfolding same_type
is_opened t = same_type t opened

abbrev or_state : Option State → Option State → Option State
or_state none old = old
or_state (some s) old = some s

-- The assignments at the end of one turn of the loop, after its refusals.
advance : RecordType → Projection → Projection
unfolding record_types is_terminal is_opened is_reopened
advance t p = record {
  state = or_state (record_types t).projects_to p.state;
  has_opened_record = is_opened t || p.has_opened_record;
  has_terminal_record =
      is_terminal (record_types t).projects_to || (not (is_reopened t) && p.has_terminal_record);
}

-- One turn of the loop, for a record of a known type.
unfoldable pub project_type : Projection → RecordType → Result Projection
unfolding admitted_after_state advance is_opened is_reopened
project_type p t =
    if p.has_terminal_record && not (admitted_after_state t p.state)
    then err (
        status_refused (
          if is_reopened t
          then "an abandoned task cannot be reopened"
          else "task has a lifecycle record after a terminal record"))
    else if is_reopened t && not p.has_terminal_record
    then err (status_refused "task has a reopened record while it is open")
    else if is_opened t && p.has_opened_record
    then err (status_refused "task records contain multiple opened records")
    else ok (advance t p)

unfoldable pub project_types : Projection → List RecordType → Result Projection
project_types p [] = ok p
project_types p (t ∷ ts) = project_type p t >>= λ q. project_types q ts

abbrev conclude_state : Bool → Option State → Result State
conclude_state false s = err (status_refused "task records do not contain an opened record")
conclude_state true none = err (status_refused "task records do not contain an opened record")
conclude_state true (some s) = ok s

unfoldable pub conclude : Projection → Result State
conclude p = conclude_state p.has_opened_record p.state

unfoldable pub project_status_of : List RecordType → Result State
project_status_of ts = project_types initial ts >>= conclude

-- `record_type not in _RECORD_TYPE_STATES` is refused before the rest of the turn.
unfoldable pub known_type : Option RecordType → Result RecordType
known_type none = err (status_refused "record has no status projection")
known_type (some t) = ok t

unfoldable pub project_records : Projection → List Fields → Result Projection
unfolding known_type record_type_of
project_records p [] = ok p
project_records p (r ∷ rs) =
    known_type (record_type_of r) >>= λ t. project_type p t >>= λ q. project_records q rs

unfoldable pub project_status : List Fields → Result State
project_status rs = project_records initial rs >>= conclude

-- The refusals of `load_task_for_record` after it has loaded a task in this state.
unfoldable pub guard_record : RecordType → State → Check
unfolding is_reopened admitted_after
guard_record t open_state = guard (not (is_reopened t)) (status_refused "task cannot be reopened")
guard_record t s =
    guard (admitted_after t s)
      (status_refused (if is_reopened t then "task cannot be reopened" else "task is not open"))

-- `load_task_for_record` on the types of the task's records
unfoldable pub load_task_for_record : List RecordType → RecordType → Result State
unfolding record_types guard_record
load_task_for_record ts t =
    guard (record_types t).writable (status_refused "unknown record type")
    >> (project_status_of ts >>= λ s. guard_record t s >> ok s)
