-- ===== src/Records/Files.antt =====
-- src/agentmarshal/journal/records.py: `read_records`, `validate_record_content` and
-- `validate_record_for_write`, over the record files of a task's directory in path order. The files are
-- regular and their contents decoded; symbolic links and other refusals of the file system are left out.
pub mod Kept
pub mod Written
use agentmarshal.Common.{
  plain, refused, Result, ok, err, Check, guard, ◌>>◌, ◌>>=◌, Text, text, leb, if◌then◌else◌, Bool,
  true, false, not, ◌||◌, Option, none, some, List, [], ◌∷◌,
}
use agentmarshal.Json.{Json, str, obj, Fields, put, ◌!◌, has, text_of}
use agentmarshal.Runtime.{Runtime}
use agentmarshal.Registry.{finding}
use agentmarshal.Records.Schema.{is_type, schema_of}
use agentmarshal.Records.Patterns.{task_id_matches, is_ulid, match_record_filename}
use agentmarshal.Records.Validate.{validate_record}
use agentmarshal.Records.ReadBack.{write_context, read_context, content_context}

pub record RecordFile : Type 0 where
  pub file_name : Text
  pub content : Text

unfoldable pub validate_task_id : Text → Check
unfolding task_id_matches
validate_task_id task =
    guard (task_id_matches task) (refused (plain "task id") "must match CR-<number>")

-- The two groups of the file name's match.
unfoldable pub matched_name : Option (Text × Text) → Result (Text × Text)
matched_name none = err (refused (plain "record filename") "is malformed")
matched_name (some groups) = ok groups

unfoldable pub loaded_object : Option Json → Result Fields
loaded_object none = err (refused (plain "record") "is invalid JSON")
loaded_object (some (obj r)) = ok r
loaded_object (some _) = err (refused (plain "record") "must contain a JSON object")

unfoldable pub validate_record_content : Runtime → RecordFile → Result Fields
validate_record_content rt f = matched_name (match_record_filename f.file_name) >>= λ groups.
    loaded_object (rt.json_loads f.content) >>= λ loaded.
    validate_record rt true (content_context groups.1) loaded

-- `record["id"] = filename["record_id"]`
abbrev pub with_id : Text → Fields → Fields
with_id record_id r = put r (text "id") (str record_id)

-- One turn of the loop of `read_records`.
unfoldable pub read_record : Runtime → Text → RecordFile → Result Fields
read_record rt task f = matched_name (match_record_filename f.file_name) >>= λ groups.
    loaded_object (rt.json_loads f.content) >>= λ loaded.
    validate_record rt false (read_context task groups.1) loaded >>= λ r. ok (with_id groups.0 r)

unfoldable pub read_each : Runtime → Text → List RecordFile → Result (List Fields)
read_each rt task [] = ok []
read_each rt task (f ∷ files) =
    read_record rt task f >>= λ r. read_each rt task files >>= λ rs. ok (r ∷ rs)

unfoldable pub read_records : Runtime → Text → List RecordFile → Result (List Fields)
read_records rt task files = validate_task_id task >> read_each rt task files

-- The ids of the finding records among these.
unfoldable pub ids_of_findings : List Fields → List Text
ids_of_findings [] = []
ids_of_findings (r ∷ rs) =
    let rest = ids_of_findings rs in if is_type finding r then text_of (r ! "id") ∷ rest else rest

unfoldable pub finding_ids : Runtime → Text → List RecordFile → Result (List Text)
finding_ids rt task files = read_records rt task files >>= λ rs. ok (ids_of_findings rs)

-- The recorder that `resolve_recorded_by` finds, with where it is from, on a record of schema 2 or above.
unfoldable pub with_recorder : Option (Text × Text) → Fields → Fields
with_recorder none r = r
with_recorder (some (actor, origin)) r =
    if leb 2 (schema_of r)
    then put (put r (text "recorded_by") (str actor)) (text "recorded_by_source") (str origin)
    else r

unfoldable pub is_identifier : Option Text → Bool
is_identifier none = true
is_identifier (some record_id) = is_ulid record_id

unfoldable pub validate_record_for_write :
    Runtime → Option (Text × Text) → Text → List RecordFile → Option Text → Fields → Result Fields
validate_record_for_write rt resolved task files record_id r = do
  guard (not (has r "recorded_by" || has r "recorded_by_source"))
      (refused (plain "recorded_by") "is derived from the environment and must not be supplied")
  checked ←
      validate_record rt true (write_context task (finding_ids rt task files))
        (with_recorder resolved r)
  guard (is_identifier record_id)
      (refused (plain "record id") "must be a 26-character Crockford base32 ULID")
  ok checked
