-- ===== src/Records/Files/Written.antt =====
-- src/agentmarshal/journal/records.py: a record that `validate_record_for_write` gives, among the files
-- of its task.
use mathlib.Core.Path.{subst}
use agentmarshal.Common.{
  ok, guard, >>-ok, >>=-ok, Text, ◌≡◌, sym, true, not, ◌||◌, Option, some, List, ◌∷◌, ◌++◌,
}
use agentmarshal.Json.{obj, Fields, ◌!◌, has, text_of}
use agentmarshal.Runtime.{Runtime}
use agentmarshal.Registry.{name}
use agentmarshal.Records.Patterns.{match_record_filename}
use agentmarshal.Records.Validate.{validate_record}
use agentmarshal.Records.ReadBack.{write_context, written_reads_back}
use agentmarshal.Records.Files.{
  RecordFile, matched_name, loaded_object, with_id, read_record, read_records, finding_ids,
  with_recorder, is_identifier, validate_record_for_write,
}
use agentmarshal.Records.Files.Kept.{same_result, accepted_again, read_records-insert}

-- What `validate_record_for_write` gives is what validation at write time accepted.
module _ (rt : Runtime) (resolved : Option (Text × Text)) (task : Text) (files : List RecordFile)
    (record_id : Option Text) (r out : Fields)
    (h : validate_record_for_write rt resolved task files record_id r ≡ ok out) where
  written-accepted :
      validate_record rt true (write_context task (finding_ids rt task files)) out ≡ ok out
  unfolding validate_record_for_write
  written-accepted =
      let c = write_context task (finding_ids rt task files) in
      let (_, h1) = >>-ok (guard (not (has r "recorded_by" || has r "recorded_by_source")) _) _ h in
      let (checked, accepted, h2) =
        >>=-ok (validate_record rt true c (with_recorder resolved r)) _ h1 in
      let (_, h3) = >>-ok (guard (is_identifier record_id) _) _ h2 in
      subst (λ x. validate_record rt true c x ≡ ok x) (sym (same_result checked out h3))
        (accepted_again rt true c (with_recorder resolved r) accepted)

-- A record that `validate_record_for_write` gives, in a file whose name has its type and whose
-- content is loaded as that record, put anywhere among the task's files where these are readable,
-- leaves them readable: the other records are read as before, in their order, and the record at
-- its place, with the name's id.
pub written_file_keeps_records :
    (rt : Runtime) (resolved : Option (Text × Text)) (task : Text) (before later : List RecordFile)
    (given : Option Text) (r out : Fields) (f : RecordFile) (record_id : Text) (rs : List Fields)
    → validate_record_for_write rt resolved task (before ++ later) given r ≡ ok out
    → match_record_filename f.file_name ≡ some (record_id, text_of (out ! "record_type"))
    → rt.json_loads f.content ≡ some (obj out)
    → read_records rt task (before ++ later) ≡ ok rs
    → (rs1 : List Fields) × (rs2 : List Fields) × (rs ≡ rs1 ++ rs2)
      × (read_records rt task (before ++ f ∷ later) ≡ ok (rs1 ++ with_id record_id out ∷ rs2))
unfolding read_record matched_name loaded_object
written_file_keeps_records rt resolved task before later given r out f record_id rs h name content
      k =
    let accepted = written-accepted rt resolved task (before ++ later) given r out h in
    let c = finding_ids rt task (before ++ later) in
    let own : read_record rt task f ≡ ok (with_id record_id out) =
      rw (name, content, written_reads_back rt task c out accepted) in
    read_records-insert rt task f (with_id record_id out) before later rs own k
