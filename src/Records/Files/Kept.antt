-- ===== src/Records/Files/Kept.antt =====
-- src/agentmarshal/journal/records.py: a file that the gate's content check accepts, among the files of
-- its task.
use mathlib.Core.Path.{subst}
use agentmarshal.Common.{
  ok, pass, >>-ok, >>=-ok, Text, ◌≡◌, refl, sym, ap, ◌∙◌, Bool, true, Option, none, some, List, [],
  ◌∷◌, ◌++◌,
}
use agentmarshal.Json.{Fields, ◌!◌, text_of}
use agentmarshal.Runtime.{Runtime}
use agentmarshal.Registry.{named}
use agentmarshal.Records.Patterns.{match_record_filename}
use agentmarshal.Records.Rules.Placement.{RuleContext}
use agentmarshal.Records.Validate.{validate_record}
use agentmarshal.Records.Sound.{validate_record-IsAccepted, validate_record_of_IsAccepted}
use agentmarshal.Records.ReadBack.{content_context, content_reads_back}
use agentmarshal.Records.Files.{
  RecordFile, validate_task_id, matched_name, loaded_object, validate_record_content, with_id,
  read_record, read_each, read_records,
}

pub same_result : (a b : Fields) → ok a ≡ ok b → b ≡ a
same_result a b h = cc

-- Validation gives back the record it was given.
pub validate_record-same :
    (rt : Runtime) (for_write : Bool) (context : RuleContext) (r : Fields) {out : Fields}
    → validate_record rt for_write context r ≡ ok out
    → out ≡ r
validate_record-same rt for_write context r {out} h = same_result r out (
    sym (
      validate_record_of_IsAccepted rt for_write context r
        (validate_record-IsAccepted rt for_write context r h))
    ∙ h)

-- Validation accepts again what it gives.
pub accepted_again :
    (rt : Runtime) (for_write : Bool) (context : RuleContext) (r : Fields) {out : Fields}
    → validate_record rt for_write context r ≡ ok out
    → validate_record rt for_write context out ≡ ok out
accepted_again rt for_write context r {out} h =
    subst (λ x. validate_record rt for_write context x ≡ ok x)
      (sym (validate_record-same rt for_write context r h))
      (validate_record_of_IsAccepted rt for_write context r
        (validate_record-IsAccepted rt for_write context r h))

matched :
    (o : Option (Text × Text)) (groups : Text × Text) → matched_name o ≡ ok groups → o ≡ some groups
unfolding matched_name
matched none groups h = cc
matched (some g) groups h = cc

-- What a file accepted by the content check holds.
module _ (rt : Runtime) (f : RecordFile) (r : Fields)
    (h : validate_record_content rt f ≡ ok r) where
  accepted_content :
      (groups : Text × Text) × (matched_name (match_record_filename f.file_name) ≡ ok groups)
      × (loaded_object (rt.json_loads f.content) ≡ ok r)
      × (validate_record rt true (content_context groups.1) r ≡ ok r)
  unfolding validate_record_content
  accepted_content =
      let (groups, named, h1) = >>=-ok (matched_name (match_record_filename f.file_name)) _ h in
      let (loaded, parsed, h2) = >>=-ok (loaded_object (rt.json_loads f.content)) _ h1 in
      let same = validate_record-same rt true (content_context groups.1) loaded h2 in
      (
        groups,
        named,
        parsed ∙ ap ok (sym same),
        accepted_again rt true (content_context groups.1) loaded h2,
      )

  content_file_reads :
      (groups : Text × Text) × (match_record_filename f.file_name ≡ some groups)
      × (read_record rt (text_of (r ! "task")) f ≡ ok (with_id groups.0 r))
  unfolding read_record
  content_file_reads =
      let (groups, named, parsed, accepted) = accepted_content in
      (
        groups,
        matched _ groups named,
        rw (named, parsed, content_reads_back rt groups.1 r accepted),
      )

read_each-cons :
    (rt : Runtime) (task : Text) (f : RecordFile) (files : List RecordFile) (r : Fields)
    (rs : List Fields)
    → read_record rt task f ≡ ok r
    → read_each rt task files ≡ ok rs
    → read_each rt task (f ∷ files) ≡ ok (r ∷ rs)
unfolding read_each
read_each-cons rt task f files r rs h k = rw (h, k)

same_list : (rs ss : List Fields) → ok rs ≡ ok ss → ss ≡ rs
same_list rs ss h = cc

read_each-parts :
    (rt : Runtime) (task : Text) (f : RecordFile) (files : List RecordFile) {rs : List Fields}
    → read_each rt task (f ∷ files) ≡ ok rs
    → (first : Fields) × (rest : List Fields) × (read_record rt task f ≡ ok first)
      × (read_each rt task files ≡ ok rest)
      × (rs ≡ first ∷ rest)
unfolding read_each
read_each-parts rt task f files {rs} h =
    let (first, h1, k1) = >>=-ok (read_record rt task f) _ h in
    let (rest, h2, k2) = >>=-ok (read_each rt task files) _ k1 in
    (first, rest, h1, h2, same_list (first ∷ rest) rs k2)

-- The records read before and after a file put among others.
abbrev pub ReadsAmong :
    Runtime → Text → RecordFile → Fields → List RecordFile → List RecordFile → List Fields → Type 0
ReadsAmong rt task f r before later rs =
    (rs1 : List Fields) × (rs2 : List Fields) × (rs ≡ rs1 ++ rs2)
    × (read_each rt task (before ++ f ∷ later) ≡ ok (rs1 ++ r ∷ rs2))

read_each-insert :
    (rt : Runtime) (task : Text) (f : RecordFile) (r : Fields) (before later : List RecordFile)
    (rs : List Fields)
    → read_record rt task f ≡ ok r
    → read_each rt task (before ++ later) ≡ ok rs
    → ReadsAmong rt task f r before later rs
read_each-insert rt task f r [] later rs h k =
    ([], rs, refl, read_each-cons rt task f later r rs h k)
read_each-insert rt task f r (g ∷ before) later rs h k =
    let (first, rest, h1, h2, e) = read_each-parts rt task g (before ++ later) k in
    let (rs1, rs2, parts, all_read) = read_each-insert rt task f r before later rest h h2 in
    (
      first ∷ rs1,
      rs2,
      e ∙ ap (λ xs. first ∷ xs) parts,
      read_each-cons rt task g (before ++ f ∷ later) first (rs1 ++ r ∷ rs2) h1 all_read,
    )

read_records_of :
    (rt : Runtime) (task : Text) (files : List RecordFile) (rs : List Fields)
    → validate_task_id task ≡ pass
    → read_each rt task files ≡ ok rs
    → read_records rt task files ≡ ok rs
unfolding read_records
read_records_of rt task files rs h k = rw h k

pub read_records-insert :
    (rt : Runtime) (task : Text) (f : RecordFile) (r : Fields) (before later : List RecordFile)
    (rs : List Fields)
    → read_record rt task f ≡ ok r
    → read_records rt task (before ++ later) ≡ ok rs
    → (rs1 : List Fields) × (rs2 : List Fields) × (rs ≡ rs1 ++ rs2)
      × (read_records rt task (before ++ f ∷ later) ≡ ok (rs1 ++ r ∷ rs2))
unfolding read_records
read_records-insert rt task f r before later rs h k =
    let (known, k1) = >>-ok (validate_task_id task) _ k in
    let (rs1, rs2, parts, all_read) = read_each-insert rt task f r before later rs h k1 in
    (rs1, rs2, parts, read_records_of rt task (before ++ f ∷ later) (rs1 ++ r ∷ rs2) known all_read)

-- A file that the gate's content check accepts, put anywhere among readable files of the task that
-- its record names, leaves them readable: the other records are read as before, in their order,
-- and the file's record is read at its place, with the id that the file's name has.
pub accepted_file_keeps_records :
    (rt : Runtime) (f : RecordFile) (r : Fields) (before later : List RecordFile) (rs : List Fields)
    → validate_record_content rt f ≡ ok r
    → read_records rt (text_of (r ! "task")) (before ++ later) ≡ ok rs
    → (rs1 : List Fields) × (rs2 : List Fields) × (groups : Text × Text) × (rs ≡ rs1 ++ rs2)
      × (match_record_filename f.file_name ≡ some groups)
      × (read_records rt (text_of (r ! "task")) (before ++ f ∷ later)
          ≡ ok (rs1 ++ with_id groups.0 r ∷ rs2))
accepted_file_keeps_records rt f r before later rs h k =
    let (groups, named, own) = content_file_reads rt f r h in
    let (rs1, rs2, parts, all_read) =
      read_records-insert rt (text_of (r ! "task")) f (with_id groups.0 r) before later rs own k in
    (rs1, rs2, groups, parts, named, all_read)
