-- ===== src/Records/Builders/Create.antt =====
-- src/agentmarshal/journal/records.py: the functions `create_…_record` that build the life cycle's
-- records and the findings'.
use agentmarshal.Common.{
  plain, labelled, refused, Result, ok, guard, ◌>>◌, Text, text, ℕ, String, Bool, true, false, not,
  ◌&&◌, Option, none, some, List, [], ◌∷◌,
}
use agentmarshal.Json.{pos, Json, int, str, arr, obj, Items, nil, cons, Fields, end, field, put}
use agentmarshal.Registry.{
  RecordType, opened, completed, abandoned, reopened, amendment, finding, agreement, name,
}
use agentmarshal.Records.Builders.Stamp.{minimum_schema}

-- What every builder is given: the task, the tool's version, the time of the call in the text form of
-- `datetime.now(UTC)`, and the source.
pub record Origin : Type 0 where
  pub task : Text
  pub tool_version : Text
  pub created_at : Text
  pub source : Text

-- `record["schema"] = _minimum_schema(record)`
unfoldable pub with_schema : Fields → Fields
with_schema r = put r (text "schema") (int (pos (minimum_schema r)))

-- `if value is not None: record[name] = value`
unfoldable pub with_optional : String → Option Json → Fields → Fields
with_optional k none r = r
with_optional k (some v) r = put r (text k) v

abbrev pub entry : String → Json → Fields → Fields
entry k v r = field (text k) v r

-- The fields that every builder writes before the record's own.
abbrev pub opening_fields : RecordType → Origin → Fields → Fields
opening_fields t o rest = entry "record_type" (str (text (name t))) (
    entry "task" (str o.task)
      (entry "created_at" (str o.created_at) (entry "tool_version" (str o.tool_version) rest)))

abbrev pub source_field : Origin → Fields
source_field o = entry "source" (str o.source) end

abbrev pub str_option : Option Text → Option Json
str_option none = none
str_option (some s) = some (str s)

unfoldable pub texts : List Text → Items
texts [] = nil
texts (s ∷ ss) = cons (str s) (texts ss)

unfoldable pub objects : List Fields → Items
objects [] = nil
objects (r ∷ rs) = cons (obj r) (objects rs)

unfoldable pub create_opened_record : Origin → Option Text → Fields
create_opened_record o contract =
    with_schema
      (with_optional "contract" (str_option contract) (opening_fields opened o (source_field o)))

abbrev pub is_given : {A : Type 0} → Option A → Bool
is_given none = false
is_given (some a) = true

-- `(a is None) == (b is None)`
abbrev pub both_or_neither : {A B : Type 0} → Option A → Option B → Bool
both_or_neither none none = true
both_or_neither none (some b) = false
both_or_neither (some a) none = false
both_or_neither (some a) (some b) = true

abbrev pub binding_field : String → Option Text → String → Option Text → Fields → Fields
binding_field finding_field (some id) commit_field commit r = put r (text finding_field) (str id)
binding_field finding_field none commit_field commit r =
    with_optional commit_field (str_option commit) r

abbrev obj_option : Option Fields → Option Json
obj_option none = none
obj_option (some r) = some (obj r)

unfoldable pub create_completed_record :
    Origin → Option Text → Option Text → Option Fields → Result Fields
create_completed_record o commit id dispositions = do
  guard (not (both_or_neither commit id)) (
      refused (plain "completed record")
        "must name exactly one of 'completed_commit' or 'completed_finding'")
  guard (not (is_given id && is_given dispositions)) (
      refused (labelled "completed record field" "advisory_dispositions")
        "binds by 'completed_commit', never 'completed_finding'")
  ok (
      with_schema (
        with_optional "advisory_dispositions" (obj_option dispositions) (
          binding_field "completed_finding" id "completed_commit" commit
            (opening_fields completed o (source_field o)))))

unfoldable pub create_finding_record : Origin → Text → List Fields → Fields
create_finding_record o summary artifacts = with_schema (
    opening_fields finding o (
      entry "summary" (str summary) (entry "artifacts" (arr (objects artifacts)) (source_field o))))

unfoldable pub create_abandoned_record : Origin → Text → Fields
create_abandoned_record o reason =
    with_schema (opening_fields abandoned o (entry "reason" (str reason) (source_field o)))

unfoldable pub create_reopened_record : Origin → Text → Fields
create_reopened_record o reason =
    with_schema (opening_fields reopened o (entry "reason" (str reason) (source_field o)))

unfoldable pub create_amendment_record : Origin → Text → Option Text → Fields
create_amendment_record o reason contract = with_schema (
    with_optional "contract" (str_option contract)
      (opening_fields amendment o (entry "reason" (str reason) (source_field o))))

unfoldable pub create_agreement_record : Origin → Text → Fields
create_agreement_record o contract =
    with_schema (opening_fields agreement o (entry "contract" (str contract) (source_field o)))

-- `session_record_schema`
unfoldable pub session_record_schema : Text → ℕ
session_record_schema activity =
    minimum_schema
      (entry "record_type" (str (text "session")) (entry "activity" (str activity) end))
