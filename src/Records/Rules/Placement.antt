-- ===== src/Records/Rules/Placement.antt =====
-- src/agentmarshal/journal/records.py: the finding binding, and the rules that compare a record with
-- where it lies. `finding_ids` reads the task's records, so it may refuse.
use agentmarshal.Common.{
  plain, labelled, refused, Result, ok, err, Check, pass, guard, guard-ok, Text, text_eq,
  contains_text, ltb, if◌then◌else◌, String, ◌≡◌, refl, Bool, true, not, ◌&&◌, ◌||◌, Option, none,
  some, List, [], ◌∷◌, arith,
}
use agentmarshal.Json.{Json, Fields, ◌!◌, has, text_of}
use agentmarshal.Registry.{finding}
use agentmarshal.Records.Schema.{schema_4_fields, is_type, schema_of, has_any}
use agentmarshal.Records.Forgeable.{when}

pub record RuleContext : Type 0 where
  pub task : Option Text
  pub task_label : String
  pub filename_record_type : Option Text
  pub finding_ids : Option (Result (List Text))

unfoldable pub check_finding_binding : Fields → Check
unfolding is_type has_any schema_of
check_finding_binding r =
    guard (not ((is_type finding r || has_any r schema_4_fields) && ltb (schema_of r) 4))
      (refused (plain "finding records and finding bindings") "require schema 4")

unfoldable pub matches_declared : Option Text → Text → Bool
unfolding text_eq
matches_declared none value = true
matches_declared (some expected) value = text_eq value expected

unfoldable pub check_task_placement : RuleContext → Fields → Check
unfolding matches_declared text_of ◌!◌
check_task_placement context r =
    guard (matches_declared context.task (text_of (r ! "task")))
      (refused (labelled "record task does not match its" context.task_label) "")

unfoldable pub check_filename_record_type : RuleContext → Fields → Check
unfolding matches_declared text_of ◌!◌
check_filename_record_type context r =
    guard (matches_declared context.filename_record_type (text_of (r ! "record_type")))
      (refused (plain "record type") "does not match its filename")

-- `next(iter(bindings))`: the fields rule admits at most one of the three on any record type.
unfoldable pub bound_finding : Fields → List String → Option Json
unfolding has ◌!◌
bound_finding r [] = none
bound_finding r (k ∷ ks) = let rest = bound_finding r ks in if has r k then r ! k else rest

target_in : Option Json → Result (List Text) → Check
unfolding contains_text text_of
target_in target (err e) = err e
target_in target (ok ids) =
    guard (contains_text (text_of target) ids)
      (refused (plain "record field") "must name a finding in the same task")

abbrev target_in_known : Option Json → Option (Result (List Text)) → Check
target_in_known target none = pass
target_in_known target (some ids) = target_in target ids

unfoldable pub check_finding_binding_target : RuleContext → Fields → Check
unfolding has_any bound_finding target_in
check_finding_binding_target context r =
    when (has_any r schema_4_fields)
      (target_in_known (bound_finding r schema_4_fields) context.finding_ids)

target_in-ok :
    (target : Option Json) (ids : Result (List Text))
    → target_in target ids ≡ pass
    → (known : List Text) × (ids ≡ ok known) × (contains_text (text_of target) known ≡ true)
unfolding target_in
target_in-ok target (err e) h = cc
target_in-ok target (ok ids) h = (ids, refl, guard-ok _ _ h)

-- A record with a binding that passes the rule names one of the ids that the context yields.
pub bound_finding-known :
    (context : RuleContext) (r : Fields) (ids : Result (List Text))
    → context.finding_ids ≡ some ids
    → has_any r schema_4_fields ≡ true
    → check_finding_binding_target context r ≡ pass
    → (known : List Text) × (ids ≡ ok known)
      × (contains_text (text_of (bound_finding r schema_4_fields)) known ≡ true)
unfolding check_finding_binding_target
bound_finding-known context r ids e bound h =
    target_in-ok (bound_finding r schema_4_fields) ids (ground (arith, e, bound, h))
