-- ===== src/Records/ReadBack.antt =====
-- src/agentmarshal/journal/records.py: the write path against the read path (ADR-0015, decision 1).
-- The contexts are those of `validate_record_for_write` and of `read_records`.
use agentmarshal.Common.{
  All, All-map, Error, Result, ok, Check, pass, guard, Text, text_eq_refl, ◌≡◌, refl, Bool, true,
  false, none, some, List, [], ◌∷◌, arith,
}
use agentmarshal.Json.{Fields, ◌!◌, text_of}
use agentmarshal.Runtime.{Runtime}
use agentmarshal.Records.Rules.Placement.{
  RuleContext, check_task_placement, check_filename_record_type, check_finding_binding_target,
}
use agentmarshal.Records.Validate.{Rule, rule, placing_rule, rules, applies, validate_record}
use agentmarshal.Records.Sound.{
  Holds, IsAccepted, validate_record-IsAccepted, validate_record_of_IsAccepted,
}

abbrev pub write_context : Text → Result (List Text) → RuleContext
write_context task finding_ids = record {
  task = some task;
  task_label = "destination";
  filename_record_type = none;
  finding_ids = some finding_ids;
}

abbrev pub read_context : Text → Text → RuleContext
read_context task declared = record {
  task = some task;
  task_label = "directory";
  filename_record_type = some declared;
  finding_ids = none;
}

-- The context of `validate_record_content`.
abbrev pub content_context : Text → RuleContext
content_context declared = record {
  task = none;
  task_label = "";
  filename_record_type = some declared;
  finding_ids = none;
}

abbrev Transfers : RuleContext → RuleContext → Fields → Rule → Type 0
Transfers c d r rule = rule.check c r ≡ pass → rule.check d r ≡ pass

keep : {x : Check} → x ≡ pass → x ≡ pass
keep h = h

-- The parts of a proof for all the rules, in their order.
infixr 20 ◌▸◌
◌▸◌ : {P Q : Type 0} → P → Q → P × Q
p ▸ q = (p, q)

-- The rules other than the three that place a record give the same result in every context.
rules_transfer :
    (rt : Runtime) (c d : RuleContext) (r : Fields)
    → Transfers c d r (placing_rule "task-placement" check_task_placement)
    → Transfers c d r (placing_rule "filename-record-type" check_filename_record_type)
    → Transfers c d r (placing_rule "finding-binding-target" check_finding_binding_target)
    → All (Transfers c d r) (rules rt)
unfolding rules
rules_transfer rt c d r task filename target =
    keep ▸ keep ▸ keep ▸ keep ▸ keep ▸ keep ▸ keep ▸ keep ▸ keep ▸ keep ▸ keep ▸ keep ▸ keep ▸ keep
    ▸ keep ▸ keep ▸ keep ▸ keep ▸ keep ▸ keep ▸ keep ▸ keep ▸ keep ▸ keep ▸ keep ▸ keep ▸ keep
    ▸ keep ▸ keep ▸ keep ▸ keep ▸ keep ▸ keep ▸ keep ▸ keep ▸ keep ▸ task ▸ filename ▸ target ▸ keep
    ▸ keep ▸ keep ▸ keep ▸ tt

module _ (P Q : Rule → Type 0) where
  All-apply : (xs : List Rule) → All (λ x. P x → Q x) xs → All P xs → All Q xs
  All-apply [] f h = tt
  All-apply (x ∷ xs) f h = (f.0 h.0, All-apply xs f.1 h.1)

-- At write time every rule applies, so a rule that transfers holds where the record is read.
Holds-read :
    (c d : RuleContext) (r : Fields) (rule : Rule)
    → Transfers c d r rule
    → Holds true c r rule
    → Holds false d r rule
unfolding applies
Holds-read c d r rule t h _ = t (h refl)

accepted_read :
    (rt : Runtime) (c d : RuleContext) (r : Fields)
    → All (Transfers c d r) (rules rt)
    → IsAccepted rt true c r
    → validate_record rt false d r ≡ ok r
accepted_read rt c d r t a = validate_record_of_IsAccepted rt false d r (record {
  version = a.version;
  every_rule =
      All-apply (Holds true c r) (Holds false d r) (rules rt)
        (All-map (rules rt) (Holds-read c d r) t) a.every_rule;
  writable = refl;
})

guard_any_error : (b : Bool) (e f : Error) → guard b e ≡ pass → guard b f ≡ pass
guard_any_error true e f h = refl
guard_any_error false e f h = cc

task_transfer :
    (task : Text) (c d : RuleContext) (r : Fields)
    → c.task ≡ some task
    → d.task ≡ some task
    → check_task_placement c r ≡ pass
    → check_task_placement d r ≡ pass
unfolding check_task_placement
task_transfer task c d r p q h = ground arith

filename_self :
    (c : RuleContext) (r : Fields)
    → c.filename_record_type ≡ some (text_of (r ! "record_type"))
    → check_filename_record_type c r ≡ pass
unfolding check_filename_record_type
filename_self c r p = ground (arith, text_eq_refl (text_of (r ! "record_type")))

no_target :
    (c : RuleContext) (r : Fields) → c.finding_ids ≡ none → check_finding_binding_target c r ≡ pass
unfolding check_finding_binding_target
no_target c r p = ground arith

own_task :
    (c : RuleContext) (r : Fields)
    → c.task ≡ some (text_of (r ! "task"))
    → check_task_placement c r ≡ pass
unfolding check_task_placement
own_task c r p = ground (arith, text_eq_refl (text_of (r ! "task")))

same_filename :
    (c d : RuleContext) (r : Fields)
    → c.filename_record_type ≡ d.filename_record_type
    → check_filename_record_type c r ≡ pass
    → check_filename_record_type d r ≡ pass
unfolding check_filename_record_type
same_filename c d r p h = ground arith

-- Whatever record validation accepts on the write path for a task, with whatever finding ids of
-- the task, validation accepts on the read path from that task's directory, under a file name with
-- the record's own type, and gives back unchanged.
pub written_reads_back :
    (rt : Runtime) (task : Text) (finding_ids : Result (List Text)) (r : Fields) {out : Fields}
    → validate_record rt true (write_context task finding_ids) r ≡ ok out
    → validate_record rt false (read_context task (text_of (r ! "record_type"))) r ≡ ok r
written_reads_back rt task finding_ids r h =
    let c = write_context task finding_ids in
    let d = read_context task (text_of (r ! "record_type")) in
    accepted_read rt c d r
      (rules_transfer rt c d r (task_transfer task c d r refl refl) (λ _. filename_self d r refl)
        (λ _. no_target d r refl))
      (validate_record-IsAccepted rt true c r h)

-- Whatever record validation accepts for the gate's content check under a file name, validation
-- accepts on the read path from the directory of the task that the record names, under the same
-- file name, and gives back unchanged.
pub content_reads_back :
    (rt : Runtime) (declared : Text) (r : Fields) {out : Fields}
    → validate_record rt true (content_context declared) r ≡ ok out
    → validate_record rt false (read_context (text_of (r ! "task")) declared) r ≡ ok r
content_reads_back rt declared r h =
    let c = content_context declared in
    let d = read_context (text_of (r ! "task")) declared in
    accepted_read rt c d r
      (rules_transfer rt c d r (λ _. own_task d r refl) (same_filename c d r refl)
        (λ _. no_target d r refl))
      (validate_record-IsAccepted rt true c r h)
