-- ===== src/Complete/Finish.antt =====
-- src/agentmarshal/journal/complete.py: `complete_findings_task`, up to the record that it writes: what
-- `validate_record_for_write` gives is what the file holds. The task is as `load_task_status` gives it.
use agentmarshal.Common.{
  is_empty, lifecycle_refused, Result, ok, err, pass, ◌>>◌, ◌>>=◌, >>-ok, >>=-ok, Text,
  if◌then◌else◌, ◌≡◌, refl, sym, ap, ◌∙◌, Bool, true, false, not, Option, none, some, List, [], ◌∷◌,
}
use agentmarshal.Json.{Fields}
use agentmarshal.Runtime.{Runtime}
use agentmarshal.Registry.{completed, finding}
use agentmarshal.Records.Files.{RecordFile, validate_record_for_write}
use agentmarshal.Records.Builders.Create.{Origin, create_completed_record}
use agentmarshal.Status.Projection.{guard_record}
use agentmarshal.Gate.Identity.{Host, Task, GateReport, last_of}
use agentmarshal.Gate.Findings.{given_text, run_findings_gate}
use agentmarshal.Gate.Diff.RoundTrip.{written}
use agentmarshal.Gate.Lines.{id_of, records_of}
use agentmarshal.Gate.Findings.Cleared.{passed-releasable, run_findings_gate-resolved}
use agentmarshal.Contracts.Header.{strip}
use agentmarshal.Gate.Paths.{sidecar_tampered_records}
use agentmarshal.Gate.Findings.Released.{releasable}

-- `LifecycleError(str(error))`
unfoldable pub as_lifecycle_error {ℓ} : {A : Type ℓ} → Result A → Result A
as_lifecycle_error (ok value) = ok value
as_lifecycle_error (err e) = err (lifecycle_refused "the step is refused")

-- What `write_record` validates and writes.
unfoldable pub completion :
    Runtime → Option (Text × Text) → List RecordFile → Origin → Text → Result Fields
unfolding create_completed_record validate_record_for_write
completion rt resolved files o finding_id =
    create_completed_record o none (some finding_id) none >>= λ r.
    validate_record_for_write rt resolved o.task files none r

unfoldable pub finish :
    Runtime
    → Option (Text × Text)
    → List RecordFile
    → Origin
    → GateReport
    → Option Text
    → Result (GateReport × Option Fields)
unfolding as_lifecycle_error completion
finish rt resolved files o report none =
    err (lifecycle_refused "findings gate passed without resolving a finding")
finish rt resolved files o report (some finding_id) =
    as_lifecycle_error (completion rt resolved files o finding_id) >>= λ out. ok (report, some out)

unfoldable pub complete_findings_task :
    Runtime
    → Host
    → Result Task
    → Option (Text × Text)
    → List RecordFile
    → Origin
    → Result (GateReport × Option Fields)
unfolding as_lifecycle_error guard_record run_findings_gate finish
complete_findings_task rt host loaded resolved files o =
    as_lifecycle_error (loaded >>= λ task. guard_record completed task.state)
    >> (as_lifecycle_error (run_findings_gate rt host loaded) >>= λ report.
        if not report.passed
        then ok (report, none)
        else finish rt resolved files o report report.resolved_finding)

as_lifecycle_error-ok {ℓ} :
    {A : Type ℓ} (r : Result A) (value : A) → as_lifecycle_error r ≡ ok value → r ≡ ok value
unfolding as_lifecycle_error
as_lifecycle_error-ok (ok v) value h = h
as_lifecycle_error-ok (err e) value h = cc

same_outcome : (a b : GateReport × Option Fields) → ok a ≡ ok b → b ≡ a
same_outcome a b h = cc

-- What has held where a completion over findings writes a record.
pub record IsCompleted (rt : Runtime) (host : Host) (task : Task) (tampered : List Text)
    (resolved : Option (Text × Text)) (files : List RecordFile) (o : Origin) (out : Fields)
    : Type 0 where
  pub admitted : guard_record completed task.state ≡ pass
  pub cleared : releasable rt host task tampered ≡ true
  pub created : Fields
  pub names_finding :
      create_completed_record o none (some (id_of (last_of (records_of finding task.records)))) none
      ≡ ok created
  pub valid : validate_record_for_write rt resolved o.task files none created ≡ ok out

completion-parts :
    (rt : Runtime) (resolved : Option (Text × Text)) (files : List RecordFile) (o : Origin)
    (id : Text) (out : Fields)
    → completion rt resolved files o id ≡ ok out
    → (r : Fields) × (create_completed_record o none (some id) none ≡ ok r)
      × (validate_record_for_write rt resolved o.task files none r ≡ ok out)
unfolding completion
completion-parts rt resolved files o id out h =
    >>=-ok (create_completed_record o none (some id) none) _ h

given : (s id : Text) → given_text s ≡ some id → s ≡ id
given [] id h = cc
given (c ∷ s) id h = cc

same_written :
    (a b : GateReport) (x y : Fields)
    → ◌≡◌ {A = Result (GateReport × Option Fields)} (ok (a, some x)) (ok (b, some y))
    → y ≡ x
same_written a b x y h = cc

-- The branch that was taken, where a record is written.
went_on :
    (passed : Bool) (r report : GateReport) (next : Result (GateReport × Option Fields))
    (out : Fields)
    → (if not passed then ok (r, none) else next) ≡ ok (report, some out)
    → (passed ≡ true) × (next ≡ ok (report, some out))
went_on true r report next out h = (refl, h)
went_on false r report next out h = cc

finished :
    (rt : Runtime) (resolved : Option (Text × Text)) (files : List RecordFile) (o : Origin)
    (report seen : GateReport) (found : Option Text) (out : Fields)
    → finish rt resolved files o report found ≡ ok (seen, some out)
    → (id : Text) × (found ≡ some id) × (completion rt resolved files o id ≡ ok out)
unfolding finish
finished rt resolved files o report seen none out h = cc
finished rt resolved files o report seen (some id) out h =
    let (written, w, h1) = >>=-ok (as_lifecycle_error (completion rt resolved files o id)) _ h in
    (
      id,
      refl,
      as_lifecycle_error-ok (completion rt resolved files o id) written w
          ∙ ap ok (sym (same_written report seen written out h1)),
    )

-- A completion over findings, of a task whose sidecar git can be read, writes a record only where the
-- task admits a completion, the findings gate's conditions on the task hold, and the record is what
-- `validate_record_for_write` gives for the one that `create_completed_record` builds over the task's
-- latest finding.
pub complete_findings_task-IsCompleted :
    (rt : Runtime) (host : Host) (task : Task) (tampered : List Text)
    (resolved : Option (Text × Text)) (files : List RecordFile) (o : Origin) (report : GateReport)
    (out : Fields)
    → sidecar_tampered_records (λ s. is_empty (strip rt s)) host.git ≡ ok tampered
    → complete_findings_task rt host (ok task) resolved files o ≡ ok (report, some out)
    → IsCompleted rt host task tampered resolved files o out
unfolding complete_findings_task
complete_findings_task-IsCompleted rt host task tampered resolved files o report out seen h =
    let (admitted, h1) = >>-ok (as_lifecycle_error (guard_record completed task.state)) _ h in
    let (r, a, h2) = >>=-ok (as_lifecycle_error (run_findings_gate rt host (ok task))) _ h1 in
    let run = as_lifecycle_error-ok (run_findings_gate rt host (ok task)) r a in
    let (passed, h3) =
      went_on r.passed r report (finish rt resolved files o r r.resolved_finding) out h2 in
    let (id, found, written) = finished rt resolved files o r report r.resolved_finding out h3 in
    let named = given _ id (sym (run_findings_gate-resolved rt host task r run) ∙ found) in
    let (created, built, valid) =
      completion-parts rt resolved files o (id_of (last_of (records_of finding task.records))) out
        (rw named written) in
    record {
      admitted = as_lifecycle_error-ok (guard_record completed task.state) tt admitted;
      cleared = sym (passed-releasable rt host task tampered r seen run) ∙ passed;
      created = created;
      names_finding = built;
      valid = valid;
    }
