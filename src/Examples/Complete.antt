-- ===== src/Examples/Complete.antt =====
-- src/agentmarshal/journal/complete.py: the theorems on completion at a small task.
use agentmarshal.Common.{
  any, Result, ok, pass, ◌>>=◌, Text, text, text_eq, is_unique, ◌≡◌, refl, ap, ◌∙◌, true, Option,
  none, some, List, [], ◌∷◌, map,
}
use agentmarshal.Json.{Json, Fields, put}
use agentmarshal.Runtime.{Runtime}
use agentmarshal.Registry.{completed, finding, named, same_type}
use agentmarshal.Records.Files.{RecordFile, validate_record_for_write}
use agentmarshal.Records.Builders.Create.{Origin, create_completed_record}
use agentmarshal.Status.Projection.{guard_record}
use agentmarshal.Gate.Identity.{Host, Task, GateReport, last_of}
use agentmarshal.Gate.Lines.{id_of, records_of}
use agentmarshal.Gate.Findings.{given_text, run_findings_gate}
use agentmarshal.Gate.Findings.Cleared.{run_findings_gate-resolved}
use agentmarshal.Complete.{FlagArgument, split_flag_arguments}
use agentmarshal.Complete.Flags.{AllSplit, split_flag_arguments-AllSplit}
use agentmarshal.Complete.Finish.{
  as_lifecycle_error, completion, finish, complete_findings_task, IsCompleted,
  complete_findings_task-IsCompleted,
}
use agentmarshal.Examples.Samples.{
  finding_file, simple, finding_id, sample_origin, built_completion,
}
use agentmarshal.Examples.Checked.{samples_accepted, built_facts}
use agentmarshal.Examples.Gate.{
  sample_host, sample_task, nothing_tampered, sample_report, sample_is_releasable,
}
use agentmarshal.Records.Schema.{record_type_of}

abbrev two_ids : List Text
two_ids = text "F" ∷ text "F=1" ∷ []

abbrev two_values : List Text
two_values = text "F=1=keep" ∷ text "F=drop" ∷ []

abbrev two_parsed : List FlagArgument
two_parsed =
    record { flag = text "-d"; finding_id = text "F=1"; value = text "keep" }
    ∷ record { flag = text "-d"; finding_id = text "F"; value = text "drop" }
    ∷ []

two_split : split_flag_arguments (text "-d") two_values two_ids ≡ ok two_parsed
unfolding split_flag_arguments text agentmarshal.Common.any agentmarshal.Common.text_eq
two_split = refl

split_flag_arguments-AllSplit_example :
    AllSplit two_ids two_values two_parsed × (is_unique (map (λ p. p.finding_id) two_parsed) ≡ true)
split_flag_arguments-AllSplit_example =
    split_flag_arguments-AllSplit (text "-d") two_values two_ids two_parsed two_split

latest_id : id_of (last_of (records_of finding sample_task.records)) ≡ finding_id
unfolding text id_of last_of records_of agentmarshal.Records.Schema.record_type_of
    agentmarshal.Registry.named agentmarshal.Json.put agentmarshal.Registry.same_type
latest_id = refl

found : sample_report.0.resolved_finding ≡ some finding_id
unfolding text
found =
    run_findings_gate-resolved simple sample_host sample_task sample_report.0 sample_report.1
    ∙ ap given_text latest_id

goes_on {ℓ κ} :
    {A : Type ℓ} {B : Type κ} (call : Result A) (value : A) (next : A → Result B)
    → call ≡ ok value
    → (call >>= next) ≡ next value
goes_on call value next e = rw e refl

completes :
    (rt : Runtime) (host : Host) (task : Task) (resolved : Option (Text × Text))
    (files : List RecordFile) (o : Origin) (report : GateReport) (id : Text) (r out : Fields)
    → guard_record completed task.state ≡ pass
    → run_findings_gate rt host (ok task) ≡ ok report
    → report.passed ≡ true
    → report.resolved_finding ≡ some id
    → create_completed_record o none (some id) none ≡ ok r
    → validate_record_for_write rt resolved o.task files none r ≡ ok out
    → complete_findings_task rt host (ok task) resolved files o ≡ ok (report, some out)
unfolding complete_findings_task as_lifecycle_error finish
completes rt host task resolved files o report id r out admitted run passed found created checked =
    let written : completion rt resolved files o id ≡ ok out =
      unfold completion in
      (goes_on (create_completed_record o none (some id) none) r
          (validate_record_for_write rt resolved o.task files none) created
        ∙ checked) in
    rw (admitted, run, passed, found, written) refl

sample_completed :
    complete_findings_task simple sample_host
      (ok sample_task)
      none
      (finding_file ∷ [])
      sample_origin
    ≡ ok (sample_report.0, some built_completion)
unfolding guard_record
sample_completed =
    completes simple sample_host sample_task none (finding_file ∷ []) sample_origin sample_report.0
      finding_id built_completion built_completion refl sample_report.1
      (sample_report.2 ∙ sample_is_releasable) found built_facts.2 samples_accepted.8

complete_findings_task-IsCompleted_example :
    IsCompleted simple sample_host sample_task [] none
      (finding_file ∷ [])
      sample_origin
      built_completion
complete_findings_task-IsCompleted_example =
    complete_findings_task-IsCompleted simple sample_host sample_task [] none (finding_file ∷ [])
      sample_origin sample_report.0 built_completion nothing_tampered sample_completed
