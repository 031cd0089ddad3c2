-- ===== src/Examples/Gate.antt =====
-- src/agentmarshal/journal/gate.py: the theorems on the gate at a small task and a small candidate.
use mathlib.Core.List.{Permᴰ}
use agentmarshal.Common.{
  all, any, is_empty, All, ok, Text, text, String, ◌≡◌, refl, ◌↔◌, ◌⊎◌, inr, true, false, not, none,
  some, List, [], ◌∷◌,
}
use agentmarshal.Json.{Json, arr, obj, nil, cons, Fields, end, put}
use agentmarshal.Registry.{acceptance, open_state, named, same_type}
use agentmarshal.Records.Files.{with_id}
use agentmarshal.Contracts.Header.{ContractHeader, strip}
use agentmarshal.Gate.Transcript.Told.{is_fail}
use agentmarshal.Gate.Paths.{
  record_path_task, is_append_only_evidence_path, sidecar_tampered_records,
}
use agentmarshal.Gate.Paths.Facts.{IsRecordOf, record_path_task-IsRecordOf}
use agentmarshal.Gate.Diff.{changed_with_status}
use agentmarshal.Gate.Diff.RoundTrip.{
  Change, renamed, touched, is_plain, tokens, meanings, ended, is_token, changed_with_status-ended,
}
use agentmarshal.Gate.Identity.{Host, Task, GateReport}
use agentmarshal.Gate.Findings.{run_findings_gate}
use agentmarshal.Gate.Findings.Released.{releasable}
use agentmarshal.Gate.Findings.Cleared.{run_findings_gate-releasable}
use agentmarshal.Gate.Findings.Told.{findings_report_is_told}
use agentmarshal.Gate.Independence.{distinct_vendor, judge_sessions, judge_independence_rule}
use agentmarshal.Gate.Independence.Verdict.{
  IsIndependent, judged_to_hold-IsIndependent, judge_sessions-perm,
}
use agentmarshal.Examples.Samples.{◌⇒◌, ◌⨾◌, word, sample_reviewer, sample_finding, simple}
use agentmarshal.Examples.Rendering.{simple-AsciiIsPlain}
use agentmarshal.Records.Forgeable.{forges_rendered_text}
use agentmarshal.Records.Schema.{record_type_of}
use agentmarshal.Gate.Verdict.{latest_review_of, latest_acceptance_of, resolved_review, say_verdict}
use agentmarshal.Gate.Verdict.Standing.{IsReviewOf, IsResolved, resolved_review_iff}
use agentmarshal.Gate.Verdict.Resolved.{say_verdict_iff}
use agentmarshal.Gate.Transcript.{blank, is_clear}

record_path_task-IsRecordOf_example :
    IsRecordOf (text "CR-1") (text ".agentmarshal/journal/tasks/CR-1/records/a")
    × (is_append_only_evidence_path (text ".agentmarshal/journal/tasks/CR-1/records/a") ≡ true)
unfolding record_path_task
record_path_task-IsRecordOf_example =
    record_path_task-IsRecordOf (text ".agentmarshal/journal/tasks/CR-1/records/a") (text "CR-1")
      names_task
  where
    names_task :
        record_path_task (text ".agentmarshal/journal/tasks/CR-1/records/a") ≡ some (text "CR-1")
    names_task = refl

abbrev sample_changes : List Change
sample_changes = renamed (text "100") (text "a") (text "b") ∷ touched b'M' [] (text "c") ∷ []

changed_with_status-ended_example :
    changed_with_status (ended (tokens sample_changes)) ≡ ok (meanings sample_changes)
unfolding agentmarshal.Common.all tokens agentmarshal.Gate.Diff.RoundTrip.is_token any text
    agentmarshal.Gate.Diff.RoundTrip.is_plain
changed_with_status-ended_example = changed_with_status-ended sample_changes refl refl

abbrev pub sample_host : Host
sample_host = record {
  casefold = λ s. s;
  repr = λ s. s;
  project = some (
      "actors" ⇒ obj ("me" ⇒ obj ("git_identities" ⇒ arr (cons (word "x@y") nil) ⨾ end) ⨾ end)
      ⨾ end);
  artifact =
      λ s. some (inr (text "0123456789abcdef0123456789abcdef0123456789abcdef0123456789abcdef"));
  git = record { revisions = ok []; log = ok []; status = ok [] };
}

abbrev sample_contract : ContractHeader
sample_contract = record {
  schema = 1;
  id = text "CR-1";
  title = text "t";
  scope = [];
  acceptance = [];
  decisions = [];
  documents = [];
  extensions = [];
  implementers = [];
  reviewers = [];
  independence = [];
}

abbrev approving_review : Fields
approving_review =
    "record_type" ⇒ word "review"
    ⨾ "reviewed_finding" ⇒ word "01ARZ3NDEKTSV4RRFFQ69G5FAV"
    ⨾ "verdict" ⇒ word "approved"
    ⨾ "reviewer" ⇒ sample_reviewer
    ⨾ "findings" ⇒ arr nil
    ⨾ end

abbrev pub sample_task : Task
sample_task = record {
  id = text "CR-1";
  state = open_state;
  contract = sample_contract;
  records = with_id (text "01ARZ3NDEKTSV4RRFFQ69G5FAV") sample_finding ∷ approving_review ∷ [];
}

pub nothing_tampered :
    sidecar_tampered_records (λ s. is_empty (strip simple s)) sample_host.git ≡ ok []
unfolding sidecar_tampered_records strip
nothing_tampered = refl

pub sample_report :
    (report : GateReport) × (run_findings_gate simple sample_host (ok sample_task) ≡ ok report)
    × (report.passed ≡ releasable simple sample_host sample_task [])
sample_report = run_findings_gate-releasable simple sample_host sample_task [] nothing_tampered

findings_report_is_told_example :
    All (λ line. forges_rendered_text simple line ≡ false) sample_report.0.lines
    × (sample_report.0.passed ≡ not (any is_fail sample_report.0.lines))
findings_report_is_told_example =
    findings_report_is_told simple simple-AsciiIsPlain sample_host (ok sample_task) sample_report.0
      sample_report.1

pub sample_is_releasable : releasable simple sample_host sample_task [] ≡ true
unfolding releasable agentmarshal.Records.Schema.record_type_of agentmarshal.Registry.named
    agentmarshal.Json.put agentmarshal.Registry.same_type
sample_is_releasable = refl

abbrev sample_session : String → String → Fields
sample_session id provider =
    "record_type" ⇒ word "session"
    ⨾ "id" ⇒ word id
    ⨾ "usage" ⇒ obj ("provider" ⇒ word provider ⨾ end)
    ⨾ end

abbrev sample_sessions : List Fields
sample_sessions = sample_session "A" "p" ∷ sample_session "B" "q" ∷ []

holds :
    (judge_independence_rule simple sample_host distinct_vendor
      (some sample_reviewer)
      sample_sessions
      none).0
    ≡ some true
unfolding judge_independence_rule
holds = refl

judged_to_hold-IsIndependent_example :
    IsIndependent simple sample_host distinct_vendor (some sample_reviewer) sample_sessions none
judged_to_hold-IsIndependent_example =
    judged_to_hold-IsIndependent simple sample_host distinct_vendor (some sample_reviewer)
      sample_sessions none holds

judge_sessions-perm_example :
    (judge_sessions simple sample_host distinct_vendor (text "v") none none sample_sessions).0
    ≡ (judge_sessions simple sample_host distinct_vendor
        (text "v")
        none
        none
        (sample_session "B" "q" ∷ sample_session "A" "p" ∷ [])).0
judge_sessions-perm_example =
    judge_sessions-perm simple sample_host distinct_vendor (text "v") none sample_sessions
      (sample_session "B" "q" ∷ sample_session "A" "p" ∷ []) (Permᴰ.swap refl refl)

-- A review of a commit that asks for changes, and an acceptance over its findings.
abbrev changes_review : Fields
changes_review =
    "record_type" ⇒ word "review"
    ⨾ "id" ⇒ word "R"
    ⨾ "reviewed_commit" ⇒ word "c"
    ⨾ "verdict" ⇒ word "changes_required"
    ⨾ "findings" ⇒ arr (cons (word "F1") nil)
    ⨾ end

abbrev over_findings : Fields
over_findings =
    "record_type" ⇒ word "acceptance"
    ⨾ "accepted_commit" ⇒ word "c"
    ⨾ "accepted_by" ⇒ word "owner"
    ⨾ "findings" ⇒ arr (cons (word "F1") nil)
    ⨾ end

abbrev judged_records : List Fields
judged_records = changes_review ∷ over_findings ∷ []

accepted_resolves :
    resolved_review
      (latest_review_of (text "c") judged_records)
      (latest_acceptance_of (text "c") judged_records)
    ≡ some (text "R")
unfolding resolved_review latest_review_of record_type_of named same_type latest_acceptance_of
accepted_resolves = refl

resolved_review_iff_example :
    (resolved_review
        (latest_review_of (text "c") judged_records)
        (latest_acceptance_of (text "c") judged_records)
      ≡ some (text "R"))
    ↔ IsResolved (text "c") judged_records (text "R")
resolved_review_iff_example = resolved_review_iff (text "c") judged_records (text "R")

say_verdict_iff_example :
    (is_clear (
        say_verdict simple sample_host []
          (text "c")
          true
          sample_contract
          (latest_review_of (text "c") judged_records)
          (latest_acceptance_of (text "c") judged_records)
          blank)
      ≡ true)
    ↔ ((is_clear blank ≡ true)
        × (((id : Text) × IsResolved (text "c") judged_records id)
            ⊎ (All (λ r. ¬ IsReviewOf (text "c") r) judged_records × (true ≡ false))))
say_verdict_iff_example =
    say_verdict_iff simple sample_host [] (text "c") true sample_contract judged_records blank
