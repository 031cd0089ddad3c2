-- ===== src/Gate/Findings.antt =====
-- src/agentmarshal/journal/gate.py: `run_findings_gate`.
pub mod Released
pub mod Steps
pub mod Cleared
pub mod Told
use agentmarshal.Common.{
  is_empty, gate_refused, Result, ok, err, ◌>>=◌, Text, String, Option, none, some, List, [], ◌∷◌,
}
use agentmarshal.Runtime.{Runtime}
use agentmarshal.Registry.{review, finding}
use agentmarshal.Contracts.Header.{strip}
use agentmarshal.Gate.Transcript.{Transcript, blank, is_clear}
use agentmarshal.Gate.Paths.{sidecar_tampered_records}
use agentmarshal.Gate.Identity.{Host, Task, GateReport, last_of}
use agentmarshal.Gate.Lines.{
  id_of, records_of, say_state, say_scope, say_documents, say_finding, say_review, say_independence,
  say_evidence, say_tampered, say_working_tree, say_no_candidate,
}

-- `GateError(str(error))`
unfoldable pub as_gate_error {ℓ} : {A : Type ℓ} → String → Result A → Result A
as_gate_error message (ok value) = ok value
as_gate_error message (err e) = err (gate_refused message)

-- `finding_id or None`
abbrev pub given_text : Text → Option Text
given_text [] = none
given_text (c ∷ s) = some (c ∷ s)

module _ (rt : Runtime) where
  -- The lines up to the examination of the journal's history.
  unfoldable pub judged_findings : Host → Task → Transcript → Transcript
  unfolding say_state say_scope say_documents say_finding say_review say_independence say_evidence
      say_no_candidate records_of last_of id_of
  judged_findings host task t =
      let f = last_of (records_of finding task.records) in
      let r = last_of (records_of review task.records) in
      say_no_candidate rt (
        say_evidence rt host f (
          say_independence rt host f r (
            say_review rt task.records (id_of f) r (
              say_finding rt f (
                say_documents rt task.contract
                  (say_scope rt task.contract (say_state rt task.id task.state t)))))))

  unfoldable pub findings_transcript : Host → Task → List Text → Transcript
  unfolding judged_findings say_tampered say_working_tree
  findings_transcript host task tampered =
      say_working_tree rt (say_tampered rt tampered (judged_findings host task blank))

  unfoldable pub run_findings_gate : Host → Result Task → Result GateReport
  unfolding as_gate_error sidecar_tampered_records findings_transcript is_clear id_of last_of
      records_of strip is_empty
  run_findings_gate host loaded = as_gate_error "the task cannot be read" loaded >>= λ task.
      as_gate_error "cannot examine journal history"
        (sidecar_tampered_records (λ s. is_empty (strip rt s)) host.git)
      >>= λ tampered.
          let t = findings_transcript host task tampered in
          ok (record {
            passed = is_clear t;
            lines = t.lines;
            resolved_commit = [];
            resolved_finding = given_text (id_of (last_of (records_of finding task.records)));
          })
