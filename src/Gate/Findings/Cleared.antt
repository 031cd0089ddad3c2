-- ===== src/Gate/Findings/Cleared.antt =====
-- src/agentmarshal/journal/gate.py: what a pass of the findings gate means.
use agentmarshal.Common.{
  is_empty, Result, ok, err, >>=-ok, Text, String, ◌≡◌, refl, sym, ◌∙◌, List, [],
}
use agentmarshal.Runtime.{Runtime}
use agentmarshal.Registry.{finding}
use agentmarshal.Contracts.Header.{strip}
use agentmarshal.Gate.Lines.{id_of, records_of}
use agentmarshal.Gate.Identity.{Host, Task, GateReport, last_of}
use agentmarshal.Gate.Findings.{as_gate_error, given_text, findings_transcript, run_findings_gate}
use agentmarshal.Gate.Paths.{sidecar_tampered_records}
use agentmarshal.Gate.Findings.Released.{releasable}
use agentmarshal.Gate.Findings.Steps.{transcript_clear}
use agentmarshal.Gate.Transcript.{is_clear}

module _ (rt : Runtime) where
  same_texts : (a b : List Text) → ok a ≡ ok b → b ≡ a
  same_texts a b h = cc

  same_report : (a b : GateReport) → ok a ≡ ok b → b ≡ a
  same_report a b h = cc

  as_gate_error-ok {ℓ} :
      {A : Type ℓ} (message : String) (r : Result A) (value : A)
      → as_gate_error message r ≡ ok value
      → r ≡ ok value
  unfolding as_gate_error
  as_gate_error-ok message (ok v) value h = h
  as_gate_error-ok message (err e) value h = cc

  pub passed-releasable :
      (host : Host) (task : Task) (tampered : List Text) (report : GateReport)
      → sidecar_tampered_records (λ s. is_empty (strip rt s)) host.git ≡ ok tampered
      → run_findings_gate rt host (ok task) ≡ ok report
      → report.passed ≡ releasable rt host task tampered
  unfolding run_findings_gate as_gate_error
  passed-releasable host task tampered report seen h =
      let (found, a, h1) =
        >>=-ok
          (as_gate_error "cannot examine journal history"
            (sidecar_tampered_records (λ s. is_empty (strip rt s)) host.git))
          _ h in
      let b = as_gate_error-ok "cannot examine journal history" _ found a in
      let same : found ≡ tampered = same_texts tampered found (sym seen ∙ b) in
      rw (same_report _ report h1, same) (transcript_clear rt host task tampered)

  pub run_findings_gate-releasable :
      (host : Host) (task : Task) (tampered : List Text)
      → sidecar_tampered_records (λ s. is_empty (strip rt s)) host.git ≡ ok tampered
      → (report : GateReport) × (run_findings_gate rt host (ok task) ≡ ok report)
        × (report.passed ≡ releasable rt host task tampered)
  unfolding run_findings_gate as_gate_error
  run_findings_gate-releasable host task tampered seen =
      let t = findings_transcript rt host task tampered in
      let report : GateReport = record {
        passed = is_clear t;
        lines = t.lines;
        resolved_commit = [];
        resolved_finding = given_text (id_of (last_of (records_of finding task.records)));
      } in
      (report, rw seen refl, transcript_clear rt host task tampered)

  pub run_findings_gate-resolved :
      (host : Host) (task : Task) (report : GateReport)
      → run_findings_gate rt host (ok task) ≡ ok report
      → report.resolved_finding ≡ given_text (id_of (last_of (records_of finding task.records)))
  unfolding run_findings_gate as_gate_error
  run_findings_gate-resolved host task report h =
      let (found, a, h1) =
        >>=-ok
          (as_gate_error "cannot examine journal history"
            (sidecar_tampered_records (λ s. is_empty (strip rt s)) host.git))
          _ h in
      rw (same_report _ report h1) refl
