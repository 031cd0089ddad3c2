-- ===== src/Gate/Findings/Told.antt =====
-- src/agentmarshal/journal/gate.py: what the lines of the findings gate tell.
use agentmarshal.Common.{
  any, is_empty, All, Result, ok, >>=-ok, Text, text, ltb, Bool-cases, ℕ, ◌≡◌, refl, ◌⊎◌, inl, inr,
  Bool, true, false, not, ◌||◌, Option, none, some, List, [], ◌∷◌,
}
use agentmarshal.Json.{Json, Fields, ◌!◌, list_of}
use agentmarshal.Runtime.{Runtime}
use agentmarshal.Registry.{review, finding, State, open_state, done_state, abandoned_state, named}
use agentmarshal.Records.Rules.Review.{is_approved, findings_of}
use agentmarshal.Contracts.Header.{ContractHeader, strip}
use agentmarshal.Gate.Texts.{same_set}
use agentmarshal.Gate.Transcript.{Transcript, blank, say, check_line}
use agentmarshal.Gate.Identity.{Host, Task, GateReport, last_of}
use agentmarshal.Gate.Lines.{
  id_of, records_of, acceptances_of, binds_to, say_state, say_scope, say_documents, say_finding,
  say_accepted, say_review, say_independence, say_artifact, say_artifacts, say_evidence,
  say_tampered, say_working_tree, say_no_candidate,
}
use agentmarshal.Gate.Findings.{
  as_gate_error, judged_findings, findings_transcript, run_findings_gate,
}
use agentmarshal.Gate.Transcript.Told.{
  is_fail, IsTold, is_printable, is_quiet, say-IsTold, check_line-IsTold, blank-IsTold,
}
use agentmarshal.Display.Safe.{AsciiIsPlain}
use agentmarshal.Records.Forgeable.{forges_rendered_text}
use agentmarshal.Gate.Paths.{sidecar_tampered_records}

module _ (rt : Runtime) (plain_ascii : AsciiIsPlain rt) where
  said :
      (message : Text) (t : Transcript)
      → is_quiet message ≡ true
      → IsTold rt t
      → IsTold rt (say rt message t)
  said = say-IsTold rt plain_ascii

  checked :
      (passed : Bool) (message : Text) (t : Transcript)
      → IsTold rt t
      → IsTold rt (check_line rt passed message t)
  checked = check_line-IsTold rt plain_ascii

  state-IsTold :
      (id : Text) (s : State) (t : Transcript) → IsTold rt t → IsTold rt (say_state rt id s t)
  unfolding say_state is_quiet is_printable text
  state-IsTold id open_state t h = said _ t refl h
  state-IsTold id done_state t h = checked false _ t h
  state-IsTold id abandoned_state t h = checked false _ t h

  scope-IsTold : (c : ContractHeader) (t : Transcript) → IsTold rt t → IsTold rt (say_scope rt c t)
  unfolding say_scope is_quiet is_printable text
  scope-IsTold c t h = elim (Bool-cases (is_empty c.scope)) [
    | inl empty ↦ rw empty (said _ t refl h)
    | inr scoped ↦ rw scoped (checked false _ t h)
  ]

  documents-IsTold :
      (c : ContractHeader) (t : Transcript) → IsTold rt t → IsTold rt (say_documents rt c t)
  unfolding say_documents is_quiet is_printable text
  documents-IsTold c t h =
      elim (Bool-cases (not (is_empty c.documents) || not (is_empty c.extensions))) [
        | inl named ↦ rw named (said _ t refl h)
        | inr unnamed ↦ rw unnamed h
      ]

  finding-IsTold :
      (f : Option Fields) (t : Transcript) → IsTold rt t → IsTold rt (say_finding rt f t)
  unfolding say_finding
  finding-IsTold none t h = checked false _ t h
  finding-IsTold (some f) t h = h

  accepted-IsTold :
      (id : Text) (r : Fields) (a : Option Fields) (t : Transcript)
      → IsTold rt t
      → IsTold rt (say_accepted rt id r a t)
  unfolding say_accepted is_quiet is_printable text
  accepted-IsTold id r none t h = checked false _ t h
  accepted-IsTold id r (some a) t h = elim (Bool-cases (same_set (findings_of a) (findings_of r))) [
    | inl covered ↦ rw covered (said _ t refl h)
    | inr outstanding ↦ rw outstanding (checked false _ t h)
  ]

  review-IsTold :
      (rs : List Fields) (id : Text) (r : Option Fields) (t : Transcript)
      → IsTold rt t
      → IsTold rt (say_review rt rs id r t)
  unfolding say_review
  review-IsTold rs id none t h = checked false _ t h
  review-IsTold rs id (some r) t h = elim (Bool-cases (binds_to id r)) [
    | inl bound ↦ elim (Bool-cases (is_approved r)) [
      | inl approved ↦ rw (bound, approved) (checked true _ t h)
      | inr unapproved ↦
          rw (bound, unapproved) (accepted-IsTold id r (last_of (acceptances_of id rs)) t h)
    ]
    | inr loose ↦ rw loose (checked false _ t h)
  ]

  independence-IsTold :
      (host : Host) (f r : Option Fields) (t : Transcript)
      → IsTold rt t
      → IsTold rt (say_independence rt host f r t)
  unfolding say_independence
  independence-IsTold host none r t h = h
  independence-IsTold host (some f) none t h = h
  independence-IsTold host (some f) (some r) t h = checked _ _ t h

  artifact-IsTold :
      (reference hash : Text) (found : Option (Text ⊎ List ℕ)) (t : Transcript) (n : ℕ)
      → IsTold rt t
      → IsTold rt (say_artifact rt reference hash found (t, n)).0
  unfolding say_artifact is_quiet is_printable text
  artifact-IsTold reference hash none t n h = said _ t refl h
  artifact-IsTold reference hash (some (inl error)) t n h = checked false _ t h
  artifact-IsTold reference hash (some (inr bytes)) t n h = checked _ _ t h

  artifacts-IsTold :
      (host : Host) (artifacts : List Json) (t : Transcript) (n : ℕ)
      → IsTold rt t
      → IsTold rt (say_artifacts rt host artifacts (t, n)).0
  unfolding say_artifacts
  artifacts-IsTold host [] t n h = h
  artifacts-IsTold host (a ∷ artifacts) t n h =
      artifacts-IsTold host artifacts _ _ (artifact-IsTold _ _ _ t n h)

  evidence-IsTold :
      (host : Host) (f : Option Fields) (t : Transcript)
      → IsTold rt t
      → IsTold rt (say_evidence rt host f t)
  unfolding say_evidence
  evidence-IsTold host none t h = h
  evidence-IsTold host (some f) t h =
      checked (ltb 0 (say_artifacts rt host (list_of (f ! "artifacts")) (t, 0)).1)
        (text "at least one finding artifact resolves under the journal project root") _
        (artifacts-IsTold host (list_of (f ! "artifacts")) t 0 h)

  no_candidate-IsTold : (t : Transcript) → IsTold rt t → IsTold rt (say_no_candidate rt t)
  unfolding say_no_candidate is_quiet is_printable text
  no_candidate-IsTold t h = said _ _ refl (said _ t refl h)

  tree-IsTold : (t : Transcript) → IsTold rt t → IsTold rt (say_working_tree rt t)
  unfolding say_working_tree is_quiet is_printable text
  tree-IsTold t h = said _ _ refl (checked true _ _ (said _ _ refl (checked true _ t h)))

  tampered-IsTold :
      (tampered : List Text) (t : Transcript) → IsTold rt t → IsTold rt (say_tampered rt tampered t)
  unfolding say_tampered
  tampered-IsTold tampered t h = checked (is_empty tampered) _ t h

  judged-IsTold :
      (host : Host) (task : Task) (t : Transcript)
      → IsTold rt t
      → IsTold rt (judged_findings rt host task t)
  unfolding judged_findings
  judged-IsTold host task t h =
      let f = last_of (records_of finding task.records) in
      let r = last_of (records_of review task.records) in
      let a = scope-IsTold task.contract _ (state-IsTold task.id task.state t h) in
      let b = finding-IsTold f _ (documents-IsTold task.contract _ a) in
      let c = independence-IsTold host f r _ (review-IsTold task.records (id_of f) r _ b) in
      no_candidate-IsTold _ (evidence-IsTold host f _ c)

  transcript-IsTold :
      (host : Host) (task : Task) (tampered : List Text)
      → IsTold rt (findings_transcript rt host task tampered)
  unfolding findings_transcript
  transcript-IsTold host task tampered =
      tree-IsTold _ (tampered-IsTold tampered _ (judged-IsTold host task blank (blank-IsTold rt)))

  same_report : (a b : GateReport) → ok a ≡ ok b → b ≡ a
  same_report a b h = cc

  -- Where the printable ASCII characters are in none of the refused categories, no line of the report
  -- of the findings gate holds a character that the forgeable-text rule refuses, whatever the records,
  -- the contract and the paths hold, and the gate has passed exactly when no line starts with `FAIL: `.
  pub findings_report_is_told :
      (host : Host) (loaded : Result Task) (report : GateReport)
      → run_findings_gate rt host loaded ≡ ok report
      → All (λ line. forges_rendered_text rt line ≡ false) report.lines
        × (report.passed ≡ not (any is_fail report.lines))
  unfolding run_findings_gate
  findings_report_is_told host loaded report h =
      let (task, _, h1) = >>=-ok (as_gate_error "the task cannot be read" loaded) _ h in
      let (tampered, _, h2) =
        >>=-ok
          (as_gate_error "cannot examine journal history"
            (sidecar_tampered_records (λ s. is_empty (strip rt s)) host.git))
          _ h1 in
      let told = transcript-IsTold host task tampered in
      rw (same_report _ report h2) (told.clean, told.judged)
