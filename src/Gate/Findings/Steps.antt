-- ===== src/Gate/Findings/Steps.antt =====
-- src/agentmarshal/journal/gate.py: what each line of the findings gate counts as a violation.
use agentmarshal.Common.{
  all, any, is_empty, Text, ltb, Bool-cases, ℕ, ◌+◌, ◌≡◌, refl, ◌⊎◌, inl, inr, Bool, true, false,
  ◌&&◌, ◌||◌, Option, none, some, List, [], ◌∷◌, arith,
}
use agentmarshal.Runtime.{Runtime}
use agentmarshal.Registry.{review, finding, State, open_state, done_state, abandoned_state}
use agentmarshal.Contracts.Header.{ContractHeader}
use agentmarshal.Gate.Transcript.Counted.{check_clear, say_clear}
use agentmarshal.Gate.Transcript.{Transcript, blank, say, check_line, is_clear}
use agentmarshal.Gate.Lines.{
  id_of, records_of, acceptances_of, binds_to, say_state, say_scope, say_documents, say_finding,
  say_accepted, say_review, say_independence, say_artifact, say_artifacts, say_evidence,
  say_tampered, say_working_tree, say_no_candidate,
}
use agentmarshal.Json.{Json, Fields, ◌!◌, text_of, list_of, fields_of}
use agentmarshal.Records.Rules.Review.{is_approved}
use agentmarshal.Gate.Identity.{Host, Task, last_of}
use agentmarshal.Gate.Findings.{judged_findings, findings_transcript}
use agentmarshal.Gate.Findings.Released.{
  is_open, is_given, covers, judged, is_independent, matches, one_found, is_intact, resolves,
  released, releasable,
}

some_found : (n k : ℕ) (b : Bool) → (ltb 0 (n + k) || b) ≡ (ltb 0 n || (ltb 0 k || b))
some_found n k b = ground arith

none_of : (a b c : Bool) → (a && false && b) ≡ (c && false)
none_of a b c = ground arith

grouped : (a b c d : Bool) → (a && true && b && c && d) ≡ (a && (b && (c && d)))
grouped a b c d = ground arith

first_of : (a b c d : Bool) → (true && a && b && c && d) ≡ (a && (b && (c && d)))
first_of a b c d = ground arith

blank_clear : is_clear blank ≡ true
unfolding is_clear
blank_clear = refl

module _ (rt : Runtime) where
  state_clear :
      (id : Text) (s : State) (t : Transcript)
      → is_clear (say_state rt id s t) ≡ (is_clear t && is_open s)
  unfolding say_state check_line say is_clear is_open
  state_clear id open_state t = ground arith
  state_clear id done_state t = ground arith
  state_clear id abandoned_state t = ground arith

  scope_clear :
      (c : ContractHeader) (t : Transcript)
      → is_clear (say_scope rt c t) ≡ (is_clear t && is_empty c.scope)
  unfolding say_scope check_line say is_clear
  scope_clear c t = ground arith

  documents_clear :
      (c : ContractHeader) (t : Transcript) → is_clear (say_documents rt c t) ≡ is_clear t
  unfolding say_documents say is_clear
  documents_clear c t = ground arith

  finding_clear :
      (f : Option Fields) (t : Transcript)
      → is_clear (say_finding rt f t) ≡ (is_clear t && is_given f)
  unfolding say_finding check_line say is_clear is_given
  finding_clear none t = ground arith
  finding_clear (some f) t = ground arith

  accepted_clear :
      (id : Text) (r : Fields) (a : Option Fields) (t : Transcript)
      → is_clear (say_accepted rt id r a t) ≡ (is_clear t && covers a r)
  unfolding say_accepted check_line say is_clear
  accepted_clear id r none t = ground arith
  accepted_clear id r (some a) t = ground arith

  review_clear :
      (rs : List Fields) (id : Text) (r : Option Fields) (t : Transcript)
      → is_clear (say_review rt rs id r t) ≡ (is_clear t && judged rs id r)
  unfolding say_review judged
  review_clear rs id none t = rw (check_clear rt) refl
  review_clear rs id (some r) t = elim (Bool-cases (binds_to id r)) [
    | inl bound ↦ elim (Bool-cases (is_approved r)) [
      | inl approved ↦ rw (bound, approved, check_clear rt) refl
      | inr unapproved ↦
          rw (bound, unapproved) (accepted_clear id r (last_of (acceptances_of id rs)) t)
    ]
    | inr loose ↦ rw (loose, check_clear rt) refl
  ]

  independence_clear :
      (host : Host) (f r : Fields) (t : Transcript)
      → is_clear (say_independence rt host (some f) (some r) t)
        ≡ (is_clear t && is_independent rt host f r)
  unfolding say_independence is_independent
  independence_clear host f r t = rw (check_clear rt) refl

  artifact_clear :
      (reference hash : Text) (found : Option (Text ⊎ List ℕ)) (t : Transcript) (n : ℕ)
      → (is_clear (say_artifact rt reference hash found (t, n)).0
          ≡ (is_clear t && matches rt hash found))
        × ((say_artifact rt reference hash found (t, n)).1 ≡ n + one_found found)
  unfolding say_artifact matches one_found
  artifact_clear reference hash none t n = (rw (say_clear rt) (ground arith), omega arith)
  artifact_clear reference hash (some (inl error)) t n = (rw (check_clear rt) refl, omega arith)
  artifact_clear reference hash (some (inr bytes)) t n = (rw (check_clear rt) refl, omega arith)

  artifacts_clear :
      (host : Host) (artifacts : List Json) (t : Transcript) (n : ℕ)
      → (is_clear (say_artifacts rt host artifacts (t, n)).0
          ≡ (is_clear t && all (is_intact rt host) artifacts))
        × (ltb 0 (say_artifacts rt host artifacts (t, n)).1
            ≡ (ltb 0 n || any (resolves host) artifacts))
  unfolding say_artifacts is_intact resolves all any
  artifacts_clear host [] t n = (ground arith, ground arith)
  artifacts_clear host (a ∷ artifacts) t n =
      let reference = text_of (fields_of (some a) ! "ref") in
      let hash = text_of (fields_of (some a) ! "hash") in
      let step = say_artifact rt reference hash (host.artifact reference) (t, n) in
      let (clear, count) = artifact_clear reference hash (host.artifact reference) t n in
      let (rest, found) = artifacts_clear host artifacts step.0 step.1 in
      (rw rest (rw clear (ground arith)), rw found (rw count (some_found n _ _)))

  evidence_clear :
      (host : Host) (f : Fields) (t : Transcript)
      → is_clear (say_evidence rt host (some f) t) ≡ (
          is_clear t
          && (all (is_intact rt host) (list_of (f ! "artifacts"))
              && any (resolves host) (list_of (f ! "artifacts"))))
  unfolding say_evidence
  evidence_clear host f t =
      let (clear, found) = artifacts_clear host (list_of (f ! "artifacts")) t 0 in
      rw (check_clear rt, clear, found) (ground arith)

  tree_clear : (t : Transcript) → is_clear (say_working_tree rt t) ≡ is_clear t
  unfolding say_working_tree
  tree_clear t = rw (say_clear rt, check_clear rt, say_clear rt, check_clear rt) (ground arith)

  no_candidate_clear : (t : Transcript) → is_clear (say_no_candidate rt t) ≡ is_clear t
  unfolding say_no_candidate
  no_candidate_clear t = rw (say_clear rt, say_clear rt) refl

  tampered_clear :
      (tampered : List Text) (t : Transcript)
      → is_clear (say_tampered rt tampered t) ≡ (is_clear t && is_empty tampered)
  unfolding say_tampered
  tampered_clear tampered t = rw (check_clear rt) refl

  -- The lines on the finding and its review, wherever the transcript stands.
  records_clear :
      (host : Host) (rs : List Fields) (f r : Option Fields) (t : Transcript)
      → is_clear (
          say_evidence rt host f
            (say_independence rt host f r (say_review rt rs (id_of f) r (say_finding rt f t))))
        ≡ (is_clear t && released rt host rs f r)
  unfolding released
  records_clear host rs none r t =
      unfold say_evidence in
      unfold say_independence in
      rw (review_clear rs (id_of none) r, finding_clear none t) (unfold is_given in ground arith)
  records_clear host rs (some f) none t =
      unfold say_independence in
      rw (evidence_clear host f, review_clear rs (id_of (some f)) none)
        (unfold judged in none_of (is_clear (say_finding rt (some f) t)) _ (is_clear t))
  records_clear host rs (some f) (some r) t =
      rw
        (
          evidence_clear host f,
          independence_clear host f r,
          review_clear rs (id_of (some f)) (some r),
          finding_clear (some f) t,
        )
        (unfold is_given in grouped (is_clear t) _ _ _)

  pub transcript_clear :
      (host : Host) (task : Task) (tampered : List Text)
      → is_clear (findings_transcript rt host task tampered) ≡ releasable rt host task tampered
  unfolding findings_transcript judged_findings releasable
  transcript_clear host task tampered =
      rw
        (
          tree_clear, tampered_clear, no_candidate_clear, records_clear, documents_clear,
          scope_clear, state_clear, blank_clear,
        )
        (first_of (is_open task.state) (is_empty task.contract.scope)
          (released rt host task.records (last_of (records_of finding task.records))
            (last_of (records_of review task.records)))
          (is_empty tampered))
