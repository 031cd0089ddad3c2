-- ===== src/Gate/Lines.antt =====
-- src/agentmarshal/journal/gate.py: the lines of `run_findings_gate`, in their order.
use agentmarshal.Common.{
  is_empty, Text, text, text_eq, ltb, if◌then◌else◌, ℕ, suc, ◌⊎◌, inl, inr, Bool, true, false, not,
  ◌&&◌, ◌||◌, Option, none, some, List, [], ◌∷◌, ◌++◌,
}
use agentmarshal.Json.{Json, Fields, ◌!◌, has, text_of, list_of, fields_of, is_str}
use agentmarshal.Runtime.{Runtime}
use agentmarshal.Registry.{RecordType, acceptance, State, open_state, done_state, abandoned_state}
use agentmarshal.Records.Schema.{is_type}
use agentmarshal.Records.Rules.Review.{is_approved, findings_of}
use agentmarshal.Contracts.Header.{ContractHeader}
use agentmarshal.Gate.Texts.{join_comma, same_set, select}
use agentmarshal.Gate.Transcript.{Transcript, say, check_line}
use agentmarshal.Gate.Identity.{Host, last_of, finding_reviewer_identity_refusal}

-- The `None` branches of the f-strings.
abbrev or_none : Text → Text
or_none [] = text "(none)"
or_none (c ∷ s) = c ∷ s

abbrev or_commit : Option Json → Text
or_commit none = text "(commit)"
or_commit v = text_of v

unfoldable pub id_of : Option Fields → Text
unfolding text_of ◌!◌
id_of none = []
id_of (some r) = text_of (r ! "id")

unfoldable pub records_of : RecordType → List Fields → List Fields
unfolding select is_type
records_of t rs = select (is_type t) rs

-- The acceptances over findings that name this finding.
unfoldable pub acceptances_of : Text → List Fields → List Fields
unfolding records_of select has text_eq text_of ◌!◌ is_str
acceptances_of finding_id rs =
    select
      (λ r.
        is_str (r ! "accepted_finding")
        && (text_eq (text_of (r ! "accepted_finding")) finding_id && has r "findings"))
      (records_of acceptance rs)

-- `latest_review.get("reviewed_finding") == finding_id`
unfoldable pub binds_to : Text → Fields → Bool
unfolding is_str text_eq text_of ◌!◌
binds_to finding_id r =
    is_str (r ! "reviewed_finding") && text_eq (text_of (r ! "reviewed_finding")) finding_id

abbrev or_independent : Option Text → Text
or_independent none =
    text "declared reviewer identity differs from the finding recorder's declared git identities"
or_independent (some refusal) = refusal

abbrev pub is_absent : Option Text → Bool
is_absent none = true
is_absent (some refusal) = false

module _ (rt : Runtime) where
  unfoldable pub say_state : Text → State → Transcript → Transcript
  unfolding say check_line text
  say_state id open_state t = say rt (text "PASS: task " ++ (id ++ text " is not closed")) t
  say_state id done_state t =
      check_line rt false (text "task " ++ (id ++ text " is already closed (state: done)")) t
  say_state id abandoned_state t =
      check_line rt false (text "task " ++ (id ++ text " is already closed (state: abandoned)")) t

  unfoldable pub say_scope : ContractHeader → Transcript → Transcript
  unfolding is_empty say check_line text join_comma
  say_scope contract t =
      if not (is_empty contract.scope)
      then check_line rt false
          (text "findings lane requires an empty scope; declared scope: "
            ++ join_comma contract.scope)
          t
      else say rt (text "NOT EXAMINED: scope diff (findings lane has no candidate)") t

  unfoldable pub say_documents : ContractHeader → Transcript → Transcript
  unfolding is_empty say text
  say_documents contract t =
      if not (is_empty contract.documents) || not (is_empty contract.extensions)
      then say rt (text "NOT EXAMINED: named documents (findings lane has no candidate)") t
      else t

  unfoldable pub say_finding : Option Fields → Transcript → Transcript
  unfolding check_line text
  say_finding none t =
      check_line rt false (text "findings lane requires at least one finding record") t
  say_finding (some f) t = t

  unfoldable pub say_accepted : Text → Fields → Option Fields → Transcript → Transcript
  unfolding same_set findings_of say check_line text join_comma text_of ◌!◌
  say_accepted finding_id r none t =
      check_line rt false
        (text "latest review of finding "
          ++ (finding_id
              ++ (text " is "
                  ++ (text_of (r ! "verdict")
                      ++ (text "; blocking findings: " ++ join_comma (findings_of r))))))
        t
  say_accepted finding_id r (some a) t =
      if same_set (findings_of a) (findings_of r)
      then say rt
          (text "PASS: accepted over findings "
            ++ (join_comma (findings_of a)
                ++ (text " by "
                    ++ (text_of (a ! "accepted_by") ++ text "; not an approving review"))))
          t
      else check_line rt false
          (text "latest review of finding "
            ++ (finding_id
                ++ (text " is "
                    ++ (text_of (r ! "verdict")
                        ++ (text "; blocking findings: " ++ join_comma (findings_of r))))))
          t

  unfoldable pub say_review : List Fields → Text → Option Fields → Transcript → Transcript
  unfolding binds_to is_approved say_accepted acceptances_of last_of check_line text
  say_review rs finding_id none t =
      check_line rt false (text "no review record for latest finding " ++ or_none finding_id) t
  say_review rs finding_id (some r) t =
      if not (binds_to finding_id r)
      then check_line rt false
          (text "latest review binds to finding "
            ++ (or_commit (r ! "reviewed_finding")
                ++ (text ", not latest finding " ++ or_none finding_id)))
          t
      else if is_approved r
      then check_line rt true
          (text "latest review of finding " ++ (finding_id ++ text " is approved")) t
      else say_accepted finding_id r (last_of (acceptances_of finding_id rs)) t

  unfoldable pub say_independence : Host → Option Fields → Option Fields → Transcript → Transcript
  unfolding finding_reviewer_identity_refusal check_line text fields_of ◌!◌
  say_independence host (some f) (some r) t =
      let refusal =
        finding_reviewer_identity_refusal rt host f (fields_of (r ! "reviewer") ! "email") in
      check_line rt (is_absent refusal) (or_independent refusal) t
  say_independence host _ _ t = t

  -- The transcript and the count of the artifacts that resolve.
  unfoldable pub say_artifact :
      Text → Text → Option (Text ⊎ List ℕ) → Transcript × ℕ → Transcript × ℕ
  unfolding say check_line text text_eq
  say_artifact reference hash none (t, verified) = (
    say rt (text "NOT VERIFIED: artifact " ++ (reference ++ text " does not resolve locally")) t,
    verified,
  )
  say_artifact reference hash (some (inl error)) (t, verified) = (
    check_line rt false (text "artifact " ++ (reference ++ (text " could not be read: " ++ error)))
        t,
    suc verified,
  )
  say_artifact reference hash (some (inr bytes)) (t, verified) =
      let same = text_eq (rt.sha256 bytes) hash in
      (
        check_line rt same
            (text "artifact "
              ++ (reference
                  ++ (if same
                      then text " matches its recorded sha256"
                      else text " does not match its recorded sha256")))
            t,
        suc verified,
      )

  unfoldable pub say_artifacts : Host → List Json → Transcript × ℕ → Transcript × ℕ
  unfolding say_artifact fields_of text_of ◌!◌
  say_artifacts host [] t = t
  say_artifacts host (a ∷ artifacts) t =
      let reference = text_of (fields_of (some a) ! "ref") in
      say_artifacts host artifacts
        (say_artifact reference (text_of (fields_of (some a) ! "hash")) (host.artifact reference) t)

  unfoldable pub say_evidence : Host → Option Fields → Transcript → Transcript
  unfolding say_artifacts list_of ◌!◌ check_line text
  say_evidence host none t = t
  say_evidence host (some f) t =
      let (said, verified) = say_artifacts host (list_of (f ! "artifacts")) (t, 0) in
      check_line rt (ltb 0 verified)
        (text "at least one finding artifact resolves under the journal project root") said

  unfoldable pub say_tampered : List Text → Transcript → Transcript
  unfolding is_empty check_line text join_comma
  say_tampered tampered t =
      check_line rt (is_empty tampered)
        (if is_empty tampered
          then text "evidence records are append-only"
          else text "append-only violation, records modified, deleted or renamed: "
            ++ join_comma tampered)
        t

  unfoldable pub say_working_tree : Transcript → Transcript
  unfolding say check_line text
  say_working_tree t =
      say rt (text "NOT EXAMINED: advisory leak scan (findings lane has no diff)") (
        check_line rt true
          (text "task lifecycle records are consistent (journal working tree examined)")
          (say rt
            (text "NOT EXAMINED: record-path collisions (findings lane has no candidate or base)")
            (check_line rt true (text "added records are valid (journal working tree examined)")
              t)))

  unfoldable pub say_no_candidate : Transcript → Transcript
  unfolding say text
  say_no_candidate t =
      say rt (text "NOT EXAMINED: candidate diff (findings lane has no candidate)")
        (say rt (text "NOT EXAMINED: pipeline attestation (findings lane has no pipeline)") t)
