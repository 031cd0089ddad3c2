-- ===== src/Gate/Evidence/Kept.antt =====
-- src/agentmarshal/journal/gate.py: what a pass of the checks on the evidence guarantees of it.
use agentmarshal.Common.{
  is_empty, All, Text, contains_text, Bool-cases, ◌≡◌, inl, inr, true, false, ◌&&◌, List,
}
use agentmarshal.Runtime.{Runtime}
use agentmarshal.Gate.Base.{Candidate, is_added, evidence_changes, added_records}
use agentmarshal.Gate.Evidence.{
  tampered_records, colliding_records, affected_tasks, judge_tampered, say_added, judge_collisions,
}
use agentmarshal.Gate.Transcript.{Transcript, is_clear}
use agentmarshal.Gate.Transcript.Counted.{check_clear}
use agentmarshal.Gate.Evidence.Valid.{IsValidRecord}
use agentmarshal.Gate.Evidence.Consistent.{IsConsistent}
use agentmarshal.Gate.Findings.Released.{judged}

pub record EvidenceIsKept (rt : Runtime) (c : Candidate) (judged : Text) : Type 0 where
  pub added_only : All (λ change. is_added change ≡ true) (evidence_changes c)
  pub fresh : All (λ change. contains_text change.1 c.base_tree ≡ false) (evidence_changes c)
  pub valid : All (IsValidRecord rt c) (added_records c)
  pub consistent : All (IsConsistent c judged) (affected_tasks rt c)

module _ (rt : Runtime) (c : Candidate) where
  pub added_clear :
      (invalid : List Text) (t : Transcript)
      → is_clear (say_added rt c invalid t) ≡ (is_clear t && is_empty invalid)
  unfolding say_added
  added_clear invalid t = elim (Bool-cases (is_empty invalid)) [
    | inl valid ↦ rw valid (check_clear rt true _ t)
    | inr given ↦ rw given (check_clear rt false _ t)
  ]

  pub collisions_clear :
      (t : Transcript)
      → is_clear (judge_collisions rt c t) ≡ (is_clear t && is_empty (colliding_records c))
  unfolding judge_collisions
  collisions_clear t = elim (Bool-cases (is_empty (colliding_records c))) [
    | inl free ↦ rw free (check_clear rt true _ t)
    | inr colliding ↦ rw colliding (check_clear rt false _ t)
  ]

  pub tampered_clear :
      (t : Transcript)
      → is_clear (judge_tampered rt c t) ≡ (is_clear t && is_empty (tampered_records c))
  unfolding judge_tampered
  tampered_clear t = check_clear rt (is_empty (tampered_records c)) _ t
