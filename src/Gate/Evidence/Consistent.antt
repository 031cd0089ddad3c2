-- ===== src/Gate/Evidence/Consistent.antt =====
-- src/agentmarshal/journal/gate.py: what the loop over the affected tasks guarantees of each.
use agentmarshal.Common.{
  All, Result, ok, err, Text, text_eq, if◌then◌else◌, Bool-cases, and-eq-true, ℕ, ◌≡◌, refl, sym,
  ◌∙◌, inl, inr, Bool, true, false, not, ◌&&◌, ◌||◌, List, [], ◌∷◌, arith,
}
use agentmarshal.Registry.{State}
use agentmarshal.Runtime.{Runtime}
use agentmarshal.Gate.Base.{Candidate, latest_at_base, is_closing, terminal_state_at_base}
use agentmarshal.Gate.Evidence.{
  merged_state, admitted_only, judge_affected, judge_each, affected_tasks, judge_lifecycle,
}
use agentmarshal.Gate.Transcript.{Transcript, check_line, is_clear}
use agentmarshal.Gate.Transcript.Counted.{check_clear}
use agentmarshal.Gate.Findings.Released.{judged}

-- A task whose records, with those added, project to a state, and which was open on the base, is the
-- judged task, or admits what is added.
pub record IsConsistent (c : Candidate) (judged task : Text) : Type 0 where
  pub state : State
  pub projects : merged_state c task ≡ ok state
  pub admitted :
      (text_eq task judged
        || (not (is_closing (latest_at_base c.base_tree task))
            || admitted_only c task (terminal_state_at_base (latest_at_base c.base_tree task))))
      ≡ true

and_true : (b : Bool) → b ≡ (b && true)
and_true b = ground arith

never : (b : Bool) → (b && false) ≡ true → ⊥
never b h = ground (arith, h)

module _ (rt : Runtime) (c : Candidate) where
  admits : Text → Text → Bool
  unfolding text_eq is_closing latest_at_base admitted_only terminal_state_at_base
  admits judged task =
      text_eq task judged
      || (not (is_closing (latest_at_base c.base_tree task))
          || admitted_only c task (terminal_state_at_base (latest_at_base c.base_tree task)))

  affected_clear :
      (judged task : Text) (s : State) (t : Transcript) (n : ℕ)
      → is_clear (judge_affected rt c judged task (ok s) (t, n)).0
        ≡ (is_clear t && admits judged task)
  unfolding judge_affected admits
  affected_clear judged task s t n = elim (Bool-cases (text_eq task judged)) [
    | inl same ↦ rw same (and_true (is_clear t))
    | inr differs ↦ elim (Bool-cases (is_closing (latest_at_base c.base_tree task))) [
      | inl closed ↦
          elim (Bool-cases
            (admitted_only c task (terminal_state_at_base (latest_at_base c.base_tree task)))) [
              | inl admitted ↦ rw (differs, admitted, closed) (and_true (is_clear t))
              | inr kept_out ↦ rw (differs, kept_out, closed) (check_clear rt false _ t)
            ]
      | inr still_open ↦ rw (differs, still_open) (and_true (is_clear t))
    ]
  ]

  -- A turn of the loop over the affected tasks that leaves the transcript clear.
  affected-IsConsistent :
      (judged task : Text) (m : Result State) (t : Transcript) (n : ℕ)
      → merged_state c task ≡ m
      → is_clear (judge_affected rt c judged task m (t, n)).0 ≡ true
      → (is_clear t ≡ true) × IsConsistent c judged task
  unfolding judge_affected admits
  affected-IsConsistent judged task (err e) t n projects h =
      absurd (never (is_clear t) (sym (check_clear rt false _ t) ∙ h))
  affected-IsConsistent judged task (ok s) t n projects h =
      let (clear, admitted) =
        and-eq-true (is_clear t) (admits judged task)
          (sym (affected_clear judged task s t n) ∙ h) in
      (clear, record { state = s; projects = projects; admitted = admitted })

  pub each-IsConsistent :
      (judged : Text) (tasks : List Text) (t : Transcript) (n : ℕ)
      → is_clear (judge_each rt c judged tasks (t, n)).0 ≡ true
      → (is_clear t ≡ true) × All (IsConsistent c judged) tasks
  unfolding judge_each
  each-IsConsistent judged [] t n h = (h, tt)
  each-IsConsistent judged (task ∷ tasks) t n h =
      let (clear, rest) = each-IsConsistent judged tasks _ _ h in
      let (before, first) =
        affected-IsConsistent judged task (merged_state c task) t n refl clear in
      (before, (first, rest))

  last_line :
      (b : Bool) (message : Text) (t : Transcript)
      → is_clear (if b then check_line rt true message t else t) ≡ is_clear t
  last_line true message t = check_clear rt true message t ∙ sym (and_true (is_clear t))
  last_line false message t = refl

  -- The check of the lifecycle, with its own line or without.
  pub lifecycle_clear :
      (judged : Text) (t : Transcript)
      → is_clear (judge_lifecycle rt c judged t)
        ≡ is_clear (judge_each rt c judged (affected_tasks rt c) (t, 0)).0
  unfolding judge_lifecycle
  lifecycle_clear judged t = last_line _ _ _
