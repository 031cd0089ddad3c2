-- ===== src/Status/Order.antt =====
-- src/agentmarshal/journal/status.py: the projection against the order of the records.
use mathlib.Core.Path.{subst}
use agentmarshal.Common.{
  All, ok, >>=-ok, ◌≡◌, refl, ◌∙◌, ◌⊎◌, inl, inr, Option, none, some, List, [], ◌∷◌, ◌++◌, arith,
}
use agentmarshal.Registry.{
  RecordType, opened, review, acceptance, completed, abandoned, reopened, amendment, session,
  finding, check, agreement, acknowledgement, ext, State, done_state, abandoned_state, record_types,
}
use agentmarshal.Status.Projection.{
  is_terminal, Projection, initial, project_type, project_types, conclude, project_status_of,
}
use agentmarshal.Status.Phases.{
  IsCoherent, initial-IsCoherent, project_type-IsCoherent, IsMeasurement, of_session, of_check,
  of_review, of_acceptance, of_amendment, of_finding, of_agreement, of_acknowledgement, of_ext,
  LifeCycle, opening, completing, abandoning, reopening, measuring, working, Run, stop, step,
}

-- One turn of the projection is a step of the life cycle.
pub project_type-LifeCycle :
    (p q : Projection) (t : RecordType)
    → IsCoherent p
    → project_type p t ≡ ok q
    → LifeCycle p.state t q.state
unfolding project_type is_terminal record_types
project_type-LifeCycle p q opened v h = opening (ground arith) (ground arith)
project_type-LifeCycle p q completed v h = completing (ground arith) (ground arith)
project_type-LifeCycle p q abandoned v h = abandoning (ground arith) (ground arith)
project_type-LifeCycle p q reopened v h = reopening (ground arith) (ground arith)
project_type-LifeCycle p q session v h = measuring of_session (ground arith)
project_type-LifeCycle p q check v h = measuring of_check (ground arith)
project_type-LifeCycle p q review v h = working of_review (ground arith) (ground arith)
project_type-LifeCycle p q acceptance v h = working of_acceptance (ground arith) (ground arith)
project_type-LifeCycle p q amendment v h = working of_amendment (ground arith) (ground arith)
project_type-LifeCycle p q finding v h = working of_finding (ground arith) (ground arith)
project_type-LifeCycle p q agreement v h = working of_agreement (ground arith) (ground arith)
project_type-LifeCycle p q acknowledgement v h =
    working of_acknowledgement (ground arith) (ground arith)
project_type-LifeCycle p q ext v h = working of_ext (ground arith) (ground arith)

pub project_types-Run :
    (p q : Projection) (ts : List RecordType)
    → IsCoherent p
    → project_types p ts ≡ ok q
    → Run p.state ts q.state
unfolding project_types
project_types-Run p q [] v h = stop (ground arith)
project_types-Run p q (t ∷ ts) v h =
    let (m, first, rest) = >>=-ok (project_type p t) (λ m. project_types m ts) h in
    step (project_type-LifeCycle p m t v first)
      (project_types-Run m q ts (project_type-IsCoherent p m t v first) rest)

after_abandoned_step :
    {a b : Option State} {t : RecordType}
    → LifeCycle a t b
    → a ≡ some abandoned_state
    → IsMeasurement t × (b ≡ some abandoned_state)
unfolding is_terminal
after_abandoned_step (measuring m e) p = (m, e ∙ p)
after_abandoned_step (opening n e) p = absurd (ground arith)
after_abandoned_step (completing n e) p = absurd (ground arith)
after_abandoned_step (abandoning n e) p = absurd (ground arith)
after_abandoned_step (reopening n e) p = absurd (ground arith)
after_abandoned_step (working w n e) p = absurd (ground arith)

-- After abandonment there are measurements alone, and the task stays abandoned.
after_abandonment :
    {a c : Option State} {ts : List RecordType}
    → Run a ts c
    → a ≡ some abandoned_state
    → All IsMeasurement ts × (c ≡ some abandoned_state)
after_abandonment (stop e) p = (tt, e ∙ p)
after_abandonment (step s r) p =
    let (m, e) = after_abandoned_step s p in
    let (ms, last) = after_abandonment r e in ((m, ms), last)

after_completed_step :
    {a b : Option State} {t : RecordType}
    → LifeCycle a t b
    → a ≡ some done_state
    → (t ≡ reopened) ⊎ (IsMeasurement t × (b ≡ some done_state))
unfolding is_terminal
after_completed_step (measuring m e) p = inr (m, e ∙ p)
after_completed_step (opening n e) p = absurd (ground arith)
after_completed_step (completing n e) p = absurd (ground arith)
after_completed_step (abandoning n e) p = absurd (ground arith)
after_completed_step (reopening n e) p = inl refl
after_completed_step (working w n e) p = absurd (ground arith)

-- After completion, either measurements alone follow and the task stays done, or there are
-- measurements, then a reopening, then any records.
pub data IsReopenedLater : List RecordType → Type 0 where
  here : {ts : List RecordType} → IsReopenedLater (reopened ∷ ts)
  later :
      {t : RecordType} {ts : List RecordType}
      → IsMeasurement t
      → IsReopenedLater ts
      → IsReopenedLater (t ∷ ts)

after_completion :
    {a c : Option State} {ts : List RecordType}
    → Run a ts c
    → a ≡ some done_state
    → IsReopenedLater ts ⊎ (All IsMeasurement ts × (c ≡ some done_state))
after_completion (stop e) p = inr (tt, e ∙ p)
after_completion (step s r) p =
    completion_cases (after_completed_step s p) (λ e. after_completion r e)
  where
    completion_cases :
        {b c : Option State} {t : RecordType} {ts : List RecordType}
        → (t ≡ reopened) ⊎ (IsMeasurement t × (b ≡ some done_state))
        → (b ≡ some done_state
            → IsReopenedLater ts ⊎ (All IsMeasurement ts × (c ≡ some done_state)))
        → IsReopenedLater (t ∷ ts) ⊎ (All IsMeasurement (t ∷ ts) × (c ≡ some done_state))
    completion_cases (inl e) f = inl (rw e here)
    completion_cases (inr (m, e)) f = elim (f e) [
      | inl later_on ↦ inl (later m later_on)
      | inr (ms, last) ↦ inr ((m, ms), last)
    ]

Run-split :
    {a c : Option State} (ts us : List RecordType)
    → Run a (ts ++ us) c
    → (b : Option State) × Run a ts b × Run b us c
Run-split {a} [] us r = (a, stop refl, r)
Run-split (t ∷ ts) us (step s r) =
    let (b, before, after) = Run-split ts us r in (b, step s before, after)

conclude-state : (p : Projection) (s : State) → conclude p ≡ ok s → p.state ≡ some s
unfolding conclude
conclude-state p s h = ground arith

pub project_status-Run :
    (ts : List RecordType) (s : State) → project_status_of ts ≡ ok s → Run none ts (some s)
unfolding project_status_of
project_status-Run ts s h =
    let (q, turns, last) = >>=-ok (project_types initial ts) conclude h in
    subst (λ c. Run none ts c) (conclude-state q s last)
      (project_types-Run initial q ts initial-IsCoherent turns)

-- If a task's records have a state, then what follows an abandonment are sessions and checks
-- alone, and the state is abandoned.
pub abandonment_is_final :
    (ts us : List RecordType) (s : State)
    → project_status_of (ts ++ abandoned ∷ us) ≡ ok s
    → All IsMeasurement us × (s ≡ abandoned_state)
abandonment_is_final ts us s h =
    let (a, _, r) = Run-split ts (abandoned ∷ us) (project_status-Run _ s h) in after_record r
  where
    after_record :
        {a : Option State}
        → Run a (abandoned ∷ us) (some s)
        → All IsMeasurement us × (s ≡ abandoned_state)
    after_record (step (abandoning n e) r) = let (ms, last) = after_abandonment r e in (ms, cc last)
    after_record (step (measuring m e) r) = elim m [ ]
    after_record (step (working w n e) r) = elim w [ ]

-- If a task's records have a state, then what follows a completion are sessions and checks alone
-- and the state is done, or sessions and checks up to a reopening.
pub completion_yields_to_reopening_alone :
    (ts us : List RecordType) (s : State)
    → project_status_of (ts ++ completed ∷ us) ≡ ok s
    → IsReopenedLater us ⊎ (All IsMeasurement us × (s ≡ done_state))
completion_yields_to_reopening_alone ts us s h =
    let (a, _, r) = Run-split ts (completed ∷ us) (project_status-Run _ s h) in after_record r
  where
    after_record :
        {a : Option State}
        → Run a (completed ∷ us) (some s)
        → IsReopenedLater us ⊎ (All IsMeasurement us × (s ≡ done_state))
    after_record (step (completing n e) r) = elim (after_completion r e) [
      | inl l ↦ inl l
      | inr (ms, last) ↦ inr (ms, cc last)
    ]
    after_record (step (measuring m e) r) = elim m [ ]
    after_record (step (working w n e) r) = elim w [ ]
