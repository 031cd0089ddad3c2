-- ===== src/Status/Exact.antt =====
-- src/agentmarshal/journal/status.py: which lists of records `project_status` gives a state.
use agentmarshal.Common.{
  Error, Result, ok, err, ◌+◌, ◌≤◌, ◌≡◌, refl, sym, ◌∙◌, ◌↔◌, Option, none, some, List, [], ◌∷◌,
  arith,
}
use agentmarshal.Json.{Fields}
use agentmarshal.Registry.{RecordType, State, record_types}
use agentmarshal.Status.Projection.{
  is_terminal, admitted_after, Projection, initial, project_type, project_types, conclude,
  project_status_of, project_status,
}
use agentmarshal.Status.Phases.{
  IsCoherent, initial-IsCoherent, project_type-IsCoherent, of_session, of_check, of_review,
  of_acceptance, of_amendment, of_finding, of_agreement, of_acknowledgement, of_ext, LifeCycle,
  opening, completing, abandoning, reopening, measuring, working, Run, stop, step,
}
use agentmarshal.Status.Order.{project_status-Run}
use agentmarshal.Status.Guard.{count_opened, flag, opened_step, opened_count, opened_exactly_once}
use agentmarshal.Status.Typed.{AreTypes, project_status_iff}
use agentmarshal.Common.{ok, ◌+◌, ◌≤◌, ◌≡◌, Option, List, ◌∷◌}
use agentmarshal.Registry.{RecordType, State, record_types}
use agentmarshal.Status.Projection.{is_terminal, admitted_after, Projection, project_type}
use agentmarshal.Status.Phases.{
  IsCoherent, of_session, of_check, LifeCycle, opening, completing, abandoning, reopening,
  measuring, working,
}
use agentmarshal.Status.Guard.{count_opened}
use mathlib.Core.Path.{subst}

-- The loop reaches the state of the step that it takes,
state_of_step :
    (p q : Projection) (t : RecordType) (b : Option State)
    → LifeCycle p.state t b
    → project_type p t ≡ ok q
    → q.state ≡ b
unfolding project_type is_terminal record_types
state_of_step p q t b (opening m e) h = ground arith
state_of_step p q t b (completing m e) h = ground arith
state_of_step p q t b (abandoning m e) h = ground arith
state_of_step p q t b (reopening m e) h = ground arith
state_of_step p q t b (measuring of_session e) h = ground arith
state_of_step p q t b (measuring of_check e) h = ground arith
state_of_step p q t b (working of_review m e) h = ground arith
state_of_step p q t b (working of_acceptance m e) h = ground arith
state_of_step p q t b (working of_amendment m e) h = ground arith
state_of_step p q t b (working of_finding m e) h = ground arith
state_of_step p q t b (working of_agreement m e) h = ground arith
state_of_step p q t b (working of_acknowledgement m e) h = ground arith
state_of_step p q t b (working of_ext m e) h = ground arith

-- and takes every step, where no second opening is read.
step_is_not_refused :
    (p : Projection) (t : RecordType) (ts : List RecordType) (b : Option State) (d : Error)
    → IsCoherent p
    → flag p.has_opened_record + count_opened (t ∷ ts) ≤ 1
    → LifeCycle p.state t b
    → project_type p t ≡ err d
    → ⊥
unfolding project_type is_terminal record_types admitted_after
step_is_not_refused p t ts b d v n (opening m e) h = ground arith
step_is_not_refused p t ts b d v n (completing m e) h = ground arith
step_is_not_refused p t ts b d v n (abandoning m e) h = ground arith
step_is_not_refused p t ts b d v n (reopening m e) h = ground arith
step_is_not_refused p t ts b d v n (measuring of_session e) h = ground arith
step_is_not_refused p t ts b d v n (measuring of_check e) h = ground arith
step_is_not_refused p t ts b d v n (working of_review m e) h = ground arith
step_is_not_refused p t ts b d v n (working of_acceptance m e) h = ground arith
step_is_not_refused p t ts b d v n (working of_amendment m e) h = ground arith
step_is_not_refused p t ts b d v n (working of_finding m e) h = ground arith
step_is_not_refused p t ts b d v n (working of_agreement m e) h = ground arith
step_is_not_refused p t ts b d v n (working of_acknowledgement m e) h = ground arith
step_is_not_refused p t ts b d v n (working of_ext m e) h = ground arith

turn_of_step :
    (p : Projection) (t : RecordType) (ts : List RecordType) (b : Option State)
    → IsCoherent p
    → flag p.has_opened_record + count_opened (t ∷ ts) ≤ 1
    → LifeCycle p.state t b
    → (q : Projection) × (project_type p t ≡ ok q) × (q.state ≡ b)
turn_of_step p t ts b v n s = go (project_type p t) refl
  where
    go :
        (r : Result Projection)
        → project_type p t ≡ r
        → (q : Projection) × (project_type p t ≡ ok q) × (q.state ≡ b)
    go (ok q) h = (q, h, state_of_step p q t b s h)
    go (err d) h = absurd (step_is_not_refused p t ts b d v n s h)

turns_of_Run :
    (p : Projection) (ts : List RecordType) (a c : Option State)
    → IsCoherent p
    → flag p.has_opened_record + count_opened ts ≤ 1
    → p.state ≡ a
    → Run a ts c
    → (q : Projection) × (project_types p ts ≡ ok q) × (q.state ≡ c)
unfolding project_types
turns_of_Run p [] a c v n e (stop k) = (p, refl, e ∙ sym k)
turns_of_Run p (t ∷ ts) a c v n e (step {b} s r) =
    let (m, turn, reached) = turn_of_step p t ts b v n (subst (λ x. LifeCycle x t b) (sym e) s) in
    let (q, turns, last) =
      turns_of_Run m ts b c (project_type-IsCoherent p m t v turn)
        (omega (arith, n, opened_step p m t ts turn)) reached r in
    (q, rw turn turns, last)

conclude-ok :
    (q : Projection) (s : State)
    → q.state ≡ some s
    → flag q.has_opened_record ≡ 1
    → conclude q ≡ ok s
unfolding conclude
conclude-ok q s e n = ground arith

project_status_of-Run :
    (ts : List RecordType) (s : State)
    → Run none ts (some s)
    → count_opened ts ≡ 1
    → project_status_of ts ≡ ok s
unfolding project_status_of
project_status_of-Run ts s r n =
    let (q, turns, last) =
      turns_of_Run initial ts none (some s) initial-IsCoherent (omega (arith, n)) refl r in
    rw turns (conclude-ok q s last (omega (arith, n, opened_count initial q ts turns)))

-- Records have a state exactly when each names a known type, exactly one of them is an opening, and the
-- life cycle leads from no state to that state by one step for each record, in their order.
pub project_status-exact :
    (rs : List Fields) (s : State)
    → (project_status rs ≡ ok s)
      ↔ ((ts : List RecordType) × AreTypes rs ts × (count_opened ts ≡ 1) × Run none ts (some s))
project_status-exact rs s = (
  λ h.
      let (ts, typed, same) = (project_status_iff rs s).0 h in
      (ts, typed, opened_exactly_once ts s same, project_status-Run ts s same),
  λ w. (project_status_iff rs s).1 (w.0, w.1, project_status_of-Run w.0 s w.3 w.2),
)
