-- ===== src/Status/Phases.antt =====
-- src/agentmarshal/journal/status.py: the projection against the life cycle of a task, stated as a step
-- relation.
use agentmarshal.Common.{
  Result, ok, err, ◌>>=◌, >>=-ok, ◌≡◌, refl, ◌≢◌, true, false, Option, none, some, List, [], ◌∷◌,
  ◌++◌, arith,
}
use agentmarshal.Registry.{
  RecordType, opened, review, acceptance, completed, abandoned, reopened, amendment, session,
  finding, check, agreement, acknowledgement, ext, State, open_state, done_state, abandoned_state,
  record_types,
}
use agentmarshal.Status.Projection.{is_terminal, Projection, initial, project_type, project_types}

-- What is true of the loop's variables between two turns.
pub record IsCoherent (p : Projection) : Type 0 where
  pub terminal : p.has_terminal_record ≡ is_terminal p.state
  pub opened_has_state : p.has_opened_record ≡ true → p.state ≢ none

pub initial-IsCoherent : IsCoherent initial
unfolding is_terminal
initial-IsCoherent = record { terminal = refl; opened_has_state = λ h. cc }

-- Every turn that does not refuse keeps the terminal flag equal to the state's being terminal.
pub project_type-IsCoherent :
    (p q : Projection) (t : RecordType) → IsCoherent p → project_type p t ≡ ok q → IsCoherent q
unfolding project_type is_terminal record_types
project_type-IsCoherent p q opened v h = ground arith
project_type-IsCoherent p q _ v h = ground arith

pub project_types-IsCoherent :
    (p q : Projection) (ts : List RecordType)
    → IsCoherent p
    → project_types p ts ≡ ok q
    → IsCoherent q
unfolding project_types
project_types-IsCoherent p q [] v h = ground arith
project_types-IsCoherent p q (t ∷ ts) v h =
    let (m, first, rest) = >>=-ok (project_type p t) (λ m. project_types m ts) h in
    project_types-IsCoherent m q ts (project_type-IsCoherent p m t v first) rest

-- `project_types` over an appended list goes on from where the first list ends.
pub project_types-append :
    (p : Projection) (ts us : List RecordType)
    → project_types p (ts ++ us) ≡ (project_types p ts >>= λ m. project_types m us)
unfolding project_types
project_types-append p [] us = refl
project_types-append p (t ∷ ts) us = go_on (project_type p t) (λ q. project_types-append q ts us)
  where
    go_on :
        (r : Result Projection)
        → ((q : Projection)
            → project_types q (ts ++ us) ≡ (project_types q ts >>= λ m. project_types m us))
        → (r >>= λ q. project_types q (ts ++ us))
          ≡ ((r >>= λ q. project_types q ts) >>= λ m. project_types m us)
    go_on (ok q) rest = rest q
    go_on (err e) rest = refl

-- The types that bear no life cycle and follow any state: sessions and checks.
pub data IsMeasurement : RecordType → Type 0 where
  of_session : IsMeasurement session
  of_check : IsMeasurement check

-- The types that bear no life cycle and are written while a task is open.
pub data IsWork : RecordType → Type 0 where
  of_review : IsWork review
  of_acceptance : IsWork acceptance
  of_amendment : IsWork amendment
  of_finding : IsWork finding
  of_agreement : IsWork agreement
  of_acknowledgement : IsWork acknowledgement
  of_ext : IsWork ext

-- The life cycle of a task: the state before a record, its type, and the state after it.
pub data LifeCycle (a : Option State) : RecordType → Option State → Type 0 where
  opening : {b : Option State} → is_terminal a ≡ false → b ≡ some open_state → LifeCycle a opened b
  completing :
      {b : Option State} → is_terminal a ≡ false → b ≡ some done_state → LifeCycle a completed b
  abandoning :
      {b : Option State}
      → is_terminal a ≡ false
      → b ≡ some abandoned_state
      → LifeCycle a abandoned b
  reopening :
      {b : Option State} → a ≡ some done_state → b ≡ some open_state → LifeCycle a reopened b
  measuring : {b : Option State} {t : RecordType} → IsMeasurement t → b ≡ a → LifeCycle a t b
  working :
      {b : Option State} {t : RecordType}
      → IsWork t
      → is_terminal a ≡ false
      → b ≡ a
      → LifeCycle a t b

-- A sequence of such steps, for the types of a task's records.
pub data Run : Option State → List RecordType → Option State → Type 0 where
  stop : {a c : Option State} → c ≡ a → Run a [] c
  step :
      {a b c : Option State} {t : RecordType} {ts : List RecordType}
      → LifeCycle a t b
      → Run b ts c
      → Run a (t ∷ ts) c
