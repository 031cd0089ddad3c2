-- ===== src/Status/Guard.antt =====
-- src/agentmarshal/journal/status.py: the writer's guard against the projection.
use agentmarshal.Common.{
  Result, ok, err, pass, guard, ◌>>=◌, >>-ok, >>=-ok, ℕ, suc, ◌+◌, ◌≡◌, refl, sym, ◌∙◌, ◌≢◌, Bool,
  true, false, List, [], ◌∷◌, ◌++◌, arith,
}
use agentmarshal.Registry.{
  RecordType, opened, completed, abandoned, reopened, State, open_state, done_state,
  abandoned_state, record_types,
}
use agentmarshal.Status.Projection.{
  is_terminal, Projection, initial, project_type, project_types, conclude, project_status_of,
  guard_record, load_task_for_record,
}
use agentmarshal.Status.Phases.{
  IsCoherent, initial-IsCoherent, project_types-IsCoherent, project_types-append,
}

abbrev pub count_opened : List RecordType → ℕ
count_opened [] = 0
count_opened (opened ∷ ts) = suc (count_opened ts)
count_opened (_ ∷ ts) = count_opened ts

abbrev pub flag : Bool → ℕ
flag false = 0
flag true = 1

pub opened_step :
    (p q : Projection) (t : RecordType) (ts : List RecordType)
    → project_type p t ≡ ok q
    → flag p.has_opened_record + count_opened (t ∷ ts) ≡ flag q.has_opened_record + count_opened ts
unfolding project_type
opened_step p q opened ts h = ground arith
opened_step p q _ ts h = ground arith

pub opened_count :
    (p q : Projection) (ts : List RecordType)
    → project_types p ts ≡ ok q
    → flag p.has_opened_record + count_opened ts ≡ flag q.has_opened_record
unfolding project_types
opened_count p q [] h = ground arith
opened_count p q (t ∷ ts) h =
    let (m, first, rest) = >>=-ok (project_type p t) (λ m. project_types m ts) h in
    omega (arith, opened_step p m t ts first, opened_count m q ts rest)

conclude-opened : (p : Projection) (s : State) → conclude p ≡ ok s → flag p.has_opened_record ≡ 1
unfolding conclude
conclude-opened p s h = ground arith

pub opened_exactly_once :
    (ts : List RecordType) (s : State) → project_status_of ts ≡ ok s → count_opened ts ≡ 1
unfolding project_status_of
opened_exactly_once ts s h =
    let (q, turns, last) = >>=-ok (project_types initial ts) conclude h in
    omega (arith, opened_count initial q ts turns, conclude-opened q s last)

-- The state of a task after one more record of the type.
next_state : RecordType → State → State
next_state completed s = done_state
next_state abandoned s = abandoned_state
next_state opened s = open_state
next_state reopened s = open_state
next_state _ s = s

admitted_turn :
    (p : Projection) (s : State) (t : RecordType)
    → IsCoherent p
    → conclude p ≡ ok s
    → t ≢ opened
    → guard_record t s ≡ pass
    → (project_type p t >>= conclude) ≡ ok (next_state t s)
unfolding conclude project_type guard_record is_terminal record_types next_state
admitted_turn p s opened v c n g = absurd (n refl)
admitted_turn p s _ v c n g = ground arith

refused_turn :
    (p : Projection) (s s' : State) (t : RecordType)
    → IsCoherent p
    → conclude p ≡ ok s
    → (project_type p t >>= conclude) ≡ ok s'
    → guard_record t s ≡ pass
unfolding conclude project_type guard_record is_terminal record_types
refused_turn p s s' opened v c h = ground arith
refused_turn p s s' _ v c h = ground arith

one_more :
    (r : Result Projection) → ((r >>= λ m. project_types m []) >>= conclude) ≡ (r >>= conclude)
unfolding project_types
one_more (ok q) = refl
one_more (err e) = refl

project_status-snoc :
    (ts : List RecordType) (t : RecordType) (q : Projection)
    → project_types initial ts ≡ ok q
    → project_status_of (ts ++ t ∷ []) ≡ (project_type q t >>= conclude)
unfolding project_status_of
project_status-snoc ts t q h =
    rw (project_types-append initial ts (t ∷ []), h)
      (unfold project_types in one_more (project_type q t))

every_type_is_writable : (t : RecordType) → (record_types t).writable ≡ true
unfolding record_types
every_type_is_writable opened = refl
every_type_is_writable _ = refl

loaded :
    (ts : List RecordType) (t : RecordType) (s : State)
    → load_task_for_record ts t ≡ ok s
    → (project_status_of ts ≡ ok s) × (guard_record t s ≡ pass)
unfolding load_task_for_record
loaded ts t s h =
    let (_, h1) = >>-ok (guard (record_types t).writable _) _ h in
    let (s1, st, h2) = >>=-ok (project_status_of ts) _ h1 in
    let (g, e) = >>-ok (guard_record t s1) (ok s1) h2 in
    let same : s1 ≡ s = cc e in (rw (← same) st, rw (← same) g)

-- Whatever record but an opening the writer's guard admits for a task, the task's records with that
-- record at their end still have a state.
pub guard_admits_what_projects :
    (ts : List RecordType) (t : RecordType) (s : State)
    → t ≢ opened
    → load_task_for_record ts t ≡ ok s
    → (s' : State) × (project_status_of (ts ++ t ∷ []) ≡ ok s')
unfolding project_status_of
guard_admits_what_projects ts t s n h =
    let (st, g) = loaded ts t s h in
    let (q, turns, c) = >>=-ok (project_types initial ts) conclude st in
    let v = project_types-IsCoherent initial q ts initial-IsCoherent turns in
    (next_state t s, project_status-snoc ts t q turns ∙ admitted_turn q s t v c n g)

-- Conversely, if a task's records have a state with a record at their end and without it, then the
-- writer's guard admits that record, with the state of the records without it.
pub guard_refuses_nothing_more :
    (ts : List RecordType) (t : RecordType) (s s' : State)
    → project_status_of ts ≡ ok s
    → project_status_of (ts ++ t ∷ []) ≡ ok s'
    → load_task_for_record ts t ≡ ok s
unfolding load_task_for_record
guard_refuses_nothing_more ts t s s' h h' = rw (every_type_is_writable t, h, admits h h')
  where
    admits :
        project_status_of ts ≡ ok s
        → project_status_of (ts ++ t ∷ []) ≡ ok s'
        → guard_record t s ≡ pass
    admits h h' =
        let (q, turns, c) =
          >>=-ok (project_types initial ts) conclude {out = s} (unfold project_status_of in h) in
        let v = project_types-IsCoherent initial q ts initial-IsCoherent turns in
        refused_turn q s s' t v c (sym (project_status-snoc ts t q turns) ∙ h')
