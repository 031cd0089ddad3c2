-- ===== src/Status/Typed.antt =====
-- src/agentmarshal/journal/status.py: `project_status` against the projection of the types.
use agentmarshal.Common.{ok, >>=-ok, ◌≡◌, ◌↔◌, Option, some, List, [], ◌∷◌, arith}
use agentmarshal.Json.{Fields}
use agentmarshal.Registry.{RecordType, State}
use agentmarshal.Records.Schema.{record_type_of}
use agentmarshal.Status.Projection.{
  Projection, initial, project_type, project_types, conclude, project_status_of, known_type,
  project_records, project_status,
}

-- Each record names the type at its place.
abbrev pub AreTypes : List Fields → List RecordType → Type 0
AreTypes [] [] = Unit
AreTypes [] (t ∷ ts) = ⊥
AreTypes (r ∷ rs) [] = ⊥
AreTypes (r ∷ rs) (t ∷ ts) = (record_type_of r ≡ some t) × AreTypes rs ts

project_types-cons :
    (p m q : Projection) (t : RecordType) (ts : List RecordType)
    → project_type p t ≡ ok m
    → project_types m ts ≡ ok q
    → project_types p (t ∷ ts) ≡ ok q
unfolding project_types
project_types-cons p m q t ts h k = rw h k

known_type-ok : (o : Option RecordType) (t : RecordType) → known_type o ≡ ok t → o ≡ some t
unfolding known_type
known_type-ok o t h = ground arith

known_type-some : (o : Option RecordType) (t : RecordType) → o ≡ some t → known_type o ≡ ok t
unfolding known_type
known_type-some o t e = rw e

project_records-AreTypes :
    (p q : Projection) (rs : List Fields)
    → project_records p rs ≡ ok q
    → (ts : List RecordType) × AreTypes rs ts × (project_types p ts ≡ ok q)
unfolding project_records project_types
project_records-AreTypes p q [] h = ([], tt, h)
project_records-AreTypes p q (r ∷ rs) h =
    let (t, known, h1) = >>=-ok (known_type (record_type_of r)) _ h in
    let (m, turn, rest) = >>=-ok (project_type p t) _ h1 in
    let (ts, typed, turns) = project_records-AreTypes m q rs rest in
    (t ∷ ts, (known_type-ok _ t known, typed), project_types-cons p m q t ts turn turns)

project_records_of_types :
    (p q : Projection) (rs : List Fields) (ts : List RecordType)
    → AreTypes rs ts
    → project_types p ts ≡ ok q
    → project_records p rs ≡ ok q
unfolding project_records project_types
project_records_of_types p q [] [] a h = h
project_records_of_types p q [] (t ∷ ts) a h = absurd a
project_records_of_types p q (r ∷ rs) [] a h = absurd a
project_records_of_types p q (r ∷ rs) (t ∷ ts) a h =
    let (m, turn, turns) = >>=-ok (project_type p t) _ h in
    rw (known_type-some (record_type_of r) t a.0, turn)
      (project_records_of_types m q rs ts a.1 turns)

-- Records have a state exactly when each names a known type and the list of these types has that
-- state.
pub project_status_iff :
    (rs : List Fields) (s : State)
    → (project_status rs ≡ ok s)
      ↔ ((ts : List RecordType) × AreTypes rs ts × (project_status_of ts ≡ ok s))
unfolding project_status project_status_of
project_status_iff rs s = (
  λ h.
      let (q, turns, last) = >>=-ok (project_records initial rs) conclude h in
      let (ts, typed, same) = project_records-AreTypes initial q rs turns in
      (ts, typed, rw same last),
  λ w.
      let (q, turns, last) = >>=-ok (project_types initial w.0) conclude w.2 in
      rw (project_records_of_types initial q rs w.0 w.1 turns) last,
)
