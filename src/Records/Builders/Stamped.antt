-- ===== src/Records/Builders/Stamped.antt =====
-- src/agentmarshal/journal/records.py: the schema that the builders stamp.
use agentmarshal.Common.{
  any, ok, guard, >>-ok, Text, text, text_eq, ◌==◌, or-eq-false, ℕ, ◌≤◌, String, ◌≡◌, refl, ap, ◌∙◌,
  Bool, true, false, not, ◌&&◌, ◌||◌, Option, none, some, List, [], ◌∷◌, arith,
}
use agentmarshal.Json.{ℤ, pos, Json, int, Fields, put, ◌!◌, has}
use agentmarshal.Json.Dict.{get-put}
use agentmarshal.Runtime.{Runtime}
use agentmarshal.Registry.{RecordType, finding, check, agreement, acknowledgement, ext}
use agentmarshal.Records.Schema.{
  schema_4_fields, schema_7_session_fields, schema_7_contract_fields, schema_7_acceptance_fields,
  schema_7_review_fields, schema_7_completed_fields, record_type_of, is_type, schema_number,
  schema_of, has_any,
}
use agentmarshal.Records.Rules.Session.{is_coordination}
use agentmarshal.Records.Rules.Evidence.{canonical_json}
use agentmarshal.Records.Builders.Stamp.{has_reviewer_actor, minimum_schema}
use agentmarshal.Records.Builders.Create.{
  Origin, with_schema, create_opened_record, is_given, both_or_neither, create_completed_record,
  create_finding_record, create_abandoned_record, create_reopened_record, create_amendment_record,
  create_agreement_record,
}
use agentmarshal.Records.Builders.Evidence.{
  SessionExtras, Session, create_session_record, Reviewer, ReviewExtras, create_review_record,
  create_acceptance_record, create_check_record, create_acknowledgement_record, pinned,
  create_ext_record,
}
use agentmarshal.Records.Rules.Placement.{RuleContext}
use agentmarshal.Records.Sound.{validate_record-IsAccepted}
use agentmarshal.Records.Builders.Least.{stamp_is_least}
use agentmarshal.Records.Validate.{validate_record}

-- What a `create_…_record` function gives.
pub data IsBuilt (rt : Runtime) (r : Fields) : Type 0 where
  an_opening :
      (o : Origin) (contract : Option Text) → r ≡ create_opened_record o contract → IsBuilt rt r
  a_completion :
      (o : Origin) (commit id : Option Text) (dispositions : Option Fields)
      → create_completed_record o commit id dispositions ≡ ok r
      → IsBuilt rt r
  a_finding :
      (o : Origin) (summary : Text) (artifacts : List Fields)
      → r ≡ create_finding_record o summary artifacts
      → IsBuilt rt r
  an_abandonment :
      (o : Origin) (reason : Text) → r ≡ create_abandoned_record o reason → IsBuilt rt r
  a_reopening : (o : Origin) (reason : Text) → r ≡ create_reopened_record o reason → IsBuilt rt r
  an_amendment :
      (o : Origin) (reason : Text) (contract : Option Text)
      → r ≡ create_amendment_record o reason contract
      → IsBuilt rt r
  an_agreement :
      (o : Origin) (contract : Text) → r ≡ create_agreement_record o contract → IsBuilt rt r
  a_session :
      (o : Origin) (s : Session) (e : SessionExtras)
      → create_session_record o s e ≡ ok r
      → IsBuilt rt r
  a_review :
      (o : Origin) (commit id : Option Text) (verdict : Text) (v : Reviewer) (findings : List Text)
      (e : ReviewExtras)
      → create_review_record o commit id verdict v findings e ≡ ok r
      → IsBuilt rt r
  an_acceptance :
      (o : Origin) (commit id : Option Text) (by reason : Text) (findings : Option (List Text))
      (pause : Option Text) (operational : Bool)
      → create_acceptance_record o commit id by reason findings pause operational ≡ ok r
      → IsBuilt rt r
  a_check :
      (o : Origin) (commit check_name result : Text) (step excerpt url : Option Text)
      → r ≡ create_check_record o commit check_name result step excerpt url
      → IsBuilt rt r
  an_acknowledgement :
      (o : Origin) (commit file reason : Text) (signature : Option Text) (marker : Option ℤ)
      → create_acknowledgement_record o commit file reason signature marker ≡ ok r
      → IsBuilt rt r
  an_ext :
      (o : Origin) (kind commit : Text) (payload : Json)
      → create_ext_record rt o kind commit payload ≡ ok r
      → IsBuilt rt r

ok_inverse : (a b : Fields) → ok a ≡ ok b → b ≡ a
ok_inverse a b h = cc

-- Every builder ends by the stamp.
IsBuilt-with_schema :
    (rt : Runtime) (r : Fields) → IsBuilt rt r → (base : Fields) × (r ≡ with_schema base)
unfolding create_opened_record create_finding_record create_abandoned_record create_reopened_record
    create_amendment_record create_agreement_record create_check_record create_completed_record
    create_session_record create_review_record create_acceptance_record
    create_acknowledgement_record create_ext_record
IsBuilt-with_schema rt r (an_opening o contract e) = (_, e)
IsBuilt-with_schema rt r (a_finding o summary artifacts e) = (_, e)
IsBuilt-with_schema rt r (an_abandonment o reason e) = (_, e)
IsBuilt-with_schema rt r (a_reopening o reason e) = (_, e)
IsBuilt-with_schema rt r (an_amendment o reason contract e) = (_, e)
IsBuilt-with_schema rt r (an_agreement o contract e) = (_, e)
IsBuilt-with_schema rt r (a_check o commit check_name result step excerpt url e) = (_, e)
IsBuilt-with_schema rt r (a_completion o commit id dispositions h) =
    let (_, h1) = >>-ok (guard (not (both_or_neither commit id)) _) _ h in
    let (_, h2) = >>-ok (guard (not (is_given id && is_given dispositions)) _) _ h1 in
    (_, ok_inverse _ r h2)
IsBuilt-with_schema rt r (a_session o s e h) =
    let (_, h1) = >>-ok (guard (both_or_neither e.usage_provider e.usage_method) _) _ h in
    (_, ok_inverse _ r h1)
IsBuilt-with_schema rt r (a_review o commit id verdict v findings e h) =
    let (_, h1) = >>-ok (guard (not (both_or_neither commit id)) _) _ h in (_, ok_inverse _ r h1)
IsBuilt-with_schema rt r (an_acceptance o commit id by reason findings pause operational h) =
    let (_, h1) = >>-ok (guard (not (both_or_neither commit id)) _) _ h in
    let (_, h2) = >>-ok (guard (_ == 1) _) _ h1 in
    let (_, h3) = >>-ok (guard (not (is_given id && (is_given pause || operational))) _) _ h2 in
    (_, ok_inverse _ r h3)
IsBuilt-with_schema rt r (an_acknowledgement o commit file reason signature marker h) =
    let (_, h1) = >>-ok (guard (not (both_or_neither signature marker)) _) _ h in
    (_, ok_inverse _ r h1)
IsBuilt-with_schema rt r (an_ext o kind commit payload h) =
    pinned_cases (canonical_json rt (some payload)) h
  where
    pinned_cases :
        (c : Option (List ℕ))
        → pinned rt c o kind commit payload ≡ ok r
        → (base : Fields) × (r ≡ with_schema base)
    pinned_cases none h = absurd (cc)
    pinned_cases (some c) h = (_, ok_inverse _ r h)

-- The stamp is no field that the least schema is derived from.
module _ (r : Fields) (v : Json) where
  abbrev restamped : Fields
  restamped = put r (text "schema") v

  other_field : (k : String) → text_eq (text "schema") (text k) ≡ false → restamped ! k ≡ r ! k
  unfolding ◌!◌
  other_field k e = rw (get-put r (text "schema") (text k) v, e)

  other_fields :
      (names : List String)
      → any (λ k. text_eq (text "schema") (text k)) names ≡ false
      → has_any restamped names ≡ has_any r names
  unfolding has_any any has
  other_fields [] e = refl
  other_fields (k ∷ names) e =
      let (own, rest) =
        or-eq-false (text_eq (text "schema") (text k))
          (any (λ k. text_eq (text "schema") (text k)) names) e in
      rw (other_field k own, other_fields names rest)

  same_type_of : (t : RecordType) → is_type t restamped ≡ is_type t r
  unfolding is_type record_type_of text text_eq
  same_type_of t = rw (other_field "record_type" refl)

  minimum_schema-put : minimum_schema restamped ≡ minimum_schema r
  unfolding minimum_schema has is_coordination has_reviewer_actor any text text_eq
  minimum_schema-put = rw (
    same_type_of finding,
    same_type_of check,
    same_type_of agreement,
    same_type_of acknowledgement,
    same_type_of ext,
    other_field "reviewed_contract" refl,
    other_field "activity" refl,
    other_field "reviewer" refl,
    other_fields schema_4_fields refl,
    other_fields schema_7_session_fields refl,
    other_fields schema_7_contract_fields refl,
    other_fields schema_7_acceptance_fields refl,
    other_fields schema_7_review_fields refl,
    other_fields schema_7_completed_fields refl,
  )

schema_of-put : (r : Fields) (n : ℕ) → schema_of (put r (text "schema") (int (pos n))) ≡ n
unfolding schema_of schema_number text text_eq ◌!◌
schema_of-put r n = rw (get-put r (text "schema") (text "schema") (int (pos n)))

-- A record that a `create_…_record` function gives is stamped with no later schema than it needs: where
-- the write path accepts the same record under a schema from 3 up, its own stamp is at most that schema.
pub built_stamp_is_least :
    (rt : Runtime) (context : RuleContext) (r : Fields) (n : ℕ) {out : Fields}
    → IsBuilt rt r
    → 3 ≤ n
    → validate_record rt true context (put r (text "schema") (int (pos n))) ≡ ok out
    → schema_of r ≤ n
unfolding with_schema
built_stamp_is_least rt context r n built h accepted =
    let (base, e) = IsBuilt-with_schema rt r built in
    let stamp = minimum_schema base in
    let same : schema_of r ≡ stamp = ap schema_of e ∙ schema_of-put base stamp in
    let kept : minimum_schema r ≡ stamp =
      ap minimum_schema e ∙ minimum_schema-put base (int (pos stamp)) in
    let a =
      validate_record-IsAccepted rt true context (put r (text "schema") (int (pos n))) accepted in
    let least =
      stamp_is_least rt context (put r (text "schema") (int (pos n))) a
        (omega (arith, schema_of-put r n)) in
    omega (arith, same, kept, least, schema_of-put r n, minimum_schema-put r (int (pos n)))
