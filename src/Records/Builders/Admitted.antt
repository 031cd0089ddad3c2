-- ===== src/Records/Builders/Admitted.antt =====
-- src/agentmarshal/journal/records.py: the fields that a type admits at each schema.
use agentmarshal.Common.{
  all, any, is_empty, every_below, every_below-at, pass, Text, text, text_eq, contains_text,
  text_eq_sound, ℕ, ◌<◌, String, ◌≡◌, refl, ap, Bool, true, false, not, ◌||◌, none, some, List, [],
  ◌∷◌, ◌++◌, map, arith,
}
use agentmarshal.Json.{Fields, end, field, keys, get, is_some, has}
use agentmarshal.Registry.{RecordType, opened, review, session, same_type}
use agentmarshal.Records.Schema.{
  schema_7_session_fields, schema_7_contract_fields, schema_7_acceptance_fields,
  schema_7_review_fields, schema_7_completed_fields, allowed_fields, record_type_of, schema_of,
  has_any,
}
use agentmarshal.Records.Forgeable.{keys_outside, refuse_outside}
use agentmarshal.Records.Rules.Envelope.{allowed_of, check_fields}
use agentmarshal.Records.Rules.Review.{reviewer_fields}

pub keys_outside-get :
    (allowed : List String) (r : Fields) (k : Text)
    → keys_outside allowed (keys r) ≡ []
    → contains_text k (map text allowed) ≡ false
    → get r k ≡ none
unfolding keys_outside keys get
keys_outside-get allowed end k h e = refl
keys_outside-get allowed (field j v r) k h e =
    ground (arith, keys_outside-get allowed r k, text_eq_sound j k)

-- Whether the fields rule admits none of the fields.
unfoldable pub admits_none : List String → List String → Bool
admits_none fields allowed = all (λ k. not (contains_text (text k) (map text allowed))) fields

pub is_empty-nil : (xs : List Text) → is_empty xs ≡ true → xs ≡ []
unfolding is_empty
is_empty-nil [] h = refl
is_empty-nil (x ∷ xs) h = cc

outside-nil : (r : Fields) → check_fields r ≡ pass → keys_outside (allowed_of r) (keys r) ≡ []
unfolding check_fields refuse_outside
outside-nil r h = is_empty-nil (keys_outside (allowed_of r) (keys r)) (ground arith)

-- The fields rule leaves no field that the type and the schema do not admit.
pub absent :
    (r : Fields) (k : String)
    → check_fields r ≡ pass
    → contains_text (text k) (map text (allowed_of r)) ≡ false
    → has r k ≡ false
unfolding has
absent r k h e = ap is_some (keys_outside-get (allowed_of r) r (text k) (outside-nil r h) e)

pub not_admitted :
    (fields : List String) (r : Fields)
    → check_fields r ≡ pass
    → admits_none fields (allowed_of r) ≡ true
    → has_any r fields ≡ false
unfolding admits_none all has_any any
not_admitted [] r h e = refl
not_admitted (k ∷ fields) r h e = ground (arith, absent r k h, not_admitted fields r h)

-- The fields of schema 7 that raise the stamp whatever the record's type.
abbrev pub late_fields : List String
late_fields =
    schema_7_session_fields ++ schema_7_contract_fields ++ schema_7_acceptance_fields
    ++ schema_7_review_fields ++ schema_7_completed_fields

late_table :
    (t : RecordType) → every_below 7 (λ n. admits_none late_fields (allowed_fields t n)) ≡ true
unfolding every_below admits_none allowed_fields contains_text all any text text_eq
late_table opened = refl
late_table _ = refl

-- Only a session may carry an activity, and only a review a reviewer.
abbrev pub owned : RecordType → String → RecordType → ℕ → Bool
owned owner k t n = same_type t owner || admits_none (k ∷ []) (allowed_fields t n)

pub activity_table : (t : RecordType) → every_below 8 (owned session "activity" t) ≡ true
unfolding every_below admits_none allowed_fields contains_text all any text text_eq same_type
activity_table opened = refl
activity_table _ = refl

pub reviewer_table : (t : RecordType) → every_below 8 (owned review "reviewer" t) ≡ true
unfolding every_below admits_none allowed_fields contains_text all any text text_eq same_type
reviewer_table opened = refl
reviewer_table _ = refl

allowed_of-some :
    (r : Fields) (t : RecordType)
    → record_type_of r ≡ some t
    → allowed_of r ≡ allowed_fields t (schema_of r)
unfolding allowed_of
allowed_of-some r t e = rw e

module _ (r : Fields) (t : RecordType) (known : record_type_of r ≡ some t)
    (h : check_fields r ≡ pass) where
  pub no_late_fields : schema_of r < 7 → has_any r late_fields ≡ false
  no_late_fields lt = not_admitted late_fields r h (
      rw (allowed_of-some r t known) (
        every_below-at 7 (λ n. admits_none late_fields (allowed_fields t n)) (schema_of r)
          (late_table t) lt))

  pub not_owned :
      (owner : RecordType) (k : String)
      → every_below 8 (owned owner k t) ≡ true
      → schema_of r < 8
      → same_type t owner ≡ false
      → has_any r (k ∷ []) ≡ false
  not_owned owner k table lt e =
      let mine = every_below-at 8 (owned owner k t) (schema_of r) table lt in
      not_admitted (k ∷ []) r h (rw (allowed_of-some r t known) (ground arith))

pub actor_outside : contains_text (text "actor") (map text reviewer_fields) ≡ false
unfolding contains_text any text text_eq
actor_outside = refl
