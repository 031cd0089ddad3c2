-- ===== src/Records/Builders/Least.antt =====
-- src/agentmarshal/journal/records.py: `_minimum_schema` against the rules of the write path.
use agentmarshal.Common.{
  any, pass, guard, each, >>-ok, guard-ok, text, contains, ltb, ltb→lt, Bool-cases, Option-cases, ℕ,
  ◌≤◌, ◌<◌, ◌≡◌, refl, sym, ap, ◌∙◌, inl, inr, Bool, true, false, ◌||◌, Option, none, some, [], ◌∷◌,
  arith,
}
use agentmarshal.Json.{Json, str, Fields, keys, is_some, ◌!◌, has, text_of, fields_of, is_dict}
use agentmarshal.Runtime.{Runtime}
use agentmarshal.Registry.{
  RecordType, review, session, finding, check, agreement, acknowledgement, ext, named, same_type,
  is_registered_record_type,
}
use agentmarshal.Records.Schema.{schema_4_fields, record_type_of, is_type, schema_of, has_any}
use agentmarshal.Records.Forgeable.{is_one_of, is_match, keys_outside, refuse_outside}
use agentmarshal.Records.Rules.Envelope.{is_known_type, check_record_type, check_reviewed_contract}
use agentmarshal.Records.Rules.Lifecycle.{
  validate_binding, check_check_schema, check_agreement_schema, check_acknowledgement_schema,
  check_ext_schema,
}
use agentmarshal.Records.Rules.Session.{is_coordination, check_coordination}
use agentmarshal.Records.Rules.Review.{
  review_verdicts, reviewer_fields, validate_reviewer, validate_review_record, check_review_record,
}
use agentmarshal.Records.Rules.Placement.{RuleContext, check_finding_binding}
use agentmarshal.Records.Validate.{rules, applies}
use agentmarshal.Records.Sound.{IsAccepted, when-pass}
use agentmarshal.Records.Builders.Stamp.{raise_to, has_reviewer_actor, minimum_schema}
use agentmarshal.Records.Builders.Admitted.{
  keys_outside-get, is_empty-nil, late_fields, activity_table, reviewer_table, no_late_fields,
  not_owned, actor_outside,
}
use agentmarshal.Records.Accepted.{
  accepted_schema, accepted_review_rule, accepted_fields_rule, accepted_type_rule,
}
use agentmarshal.Records.Builders.Late.{
  late_session, late_contract, late_acceptance, late_review, late_completed,
}

registered_type :
    (v : Option Json) → is_known_type v ≡ true → (t : RecordType) × (named (text_of v) ≡ some t)
unfolding is_known_type is_registered_record_type text_of
registered_type none h = absurd (cc)
registered_type (some (str s)) h = elim (Option-cases (named s)) [
  | inl e ↦ absurd (ground arith)
  | inr (t, e) ↦ (t, e)
]
registered_type (some _) h = absurd (cc)

known : (r : Fields) → check_record_type r ≡ pass → (t : RecordType) × (record_type_of r ≡ some t)
unfolding check_record_type record_type_of
known r h = registered_type (r ! "record_type") (guard-ok _ _ h)

is_type-same :
    (r : Fields) (t owner : RecordType)
    → record_type_of r ≡ some t
    → is_type owner r ≡ same_type t owner
unfolding is_type
is_type-same r t owner e = rw e

raised : (n s m : ℕ) (b : Bool) → s ≤ m → (b ≡ true → n ≤ m) → raise_to n b s ≤ m
unfolding raise_to
raised n s m b h f = ground (arith, f)

-- Before schema 7 the reviewer object has no actor.
no_actor :
    (r : Fields)
    → validate_reviewer r ≡ pass
    → schema_of r < 7
    → has (fields_of (r ! "reviewer")) "actor" ≡ false
unfolding validate_reviewer has refuse_outside
no_actor r h lt =
    let reviewer = fields_of (r ! "reviewer") in
    let (_, h1) = >>-ok (guard (is_dict (r ! "reviewer")) _) _ h in
    let (_, h2) = >>-ok (each _ reviewer_fields) _ h1 in
    let (_, closed) = >>-ok (guard (is_match (contains b'@') (reviewer ! "email")) _) _ h2 in
    let outside : keys_outside reviewer_fields (keys reviewer) ≡ [] =
      is_empty-nil (keys_outside reviewer_fields (keys reviewer)) (ground arith) in
    ap is_some (keys_outside-get reviewer_fields reviewer (text "actor") outside actor_outside)

both_ways : (b : Bool) → b ≡ true → b ≡ false → ⊥
both_ways b h k = cc

not_below : (m : ℕ) → (m < 7 → ⊥) → 7 ≤ m
not_below m f = elim (Bool-cases (ltb m 7)) [
  | inl lt ↦ absurd (f (ltb→lt m 7 lt))
  | inr ge ↦ ground arith
]

coordination_has : (r : Fields) → is_coordination r ≡ true → has_any r ("activity" ∷ []) ≡ true
unfolding is_coordination is_one_of has has_any any
coordination_has r h = ground arith

reviewer_has :
    (r : Fields)
    → has_reviewer_actor r ≡ true
    → (has_any r ("reviewer" ∷ []) ≡ true) × (has (fields_of (r ! "reviewer")) "actor" ≡ true)
unfolding has_reviewer_actor is_dict has has_any any
reviewer_has r h = ground arith

module _ (rt : Runtime) (context : RuleContext) (r : Fields)
    (a : IsAccepted rt true context r) where
  gate_4 : (is_type finding r || has_any r schema_4_fields) ≡ true → 4 ≤ schema_of r
  unfolding rules applies check_finding_binding
  gate_4 e =
      let gate =
        a.every_rule.1.1.1.1.1.1.1.1.1.1.1.1.1.1.1.1.1.1.1.1.1.1.1.1.1.1.1.1.1.1.1.1.1.1.1.0 refl in
      ground arith

  gate_5 : has r "reviewed_contract" ≡ true → 5 ≤ schema_of r
  unfolding rules applies check_reviewed_contract
  gate_5 e = let gate = a.every_rule.1.1.0 refl in ground arith

  gate_session : is_type session r ≡ true → is_coordination r ≡ true → 6 ≤ schema_of r
  unfolding rules applies check_coordination
  gate_session e c =
      let gate = a.every_rule.1.1.1.1.1.1.1.1.1.1.1.1.1.1.1.1.1.1.1.1.0 refl in ground arith

  gate_check : is_type check r ≡ true → 7 ≤ schema_of r
  unfolding rules applies check_check_schema
  gate_check e = let gate = a.every_rule.1.1.1.1.1.1.1.1.1.1.1.1.1.1.1.0 refl in ground arith

  gate_agreement : is_type agreement r ≡ true → 7 ≤ schema_of r
  unfolding rules applies check_agreement_schema
  gate_agreement e = let gate = a.every_rule.1.1.1.1.1.1.1.1.1.1.1.1.1.1.1.1.0 refl in ground arith

  gate_acknowledgement : is_type acknowledgement r ≡ true → 7 ≤ schema_of r
  unfolding rules applies check_acknowledgement_schema
  gate_acknowledgement e =
      let gate = a.every_rule.1.1.1.1.1.1.1.1.1.1.1.1.1.1.1.1.1.0 refl in ground arith

  gate_ext : is_type ext r ≡ true → 7 ≤ schema_of r
  unfolding rules applies check_ext_schema
  gate_ext e = let gate = a.every_rule.1.1.1.1.1.1.1.1.1.1.1.1.1.1.1.1.1.1.0 refl in ground arith

  gate_coordination : is_coordination r ≡ true → 6 ≤ schema_of r
  gate_coordination c =
      let (t, k) = known r (accepted_type_rule rt true context r a) in
      let fields = accepted_fields_rule rt true context r a in
      let (_, top) = accepted_schema rt true context r a in
      elim (Bool-cases (is_type session r)) [
        | inl mine ↦ gate_session mine c
        | inr not_mine ↦ absurd (
            both_ways _ (coordination_has r c) (
              not_owned r t k fields session "activity" (activity_table t) (omega arith)
                (sym (is_type-same r t session k) ∙ not_mine)))
      ]

  gate_actor : has_reviewer_actor r ≡ true → 7 ≤ schema_of r
  unfolding check_review_record validate_review_record
  gate_actor c =
      let (t, k) = known r (accepted_type_rule rt true context r a) in
      let fields = accepted_fields_rule rt true context r a in
      let (_, top) = accepted_schema rt true context r a in
      elim (Bool-cases (is_type review r)) [
        | inl mine ↦
            let body =
              when-pass (is_type review r) _ (accepted_review_rule rt true context r a) mine in
            let (_, h1) =
              >>-ok (validate_binding r "review" "reviewed_commit" "reviewed_finding") _ body in
            let (_, h2) = >>-ok (guard (is_one_of review_verdicts (r ! "verdict")) _) _ h1 in
            let (reviewer, _) = >>-ok (validate_reviewer r) _ h2 in
            not_below _ (λ lt. both_ways _ (reviewer_has r c).1 (no_actor r reviewer lt))
        | inr not_mine ↦ absurd (
            both_ways _ (reviewer_has r c).0 (
              not_owned r t k fields review "reviewer" (reviewer_table t) (omega arith)
                (sym (is_type-same r t review k) ∙ not_mine)))
      ]

  gate_late : has_any r late_fields ≡ true → 7 ≤ schema_of r
  gate_late c =
      let (t, k) = known r (accepted_type_rule rt true context r a) in
      not_below _
        (λ lt. both_ways _ c (no_late_fields r t k (accepted_fields_rule rt true context r a) lt))

  -- A record that the write path accepts under schema 3 or above has at least the schema that
  -- `_minimum_schema` derives from its fields, its type and its values: a writer that stamped
  -- less would be refused.
  pub stamp_is_least : 3 ≤ schema_of r → minimum_schema r ≤ schema_of r
  unfolding minimum_schema
  stamp_is_least h =
      let m = schema_of r in
      let s4 = raised 4 _ m _ h gate_4 in
      let s5 = raised 5 _ m _ s4 gate_5 in
      let s6 = raised 6 _ m _ s5 gate_coordination in
      let s7a = raised 7 _ m _ s6 (λ e. gate_late (late_session r e)) in
      let s7b = raised 7 _ m _ s7a (λ e. gate_late (late_contract r e)) in
      let s7c = raised 7 _ m _ s7b (λ e. gate_late (late_acceptance r e)) in
      let s7d = raised 7 _ m _ s7c (λ e. gate_late (late_review r e)) in
      let s7e = raised 7 _ m _ s7d (λ e. gate_late (late_completed r e)) in
      let s7f = raised 7 _ m _ s7e gate_actor in
      let s7g = raised 7 _ m _ s7f gate_check in
      let s7h = raised 7 _ m _ s7g gate_agreement in
      let s7i = raised 7 _ m _ s7h gate_acknowledgement in raised 7 _ m _ s7i gate_ext
