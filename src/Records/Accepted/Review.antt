-- ===== src/Records/Accepted/Review.antt =====
-- src/agentmarshal/journal/records.py: what an accepted review has.
use agentmarshal.Common.{
  is_empty, ok, pass, guard, each, >>-ok, guard-ok, is_unique, is_disjoint, ◌≡◌, ◌↔◌, Bool, true,
  not, ◌&&◌, arith,
}
use agentmarshal.Records.Accepted.{
  accepted_review_rule, IsBound, validate_binding-IsBound, NoneForges, each-NoneForges,
}
use agentmarshal.Json.{Fields, ◌!◌, has}
use agentmarshal.Runtime.{Runtime}
use agentmarshal.Registry.{review}
use agentmarshal.Records.Schema.{is_type}
use agentmarshal.Records.Forgeable.{reject_control_characters, is_one_of, is_id_list, when}
use agentmarshal.Records.Rules.Lifecycle.{validate_binding}
use agentmarshal.Records.Rules.Review.{
  review_verdicts, validate_reviewer, is_approved, findings_of, advisory_of,
  validate_review_findings, validate_advisory_findings, validate_review_record, check_review_record,
}
use agentmarshal.Records.Rules.Placement.{RuleContext}
use agentmarshal.Records.Validate.{validate_record}
use agentmarshal.Records.Sound.{when-pass, validate_record-IsAccepted}

-- What the journal promises of the findings of a review: there are some exactly when the review does
-- not approve, none twice, and none that forges.
pub record FindingsAreSound (rt : Runtime) (r : Fields) : Type 0 where
  pub approved_iff : (is_approved r ≡ true) ↔ (is_empty (findings_of r) ≡ true)
  pub unique : is_unique (findings_of r) ≡ true
  pub clean : NoneForges rt (findings_of r)

pub record AdvisoryIsSound (rt : Runtime) (r : Fields) : Type 0 where
  pub unique : is_unique (advisory_of r) ≡ true
  pub clean : NoneForges rt (advisory_of r)
  pub disjoint : is_disjoint (advisory_of r) (findings_of r) ≡ true

approval :
    (a e : Bool) → not (a && not e) ≡ true → not (not a && e) ≡ true → (a ≡ true) ↔ (e ≡ true)
approval a e h k = ground arith

findings_sound :
    (rt : Runtime) (r : Fields) → validate_review_findings rt r ≡ pass → FindingsAreSound rt r
unfolding validate_review_findings
findings_sound rt r h =
    let (_, h1) = >>-ok (guard (is_id_list (r ! "findings")) _) _ h in
    let (clean, h2) = >>-ok (each (λ k. reject_control_characters rt k _) (findings_of r)) _ h1 in
    let (unique, h3) = >>-ok (guard (is_unique (findings_of r)) _) _ h2 in
    let (some_approve, none_approve) =
      >>-ok (guard (not (is_approved r && not (is_empty (findings_of r)))) _) _ h3 in
    record {
      approved_iff =
          approval (is_approved r) (is_empty (findings_of r)) (guard-ok _ _ some_approve)
            (guard-ok _ _ none_approve);
      unique = guard-ok _ _ unique;
      clean = each-NoneForges rt _ (findings_of r) clean;
    }

advisory_sound :
    (rt : Runtime) (r : Fields) → validate_advisory_findings rt r ≡ pass → AdvisoryIsSound rt r
unfolding validate_advisory_findings
advisory_sound rt r h =
    let (_, h1) = >>-ok (guard (is_id_list (r ! "advisory_findings")) _) _ h in
    let (clean, h2) = >>-ok (each (λ k. reject_control_characters rt k _) (advisory_of r)) _ h1 in
    let (unique, disjoint) = >>-ok (guard (is_unique (advisory_of r)) _) _ h2 in
    record {
      unique = guard-ok _ _ unique;
      clean = each-NoneForges rt _ (advisory_of r) clean;
      disjoint = guard-ok _ _ disjoint;
    }

-- What the journal promises of a review that it accepted.
pub record ReviewIsSound (rt : Runtime) (r : Fields) : Type 0 where
  pub binding : IsBound r "reviewed_commit" "reviewed_finding"
  pub verdict : is_one_of review_verdicts (r ! "verdict") ≡ true
  pub findings : FindingsAreSound rt r
  pub advisory : has r "advisory_findings" ≡ true → AdvisoryIsSound rt r

validate_review_sound :
    (rt : Runtime) (r : Fields) → validate_review_record rt r ≡ pass → ReviewIsSound rt r
unfolding validate_review_record
validate_review_sound rt r h =
    let (bound, h1) =
      >>-ok (validate_binding r "review" "reviewed_commit" "reviewed_finding") _ h in
    let (worded, h2) = >>-ok (guard (is_one_of review_verdicts (r ! "verdict")) _) _ h1 in
    let (_, h3) = >>-ok (validate_reviewer r) _ h2 in
    let (listed, h4) = >>-ok (validate_review_findings rt r) _ h3 in
    let (advised, _) =
      >>-ok (when (has r "advisory_findings") (validate_advisory_findings rt r)) _ h4 in
    record {
      binding = validate_binding-IsBound r "review" "reviewed_commit" "reviewed_finding" bound;
      verdict = guard-ok _ _ worded;
      findings = findings_sound rt r listed;
      advisory = λ e. advisory_sound rt r (when-pass _ _ advised e);
    }

-- A review that validation accepts, on the write path or on the read path of any schema, is bound to
-- exactly one well-formed commit or finding and has a known verdict; it approves exactly when it
-- names no blocking finding; no finding id repeats or forges text, and no advisory finding is
-- also a blocking one.
pub accepted-ReviewIsSound :
    (rt : Runtime) (for_write : Bool) (context : RuleContext) (r : Fields) {out : Fields}
    → validate_record rt for_write context r ≡ ok out
    → is_type review r ≡ true
    → ReviewIsSound rt r
unfolding check_review_record
accepted-ReviewIsSound rt for_write context r h is_review =
    let a = validate_record-IsAccepted rt for_write context r h in
    validate_review_sound rt r
      (when-pass _ _ (accepted_review_rule rt for_write context r a) is_review)
