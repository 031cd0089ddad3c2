-- ===== src/Records/Accepted/Acceptance.antt =====
-- src/agentmarshal/journal/records.py: what an accepted acceptance or completion has.
use agentmarshal.Common.{
  is_empty, What, ok, pass, guard, each, >>-ok, each-ok, guard-ok, ◌==◌, ==_iff, ◌≡◌, Bool, true,
  false, not, ◌&&◌, Option, none, some, [], ◌∷◌, arith,
}
use agentmarshal.Records.Accepted.{
  accepted_acceptance_rule, accepted_completed_rule, IsBound, validate_binding-IsBound, NoneForges,
  reject-clean, each-NoneForges,
}
use agentmarshal.Json.{Json, str, Fields, ◌!◌, has, text_of}
use agentmarshal.Runtime.{Runtime}
use agentmarshal.Registry.{acceptance, completed}
use agentmarshal.Records.Schema.{is_type}
use agentmarshal.Records.Forgeable.{
  forges_rendered_text, reject_control_characters, is_non_blank, reject_in, is_id_list, ids_of,
}
use agentmarshal.Records.Rules.Lifecycle.{validate_binding, check_completed_record}
use agentmarshal.Records.Rules.Acceptance.{
  acceptance_forms, count_present, accepted_findings, validate_acceptance_record,
  check_acceptance_record,
}
use agentmarshal.Records.Rules.Placement.{RuleContext}
use agentmarshal.Records.Validate.{validate_record}
use agentmarshal.Records.Sound.{when-pass, validate_record-IsAccepted}

-- What the journal promises of an acceptance: one binding, one form, and no text that forges.
pub record AcceptanceIsSound (rt : Runtime) (r : Fields) : Type 0 where
  pub binding : IsBound r "accepted_commit" "accepted_finding"
  pub one_form : count_present r acceptance_forms ≡ 1
  pub accepted_by_clean : forges_rendered_text rt (text_of (r ! "accepted_by")) ≡ false
  pub reason_clean : forges_rendered_text rt (text_of (r ! "reason")) ≡ false
  pub findings_clean : has r "findings" ≡ true → NoneForges rt (ids_of (r ! "findings"))
  pub findings_named : has r "findings" ≡ true → is_empty (ids_of (r ! "findings")) ≡ false

non_blank_clean :
    (rt : Runtime) (v : Option Json) (what : What)
    → is_non_blank rt v ≡ true
    → reject_in rt v what ≡ pass
    → forges_rendered_text rt (text_of v) ≡ false
unfolding is_non_blank reject_in text_of
non_blank_clean rt (some (str s)) what h k = reject-clean rt s what k
non_blank_clean rt none what h k = cc
non_blank_clean rt (some _) what h k = cc

accepted_findings-clean :
    (rt : Runtime) (r : Fields)
    → accepted_findings rt r ≡ pass
    → NoneForges rt (ids_of (r ! "findings")) × (is_empty (ids_of (r ! "findings")) ≡ false)
accepted_findings-clean rt r h =
    let (listed, h1) =
      >>-ok (guard (is_id_list (r ! "findings") && not (is_empty (ids_of (r ! "findings")))) _) _
        h in
    let (clean, _) =
      >>-ok (each (λ k. reject_control_characters rt k _) (ids_of (r ! "findings"))) _ h1 in
    (each-NoneForges rt _ _ clean, not_empty _ _ (guard-ok _ _ listed))
  where
    not_empty : (a b : Bool) → (a && not b) ≡ true → b ≡ false
    not_empty a b e = ground arith

validate_acceptance_sound :
    (rt : Runtime) (r : Fields) → validate_acceptance_record rt r ≡ pass → AcceptanceIsSound rt r
unfolding validate_acceptance_record
validate_acceptance_sound rt r h =
    let (bound, h1) =
      >>-ok (validate_binding r "acceptance" "accepted_commit" "accepted_finding") _ h in
    let (worded, h2) = >>-ok (each _ ("accepted_by" ∷ "reason" ∷ [])) _ h1 in
    let (formed, h3) = >>-ok (guard (count_present r acceptance_forms == 1) _) _ h2 in
    let texts = each-ok _ ("accepted_by" ∷ "reason" ∷ []) worded in
    let (by_named, by_clean) = >>-ok (guard (is_non_blank rt (r ! "accepted_by")) _) _ texts.0 in
    let (why_named, why_clean) = >>-ok (guard (is_non_blank rt (r ! "reason")) _) _ texts.1.0 in
    record {
      binding = validate_binding-IsBound r "acceptance" "accepted_commit" "accepted_finding" bound;
      one_form = (==_iff _ 1).0 (guard-ok _ _ formed);
      accepted_by_clean = non_blank_clean rt _ _ (guard-ok _ _ by_named) by_clean;
      reason_clean = non_blank_clean rt _ _ (guard-ok _ _ why_named) why_clean;
      findings_clean = λ e. (accepted_findings-clean rt r (when-pass _ _ h3 e)).0;
      findings_named = λ e. (accepted_findings-clean rt r (when-pass _ _ h3 e)).1;
    }

-- An acceptance that validation accepts, on either path, is bound to exactly one well-formed commit or
-- finding, has exactly one of the three forms, and carries no text that forges: not in the
-- party, the reason or the finding ids, of which there is at least one in that form.
pub accepted-AcceptanceIsSound :
    (rt : Runtime) (for_write : Bool) (context : RuleContext) (r : Fields) {out : Fields}
    → validate_record rt for_write context r ≡ ok out
    → is_type acceptance r ≡ true
    → AcceptanceIsSound rt r
unfolding check_acceptance_record
accepted-AcceptanceIsSound rt for_write context r h is_acceptance =
    let a = validate_record-IsAccepted rt for_write context r h in
    validate_acceptance_sound rt r
      (when-pass _ _ (accepted_acceptance_rule rt for_write context r a) is_acceptance)

-- A completion that validation accepts, on either path, is bound to exactly one well-formed commit
-- or finding.
pub accepted_completion-IsBound :
    (rt : Runtime) (for_write : Bool) (context : RuleContext) (r : Fields) {out : Fields}
    → validate_record rt for_write context r ≡ ok out
    → is_type completed r ≡ true
    → IsBound r "completed_commit" "completed_finding"
unfolding check_completed_record
accepted_completion-IsBound rt for_write context r h is_completed =
    let a = validate_record-IsAccepted rt for_write context r h in
    validate_binding-IsBound r "completed" "completed_commit" "completed_finding"
      (when-pass _ _ (accepted_completed_rule rt for_write context r a) is_completed)
