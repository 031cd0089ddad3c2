-- ===== src/Gate/Verdict/Resolved.antt =====
-- src/agentmarshal/journal/gate.py: the review that the gate passed on, against its lines.
use agentmarshal.Common.{
  All, Text, text, text_eq, Bool-cases, and-eq-true, ◌≡◌, refl, sym, ◌∙◌, ◌↔◌, ◌⊎◌, inl, inr, Bool,
  true, false, not, ◌&&◌, ◌||◌, Option, none, some, List, [], ◌∷◌, arith,
}
use agentmarshal.Json.{Fields}
use agentmarshal.Records.Rules.Review.{is_approved}
use agentmarshal.Runtime.{Runtime}
use agentmarshal.Contracts.Header.{ContractHeader}
use agentmarshal.Gate.Transcript.{Transcript, is_clear}
use agentmarshal.Gate.Transcript.Counted.{check_clear, say_clear}
use agentmarshal.Gate.Identity.{Host}
use agentmarshal.Gate.Verdict.Standing.{
  IsReviewOf, IsResolved, no_review, no_review_found, resolved_review_iff,
}
use agentmarshal.Gate.Verdict.{
  latest_review_of, latest_acceptance_of, is_covered, resolved_review, say_rules, say_reviewers,
  say_unexamined, say_acceptance, say_verdict,
}
use agentmarshal.Records.Validate.{rule, rules}
use agentmarshal.Records.Builders.Admitted.{absent}

abbrev is_absent_review : Option Fields → Bool
is_absent_review none = true
is_absent_review (some r) = false

abbrev is_resolved : Option Text → Bool
is_resolved none = false
is_resolved (some id) = true

and_true : (b : Bool) → b ≡ (b && true)
and_true b = ground arith

or_true : (b : Bool) → (b || true) ≡ true
or_true b = ground arith

resolved_or_absent :
    (r : Option Fields) (found : Option Text) (required : Bool)
    → (is_resolved found || (is_absent_review r && not required)) ≡ true
    → ((id : Text) × (found ≡ some id)) ⊎ ((r ≡ none) × (required ≡ false))
resolved_or_absent r (some id) required h = inl (id, refl)
resolved_or_absent none none false h = inr (refl, refl)
resolved_or_absent none none true h = cc
resolved_or_absent (some r) none required h = cc

module _ (rt : Runtime) (host : Host) where
  rules_clear :
      (rules : List Text) (t : Transcript) → is_clear (say_rules rt host rules t) ≡ is_clear t
  unfolding say_rules
  rules_clear [] t = refl
  rules_clear (rule ∷ rules) t = elim (Bool-cases (text_eq rule (text "reviewer-not-writer"))) [
    | inl same ↦ rw same (rules_clear rules t)
    | inr differs ↦ rw differs (rules_clear rules _ ∙ say_clear rt _ t)
  ]

  reviewers_clear :
      (reviewers : List Text) (t : Transcript)
      → is_clear (say_reviewers rt host reviewers t) ≡ is_clear t
  unfolding say_reviewers
  reviewers_clear [] t = refl
  reviewers_clear (reviewer ∷ reviewers) t = say_clear rt _ t

  unexamined_clear :
      (commit : Text) (contract : ContractHeader) (t : Transcript)
      → is_clear (say_unexamined rt host commit contract t) ≡ is_clear t
  unfolding say_unexamined
  unexamined_clear commit contract t =
      reviewers_clear contract.reviewers _
      ∙ rules_clear contract.independence _
      ∙ say_clear rt _ _
      ∙ say_clear rt _ t

  acceptance_clear :
      (mark commit : Text) (r a : Fields) (t : Transcript)
      → is_clear (say_acceptance rt host mark commit r a t) ≡ (is_clear t && is_covered r (some a))
  unfolding say_acceptance
  acceptance_clear mark commit r a t = elim (Bool-cases (is_covered r (some a))) [
    | inl covered ↦ rw covered (say_clear rt _ t ∙ and_true (is_clear t))
    | inr outstanding ↦ rw outstanding (check_clear rt false _ t)
  ]

  say_verdict-resolved_review :
      (mark commit : Text) (required : Bool) (contract : ContractHeader) (r a : Option Fields)
      (t : Transcript)
      → is_clear (say_verdict rt host mark commit required contract r a t) ≡ (
          is_clear t && (is_resolved (resolved_review r a) || (is_absent_review r && not required)))
  unfolding say_verdict resolved_review
  say_verdict-resolved_review mark commit true contract none a t = check_clear rt false _ t
  say_verdict-resolved_review mark commit false contract none a t =
      unexamined_clear commit contract t ∙ and_true (is_clear t)
  say_verdict-resolved_review mark commit required contract (some r) none t =
      elim (Bool-cases (is_approved r)) [
        | inl approved ↦ rw approved (check_clear rt true _ t)
        | inr refused_one ↦ rw refused_one (unfold is_covered in check_clear rt false _ t)
      ]
  say_verdict-resolved_review mark commit required contract (some r) (some a) t =
      elim (Bool-cases (is_approved r)) [
        | inl approved ↦ rw approved (check_clear rt true _ t)
        | inr refused_one ↦ elim (Bool-cases (is_covered r (some a))) [
          | inl covered ↦ rw (refused_one, acceptance_clear mark commit r a t, covered) refl
          | inr outstanding ↦ rw (refused_one, acceptance_clear mark commit r a t, outstanding) refl
        ]
      ]

  clear_where_resolved :
      (mark commit : Text) (required : Bool) (contract : ContractHeader) (r a : Option Fields)
      (t : Transcript)
      → is_clear (say_verdict rt host mark commit required contract r a t) ≡ true
      → (is_clear t ≡ true)
        × (((id : Text) × (resolved_review r a ≡ some id)) ⊎ ((r ≡ none) × (required ≡ false)))
  clear_where_resolved mark commit required contract r a t h =
      let (clear, k) =
        and-eq-true (is_clear t) _
          (sym (say_verdict-resolved_review mark commit required contract r a t) ∙ h) in
      (clear, resolved_or_absent r (resolved_review r a) required k)

  -- The lines on the latest review of the commit, and on the latest acceptance of it with findings, leave
  -- the gate clear exactly when it was clear before, and the last review of the commit approves or is
  -- accepted over, or there is no review of the commit and none is required.
  pub say_verdict_iff :
      (mark commit : Text) (required : Bool) (contract : ContractHeader) (rs : List Fields)
      (t : Transcript)
      → (is_clear (
            say_verdict rt host mark commit required contract
              (latest_review_of commit rs)
              (latest_acceptance_of commit rs)
              t)
          ≡ true)
        ↔ ((is_clear t ≡ true)
            × (((id : Text) × IsResolved commit rs id)
                ⊎ (All (λ r. ¬ IsReviewOf commit r) rs × (required ≡ false))))
  say_verdict_iff mark commit required contract rs t = (
    λ h.
        let (clear, why) = clear_where_resolved mark commit required contract _ _ t h in
        (
          clear,
          elim why [
            | inl (id, e) ↦ inl (id, (resolved_review_iff commit rs id).0 e)
            | inr (absent, free) ↦ inr (no_review commit rs absent, free)
          ],
        ),
    λ w.
        say_verdict-resolved_review mark commit required contract _ _ t
        ∙ rw (w.0) (elim w.1 [
          | inl (id, s) ↦ rw ((resolved_review_iff commit rs id).1 s) refl
          | inr (absent, free) ↦ rw (no_review_found commit rs absent, free) (or_true _)
        ]),
  )
