-- ===== src/Gate/Independence/Verdict.antt =====
-- src/agentmarshal/journal/gate.py: what the verdict on an independence rule means.
use mathlib.Core.List.{Permᴰ}
use mathlib.Core.Path.{subst}
use agentmarshal.Common.{
  any, is_empty, All, Text, text_eq, contains_text, text_eq_refl, if◌then◌else◌, or-eq-false, ◌≡◌,
  refl, sym, ◌∙◌, ◌≢◌, Bool, true, false, not, Option, none, some, List, [], ◌∷◌, arith,
}
use agentmarshal.Json.{Json, Fields, ◌!◌, fields_of}
use agentmarshal.Runtime.{Runtime}
use agentmarshal.Gate.Identity.{Host, normalized}
use agentmarshal.Gate.Independence.Ranked.{
  is_equal, is_gap, is_noted, ranked, equals_reviewer, is_unjudgeable, sessions_verdict,
}
use agentmarshal.Gate.Independence.{
  IndependenceRule, distinct_vendor, distinct_model, distinct_actor, reviewer_field, given_value,
  session_independence_value, is_same_value, is_undeclared, gap, equal, distinct_value,
  compare_value, compare_session, Verdict, judge_sessions, judge_declared, judge_reviewer,
  judge_independence_rule,
}
use agentmarshal.Records.Validate.{rule}
use agentmarshal.Contracts.Header.{strip}
use agentmarshal.Gate.Findings.Released.{judged}

-- The labels that the rule's values must be among, if any.
declared_for : IndependenceRule → Option (List Text) → Option (List Text)
declared_for distinct_actor actors = actors
declared_for _ actors = none

-- The label of an actor is one of the project's actors, whose table has been read.
abbrev IsDeclared : IndependenceRule → Option (List Text) → Text → Type 0
IsDeclared distinct_actor none value = ⊥
IsDeclared distinct_actor (some declared) value = contains_text value declared ≡ true
IsDeclared rule actors value = Unit

-- Actors differ as texts, vendors and models once stripped and without regard to case.
abbrev Differ : Runtime → Host → IndependenceRule → Text → Text → Type 0
Differ rt host distinct_actor value of_reviewer = value ≢ of_reviewer
Differ rt host rule value of_reviewer =
    host.casefold (strip rt value) ≢ host.casefold (strip rt of_reviewer)

-- A session that has a value, another one than the reviewer's, among the declared ones if need be.
record DiffersFrom (rt : Runtime) (host : Host) (rule : IndependenceRule) (of_reviewer : Text)
    (actors : Option (List Text)) (s : Fields) : Type 0 where
  value : Text
  given : session_independence_value rt rule s ≡ some value
  stands : IsDeclared rule actors value
  differs : Differ rt host rule value of_reviewer

pub record IsIndependent (rt : Runtime) (host : Host) (rule : IndependenceRule)
    (reviewer : Option Json) (sessions : List Fields) (actors : Option (List Text)) : Type 0 where
  of_reviewer : Text
  given : given_value rt (fields_of reviewer ! reviewer_field rule) ≡ some of_reviewer
  stands : IsDeclared rule actors of_reviewer
  some_session : is_empty sessions ≡ false
  each_differs : All (DiffersFrom rt host rule of_reviewer actors) sessions

not_chosen :
    (a b : Bool) (m n : Text)
    → is_equal (if a then gap m else if b then equal n else distinct_value) ≡ false
    → is_gap (if a then gap m else if b then equal n else distinct_value) ≡ false
    → (a ≡ false) × (b ≡ false)
unfolding is_equal is_gap
not_chosen true b m n e g = cc
not_chosen false true m n e g = cc
not_chosen false false m n e g = (refl, refl)

is_known : (b : Bool) → not b ≡ false → b ≡ true
is_known b h = ground (arith, h)

ranked_pass : (e g : Bool) → ranked e g ≡ some true → (e ≡ false) × (g ≡ false)
unfolding ranked
ranked_pass true g h = cc
ranked_pass false true h = cc
ranked_pass false false h = (refl, refl)

IsDeclared-too :
    (rule : IndependenceRule) (actors : Option (List Text)) (of_reviewer value : Text)
    → IsDeclared rule actors of_reviewer
    → is_undeclared (declared_for rule actors) value ≡ false
    → IsDeclared rule actors value
unfolding is_undeclared declared_for
IsDeclared-too distinct_vendor actors of_reviewer value d h = tt
IsDeclared-too distinct_model actors of_reviewer value d h = tt
IsDeclared-too distinct_actor none of_reviewer value d h = d
IsDeclared-too distinct_actor (some declared) of_reviewer value d h = is_known _ h

other_text : (a b : Text) → text_eq a b ≡ false → a ≢ b
other_text a b h e = cc (text_eq_refl b, subst (λ t. text_eq t b ≡ false) e h)

Differ-of :
    (rt : Runtime) (host : Host) (rule : IndependenceRule) (value of_reviewer : Text)
    → is_same_value rt host rule value of_reviewer ≡ false
    → Differ rt host rule value of_reviewer
unfolding is_same_value normalized
Differ-of rt host distinct_vendor value of_reviewer h = other_text _ _ h
Differ-of rt host distinct_model value of_reviewer h = other_text _ _ h
Differ-of rt host distinct_actor value of_reviewer h = other_text _ _ h

module _ (rt : Runtime) (host : Host) (rule : IndependenceRule) (of_reviewer : Text)
    (actors : Option (List Text)) (known : IsDeclared rule actors of_reviewer) where
  value_differs :
      (s : Fields) (label : Text) (v : Option Text)
      → session_independence_value rt rule s ≡ v
      → is_equal (compare_value rt host rule of_reviewer (declared_for rule actors) label v) ≡ false
      → is_gap (compare_value rt host rule of_reviewer (declared_for rule actors) label v) ≡ false
      → DiffersFrom rt host rule of_reviewer actors s
  unfolding compare_value is_equal is_gap
  value_differs s label none given e g = cc
  value_differs s label (some value) given e g =
      let (stands, differs) =
        not_chosen (is_undeclared (declared_for rule actors) value)
          (is_same_value rt host rule value of_reviewer) _ _ e g in
      record {
        value = value;
        given = given;
        stands = IsDeclared-too rule actors of_reviewer value known stands;
        differs = Differ-of rt host rule value of_reviewer differs;
      }

  sessions_differ :
      (sessions : List Fields)
      → any (equals_reviewer rt host rule of_reviewer (declared_for rule actors)) sessions ≡ false
      → any (is_unjudgeable rt host rule of_reviewer (declared_for rule actors)) sessions ≡ false
      → All (DiffersFrom rt host rule of_reviewer actors) sessions
  unfolding any equals_reviewer is_unjudgeable compare_session
  sessions_differ [] e g = tt
  sessions_differ (s ∷ sessions) e g =
      let (e1, e2) =
        or-eq-false (equals_reviewer rt host rule of_reviewer (declared_for rule actors) s) _ e in
      let (g1, g2) =
        or-eq-false (is_unjudgeable rt host rule of_reviewer (declared_for rule actors) s) _ g in
      (
        value_differs s _ (session_independence_value rt rule s) refl e1 g1,
        sessions_differ sessions e2 g2,
      )

IsDeclared-pass :
    (rt : Runtime) (host : Host) (rule : IndependenceRule) (of_reviewer : Text)
    (actors : Option (List Text)) (sessions : List Fields)
    → (judge_declared rt host rule of_reviewer actors sessions).0 ≡ some true
    → IsDeclared rule actors of_reviewer
      × ((judge_sessions rt host rule of_reviewer (declared_for rule actors) none sessions).0
          ≡ some true)
unfolding judge_declared declared_for
IsDeclared-pass rt host distinct_vendor of_reviewer actors sessions h = (tt, h)
IsDeclared-pass rt host distinct_model of_reviewer actors sessions h = (tt, h)
IsDeclared-pass rt host distinct_actor of_reviewer none sessions h = cc
IsDeclared-pass rt host distinct_actor of_reviewer (some declared) sessions h =
    chosen (contains_text of_reviewer declared) _ _ h
  where
    chosen :
        (b : Bool) (m : Text) (v : Verdict)
        → (if not b then (none, m) else v).0 ≡ some true
        → (b ≡ true) × (v.0 ≡ some true)
    chosen true m v h = (refl, h)
    chosen false m v h = cc

reviewer_pass :
    (rt : Runtime) (host : Host) (rule : IndependenceRule) (reviewer : Option Json)
    (given : Option Text) (actors : Option (List Text)) (s : Fields) (sessions : List Fields)
    → given_value rt (fields_of reviewer ! reviewer_field rule) ≡ given
    → (judge_reviewer rt host rule given actors (s ∷ sessions)).0 ≡ some true
    → IsIndependent rt host rule reviewer (s ∷ sessions) actors
unfolding judge_reviewer
reviewer_pass rt host rule reviewer none actors s sessions e h = cc
reviewer_pass rt host rule reviewer (some of_reviewer) actors s sessions e h =
    let (stands, judged) = IsDeclared-pass rt host rule of_reviewer actors (s ∷ sessions) h in
    let (equals, gaps) = ranked_pass _ _ (
      sym (sessions_verdict rt host rule of_reviewer (declared_for rule actors) none (s ∷ sessions))
      ∙ judged) in
    record {
      of_reviewer = of_reviewer;
      given = e;
      stands = stands;
      some_session = unfold is_empty in refl;
      each_differs =
          sessions_differ rt host rule of_reviewer actors stands (s ∷ sessions) equals
            (unfold is_noted in gaps);
    }

-- A rule that is judged to hold has a session to judge and a value that the reviewer gives, and every
-- session gives a value that is not the reviewer's: exactly for actors, where the project's table of
-- actors has been read and declares the reviewer's and every session's, and without regard to case and
-- surrounding space for vendors and models.
pub judged_to_hold-IsIndependent :
    (rt : Runtime) (host : Host) (rule : IndependenceRule) (reviewer : Option Json)
    (sessions : List Fields) (actors : Option (List Text))
    → (judge_independence_rule rt host rule reviewer sessions actors).0 ≡ some true
    → IsIndependent rt host rule reviewer sessions actors
unfolding judge_independence_rule
judged_to_hold-IsIndependent rt host rule reviewer [] actors h = cc
judged_to_hold-IsIndependent rt host rule reviewer (s ∷ sessions) actors h =
    reviewer_pass rt host rule reviewer _ actors s sessions refl h

any-perm {ℓ} : {A : Type ℓ} (p : A → Bool) {xs ys : List A} → Permᴰ xs ys → any p xs ≡ any p ys
unfolding any
any-perm p Permᴰ.nil = refl
any-perm p (Permᴰ.cons e d) = rw (e, any-perm p d) refl
any-perm p (Permᴰ.swap e1 e2) = rw (e1, e2) (ground arith)
any-perm p (Permᴰ.trans d1 d2) = any-perm p d1 ∙ any-perm p d2

-- The verdict on the sessions does not depend on their order, whatever gaps come first.
pub judge_sessions-perm :
    (rt : Runtime) (host : Host) (rule : IndependenceRule) (of_reviewer : Text)
    (declared : Option (List Text)) (xs ys : List Fields)
    → Permᴰ xs ys
    → (judge_sessions rt host rule of_reviewer declared none xs).0
      ≡ (judge_sessions rt host rule of_reviewer declared none ys).0
judge_sessions-perm rt host rule of_reviewer declared xs ys d =
    rw
      (
        sessions_verdict rt host rule of_reviewer declared none xs,
        sessions_verdict rt host rule of_reviewer declared none ys,
        any-perm (equals_reviewer rt host rule of_reviewer declared) d,
        any-perm (is_unjudgeable rt host rule of_reviewer declared) d,
      )
      refl
