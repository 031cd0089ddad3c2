-- ===== src/Gate/Verdict/Standing.antt =====
-- src/agentmarshal/journal/gate.py: the review that the gate resolves, among a task's records.
use agentmarshal.Common.{
  any, All, Text, text, text_eq, contains_text, text_eq_refl, text_eq_sound, if◌then◌else◌,
  and-eq-true, ◌≡◌, refl, sym, ap, ◌∙◌, ◌↔◌, ◌⊎◌, inl, inr, Bool, true, false, ◌&&◌, ◌||◌, Option,
  none, some, List, [], ◌∷◌, arith,
}
use agentmarshal.Json.{Json, Fields, ◌!◌, has, text_of, is_str}
use agentmarshal.Registry.{review, acceptance, named}
use agentmarshal.Records.Schema.{is_type}
use agentmarshal.Records.Rules.Review.{is_approved, findings_of}
use agentmarshal.Gate.Texts.Sets.{same_set-Mem, same_set_of_Mem}
use agentmarshal.Gate.Verdict.{
  names_commit, latest_review_of, latest_acceptance_of, is_covered, resolved_review,
}
use agentmarshal.Gate.Verdict.Latest.{
  IsLast, none_selected, last_of-none, selected-IsLast, selected_of_IsLast,
}
use agentmarshal.Records.Forgeable.{is_one_of}
use mathlib.Core.List.{Memᴰ}

abbrev pub IsReviewOf : Text → Fields → Type 0
IsReviewOf commit r = (is_type review r ≡ true) × (r ! "reviewed_commit" ≡ some (Json.str commit))

abbrev pub IsAcceptanceOf : Text → Fields → Type 0
IsAcceptanceOf commit a =
    (is_type acceptance a ≡ true)
    × (a ! "accepted_commit" ≡ some (Json.str commit))
    × (has a "findings" ≡ true)

-- The last acceptance over findings of the commit accepts the findings of the review, no more and no
-- fewer.
pub record IsAcceptedOver (commit : Text) (rs : List Fields) (r : Fields) : Type 0 where
  pub a : Fields
  pub latest : IsLast (IsAcceptanceOf commit) rs a
  pub all_given : All (λ x. Memᴰ x (findings_of r)) (findings_of a)
  pub all_accepted : All (λ x. Memᴰ x (findings_of a)) (findings_of r)

-- The text is the id of the last review of the commit, which approves or is accepted over.
pub record IsResolved (commit : Text) (rs : List Fields) (id : Text) : Type 0 where
  pub r : Fields
  pub latest : IsLast (IsReviewOf commit) rs r
  pub stands : (r ! "verdict" ≡ some (Json.str (text "approved"))) ⊎ IsAcceptedOver commit rs r
  pub names : text_of (r ! "id") ≡ id

or-cases : (a b : Bool) → (a || b) ≡ true → (a ≡ true) ⊎ (b ≡ true)
or-cases true b h = inl refl
or-cases false b h = inr h

or_true : (b : Bool) → (b || true) ≡ true
or_true b = ground arith

names_commit-value :
    (o : Option Json) (commit : Text)
    → (is_str o && text_eq (text_of o) commit) ≡ true
    → o ≡ some (Json.str commit)
unfolding is_str text_of
names_commit-value (some (Json.str s)) commit h =
    ap (λ t. some (Json.str t)) (text_eq_sound s commit h)
names_commit-value none commit h = cc
names_commit-value (some _) commit h = cc

value-names_commit :
    (o : Option Json) (commit : Text)
    → o ≡ some (Json.str commit)
    → (is_str o && text_eq (text_of o) commit) ≡ true
unfolding is_str text_of
value-names_commit o commit e = rw (e, text_eq_refl commit) refl

approved_word :
    (o : Option Json) → is_one_of ("approved" ∷ []) o ≡ true → o ≡ some (Json.str (text "approved"))
unfolding is_one_of contains_text any
approved_word (some (Json.str s)) h =
    ap (λ t. some (Json.str t)) (sym (text_eq_sound (text "approved") s (ground (arith, h))))
approved_word none h = cc
approved_word (some _) h = cc

approved-verdict :
    (r : Fields) → is_approved r ≡ true → r ! "verdict" ≡ some (Json.str (text "approved"))
unfolding is_approved
approved-verdict r h = approved_word (r ! "verdict") h

approved_of_verdict :
    (r : Fields) → r ! "verdict" ≡ some (Json.str (text "approved")) → is_approved r ≡ true
unfolding is_approved is_one_of contains_text any
approved_of_verdict r e = rw (e, text_eq_refl (text "approved")) refl

module _ (commit : Text) where
  review_sound :
      (r : Fields)
      → (is_type review r && names_commit "reviewed_commit" commit r) ≡ true
      → IsReviewOf commit r
  unfolding names_commit
  review_sound r h =
      let (t, n) = and-eq-true (is_type review r) _ h in
      (t, names_commit-value (r ! "reviewed_commit") commit n)

  review_complete :
      (r : Fields)
      → IsReviewOf commit r
      → (is_type review r && names_commit "reviewed_commit" commit r) ≡ true
  unfolding names_commit
  review_complete r (t, n) = rw (t, value-names_commit (r ! "reviewed_commit") commit n) refl

  acceptance_sound :
      (a : Fields)
      → (is_type acceptance a && (names_commit "accepted_commit" commit a && has a "findings"))
        ≡ true
      → IsAcceptanceOf commit a
  unfolding names_commit
  acceptance_sound a h =
      let (t, h1) = and-eq-true (is_type acceptance a) _ h in
      let (n, f) = and-eq-true (names_commit "accepted_commit" commit a) _ h1 in
      (t, names_commit-value (a ! "accepted_commit") commit n, f)

  acceptance_complete :
      (a : Fields)
      → IsAcceptanceOf commit a
      → (is_type acceptance a && (names_commit "accepted_commit" commit a && has a "findings"))
        ≡ true
  unfolding names_commit
  acceptance_complete a (t, n, f) =
      rw (t, value-names_commit (a ! "accepted_commit") commit n, f) refl

covered-IsAcceptedOver :
    (commit : Text) (rs : List Fields) (r : Fields)
    → is_covered r (latest_acceptance_of commit rs) ≡ true
    → IsAcceptedOver commit rs r
unfolding latest_acceptance_of is_covered
covered-IsAcceptedOver commit rs r h = go (latest_acceptance_of commit rs) refl h
  where
    go :
        (found : Option Fields)
        → latest_acceptance_of commit rs ≡ found
        → is_covered r found ≡ true
        → IsAcceptedOver commit rs r
    go none e h = cc
    go (some a) e h =
        let (given, accepted) = same_set-Mem (findings_of a) (findings_of r) h in
        record {
          a = a;
          latest =
              selected-IsLast _ (IsAcceptanceOf commit) (acceptance_sound commit)
                (acceptance_complete commit) rs a e;
          all_given = given;
          all_accepted = accepted;
        }

covered_of_IsAcceptedOver :
    (commit : Text) (rs : List Fields) (r : Fields)
    → IsAcceptedOver commit rs r
    → is_covered r (latest_acceptance_of commit rs) ≡ true
unfolding latest_acceptance_of is_covered
covered_of_IsAcceptedOver commit rs r over =
    ap (λ found. is_covered r found)
      (selected_of_IsLast _ (IsAcceptanceOf commit) (acceptance_sound commit)
        (acceptance_complete commit) rs over.a over.latest)
    ∙ same_set_of_Mem (findings_of over.a) (findings_of r) over.all_given over.all_accepted

-- What is said of the latest review where there is one.
pub latest_review-IsLast :
    (commit : Text) (rs : List Fields) (r : Fields)
    → latest_review_of commit rs ≡ some r
    → IsLast (IsReviewOf commit) rs r
unfolding latest_review_of
latest_review-IsLast commit rs r h =
    selected-IsLast _ (IsReviewOf commit) (review_sound commit) (review_complete commit) rs r h

pub latest_review_of-IsLast :
    (commit : Text) (rs : List Fields) (r : Fields)
    → IsLast (IsReviewOf commit) rs r
    → latest_review_of commit rs ≡ some r
unfolding latest_review_of
latest_review_of-IsLast commit rs r h =
    selected_of_IsLast _ (IsReviewOf commit) (review_sound commit) (review_complete commit) rs r h

pub no_review :
    (commit : Text) (rs : List Fields)
    → latest_review_of commit rs ≡ none
    → All (λ r. ¬ IsReviewOf commit r) rs
unfolding latest_review_of
no_review commit rs h =
    none_selected _ (IsReviewOf commit) (review_sound commit) (review_complete commit) rs h

pub no_review_found :
    (commit : Text) (rs : List Fields)
    → All (λ r. ¬ IsReviewOf commit r) rs
    → latest_review_of commit rs ≡ none
unfolding latest_review_of
no_review_found commit rs h =
    last_of-none _ (IsReviewOf commit) (review_sound commit) (review_complete commit) rs h

resolved_review-IsResolved :
    (commit : Text) (rs : List Fields) (id : Text) (found : Option Fields)
    → latest_review_of commit rs ≡ found
    → resolved_review found (latest_acceptance_of commit rs) ≡ some id
    → IsResolved commit rs id
unfolding resolved_review
resolved_review-IsResolved commit rs id none e h = cc
resolved_review-IsResolved commit rs id (some r) e h =
    let (kept, named) =
      chosen (is_approved r || is_covered r (latest_acceptance_of commit rs)) (text_of (r ! "id"))
        id h in
    record {
      r = r;
      latest = latest_review-IsLast commit rs r e;
      stands = elim (or-cases (is_approved r) _ kept) [
        | inl approved ↦ inl (approved-verdict r approved)
        | inr covered ↦ inr (covered-IsAcceptedOver commit rs r covered)
      ];
      names = named;
    }
  where
    chosen : (b : Bool) (x y : Text) → (if b then some x else none) ≡ some y → (b ≡ true) × (x ≡ y)
    chosen true x y h = (refl, cc h)
    chosen false x y h = cc

IsResolved-resolved_review :
    (commit : Text) (rs : List Fields) (id : Text)
    → IsResolved commit rs id
    → resolved_review (latest_review_of commit rs) (latest_acceptance_of commit rs) ≡ some id
unfolding resolved_review
IsResolved-resolved_review commit rs id s =
    let kept : (is_approved s.r || is_covered s.r (latest_acceptance_of commit rs)) ≡ true =
      elim s.stands [
        | inl approved ↦ rw (approved_of_verdict s.r approved) refl
        | inr over ↦ rw (covered_of_IsAcceptedOver commit rs s.r over) (or_true (is_approved s.r))
      ] in
    rw (latest_review_of-IsLast commit rs s.r s.latest, kept, s.names) refl

-- The gate resolves a review of the commit exactly where the last review of it among the records
-- approves, or the last acceptance of it with findings accepts exactly that review's findings; and what
-- it resolves is that review's id.
pub resolved_review_iff :
    (commit : Text) (rs : List Fields) (id : Text)
    → (resolved_review (latest_review_of commit rs) (latest_acceptance_of commit rs) ≡ some id)
      ↔ IsResolved commit rs id
resolved_review_iff commit rs id = (
  resolved_review-IsResolved commit rs id (latest_review_of commit rs) refl,
  IsResolved-resolved_review commit rs id,
)
