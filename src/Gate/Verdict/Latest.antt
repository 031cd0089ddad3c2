-- ===== src/Gate/Verdict/Latest.antt =====
-- src/agentmarshal/journal/gate.py: which review of a commit, and which acceptance over its findings,
-- are the latest ones.
use agentmarshal.Common.{
  All, Bool-cases, ◌≡◌, refl, ap, ◌∙◌, inl, inr, Bool, true, false, Option, none, some, List, [],
  ◌∷◌, ◌++◌,
}
use agentmarshal.Gate.Texts.{select}
use agentmarshal.Gate.Identity.{last_of}
use mathlib.Core.Path.{subst}

-- The last element that the predicate holds of.
pub record IsLast {ℓ} {A : Type ℓ} (P : A → Type 0) (xs : List A) (x : A) : Type ℓ where
  pub before : List A
  pub after : List A
  pub split_at : xs ≡ before ++ (x ∷ after)
  pub holds : P x
  pub none_after : All (λ y. ¬ P y) after

last_of-cons {ℓ} :
    {A : Type ℓ} (x : A) (xs : List A) {y : A} → last_of xs ≡ some y → last_of (x ∷ xs) ≡ some y
unfolding last_of
last_of-cons x [] h = cc
last_of-cons x (y ∷ xs) h = h

last_is_given {ℓ} : {A : Type ℓ} (x : A) (xs : List A) → last_of (x ∷ xs) ≡ none → ⊥
unfolding last_of
last_is_given x [] h = cc
last_is_given x (y ∷ xs) h = last_is_given y xs h

module _ {ℓ} {A : Type ℓ} (test : A → Bool) (P : A → Type 0) (sound : (x : A) → test x ≡ true → P x)
    (complete : (x : A) → P x → test x ≡ true) where
  fails : (x : A) → test x ≡ false → ¬ P x
  fails x h p = cc (complete x p, h)

  is_false : (x : A) → ¬ P x → test x ≡ false
  is_false x h = elim (Bool-cases (test x)) [ inl e ↦ absurd (h (sound x e)) | inr e ↦ e ]

  select-kept : (x : A) (xs : List A) → test x ≡ true → select test (x ∷ xs) ≡ x ∷ select test xs
  unfolding select
  select-kept x xs h = rw h refl

  select-left : (x : A) (xs : List A) → test x ≡ false → select test (x ∷ xs) ≡ select test xs
  unfolding select
  select-left x xs h = rw h refl

  pub none_selected : (xs : List A) → last_of (select test xs) ≡ none → All (λ x. ¬ P x) xs
  none_selected [] h = tt
  none_selected (x ∷ xs) h = elim (Bool-cases (test x)) [
    | inl e ↦ absurd (last_is_given x (select test xs) (rw (← select-kept x xs e) h))
    | inr e ↦ (fails x e, none_selected xs (rw (← select-left x xs e) h))
  ]

  selected_none : (xs : List A) → All (λ x. ¬ P x) xs → select test xs ≡ []
  unfolding select
  selected_none [] h = refl
  selected_none (x ∷ xs) h = rw (is_false x h.0, selected_none xs h.1) refl

  pub last_of-none : (xs : List A) → All (λ x. ¬ P x) xs → last_of (select test xs) ≡ none
  last_of-none xs h = rw (selected_none xs h) (unfold last_of in refl)

  further : (y : A) (xs : List A) (x : A) → IsLast P xs x → IsLast P (y ∷ xs) x
  further y xs x l = record {
    before = y ∷ l.before;
    after = l.after;
    split_at = ap (λ t. y ∷ t) l.split_at;
    holds = l.holds;
    none_after = l.none_after;
  }

  nothing_selected : (x : A) → last_of (select test []) ≡ some x → ⊥
  unfolding select last_of
  nothing_selected x h = cc

  pub selected-IsLast : (xs : List A) (x : A) → last_of (select test xs) ≡ some x → IsLast P xs x
  selected-IsLast [] x h = absurd (nothing_selected x h)
  selected-IsLast (y ∷ xs) x h = go (λ e. selected-IsLast xs x e) (last_of (select test xs)) refl
    where
      here_alone : last_of (select test xs) ≡ none → (b : Bool) → test y ≡ b → IsLast P (y ∷ xs) x
      here_alone e false t =
          let seen : last_of (select test xs) ≡ some x = rw (← select-left y xs t) h in cc (e, seen)
      here_alone e true t =
          let after = none_selected xs e in
          let one : last_of (y ∷ []) ≡ some x =
            rw (← selected_none xs after) (rw (← select-kept y xs t) h) in
          let same : y ≡ x = unfold last_of in cc one in
          record {
            before = [];
            after = xs;
            split_at = ap (λ z. z ∷ xs) same;
            holds = subst P same (sound y t);
            none_after = after;
          }

      go :
          (last_of (select test xs) ≡ some x → IsLast P xs x)
          → (m : Option A) → last_of (select test xs) ≡ m
          → IsLast P (y ∷ xs) x
      go rest none e = here_alone e (test y) refl
      go rest (some z) e = elim (Bool-cases (test y)) [
        | inl t ↦
            let last = last_of-cons y (select test xs) e in
            let seen : last_of (y ∷ select test xs) ≡ some x = rw (← select-kept y xs t) h in
            let same : z ≡ x = cc (last, seen) in further y xs x (rest (e ∙ ap some same))
        | inr t ↦ further y xs x (rest (rw (← select-left y xs t) h))
      ]

  last_selected :
      (before after : List A) (x : A)
      → P x
      → All (λ y. ¬ P y) after
      → last_of (select test (before ++ (x ∷ after))) ≡ some x
  last_selected [] after x p h =
      rw (select-kept x after (complete x p), selected_none after h) (unfold last_of in refl)
  last_selected (y ∷ before) after x p h =
      let last = last_selected before after x p h in
      elim (Bool-cases (test y)) [
        | inl t ↦ ap last_of (select-kept y (before ++ (x ∷ after)) t) ∙ last_of-cons y _ last
        | inr t ↦ ap last_of (select-left y (before ++ (x ∷ after)) t) ∙ last
      ]

  pub selected_of_IsLast : (xs : List A) (x : A) → IsLast P xs x → last_of (select test xs) ≡ some x
  selected_of_IsLast xs x l =
      ap (λ ys. last_of (select test ys)) l.split_at
      ∙ last_selected l.before l.after x l.holds l.none_after
