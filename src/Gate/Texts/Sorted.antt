-- ===== src/Gate/Texts/Sorted.antt =====
-- src/agentmarshal/journal/gate.py: the last one of the sorted texts.
use agentmarshal.Common.{
  any, All, any-All, Text, text_eq, contains_text, text_eq_refl, text_eq_sound, Bool-cases, ◌≡◌,
  refl, sym, inl, inr, true, false, Option, some, List, [], ◌∷◌, arith,
}
use agentmarshal.Ulid.Encoding.{text_lt}
use agentmarshal.Gate.Texts.{insert_text, sorted}
use agentmarshal.Gate.Identity.{last_of}
use mathlib.Core.Path.{subst}

text_lt-total : (a b : Text) → text_lt a b ≡ false → text_lt b a ≡ false → a ≡ b
unfolding text_lt
text_lt-total [] [] h k = refl
text_lt-total [] (y ∷ b) h k = cc
text_lt-total (x ∷ a) [] h k = cc
text_lt-total (x ∷ a) (y ∷ b) h k =
    let first : x ≡ y = ground (arith, h, k) in
    let rest : a ≡ b = text_lt-total a b (ground (arith, h, first)) (ground (arith, k, first)) in
    cc (first, rest)

last_of-cons :
    (x : Text) (xs : List Text) {y : Text} → last_of xs ≡ some y → last_of (x ∷ xs) ≡ some y
unfolding last_of
last_of-cons x [] h = cc
last_of-cons x (y ∷ xs) h = h

nothing_last : (m : Text) → ◌≡◌ {A = Option Text} (last_of []) (some m) → ⊥
unfolding last_of
nothing_last m h = cc

alone_last : (y m : Text) → last_of (y ∷ []) ≡ some m → y ≡ m
unfolding last_of
alone_last y m h = cc

later_last :
    (y z m : Text) (ys : List Text) → last_of (y ∷ z ∷ ys) ≡ some m → last_of (z ∷ ys) ≡ some m
unfolding last_of
later_last y z m ys h = h

-- Inserting what is not beyond the last one leaves it the last,
insert_below_last :
    (x m : Text) (ys : List Text)
    → text_lt m x ≡ false
    → last_of ys ≡ some m
    → last_of (insert_text x ys) ≡ some m
unfolding insert_text
insert_below_last x m [] h e = absurd (nothing_last m e)
insert_below_last x m (y ∷ []) h e = elim (Bool-cases (text_lt y x)) [
  | inl less ↦ absurd (cc (alone_last y m e, h, less))
  | inr above ↦ rw above (last_of-cons x (y ∷ []) e)
]
insert_below_last x m (y ∷ z ∷ ys) h e = elim (Bool-cases (text_lt y x)) [
  | inl less ↦ rw less (last_of-cons y _ (insert_below_last x m (z ∷ ys) h (later_last y z m ys e)))
  | inr above ↦ rw above (last_of-cons x (y ∷ z ∷ ys) e)
]

-- and what is beyond all others is inserted last.
insert_last :
    (m : Text) (ys : List Text)
    → All (λ y. text_lt y m ≡ true) ys
    → last_of (insert_text m ys) ≡ some m
unfolding insert_text last_of
insert_last m [] h = refl
insert_last m (y ∷ ys) h = rw (h.0) (last_of-cons y (insert_text m ys) (insert_last m ys h.1))

insert-All :
    (P : Text → Type 0) (x : Text) (ys : List Text) → P x → All P ys → All P (insert_text x ys)
unfolding insert_text
insert-All P x [] p h = (p, tt)
insert-All P x (y ∷ ys) p h = elim (Bool-cases (text_lt y x)) [
  | inl less ↦ rw less (h.0, insert-All P x ys p h.1)
  | inr above ↦ rw above (p, h)
]

sorted-All : (P : Text → Type 0) (xs : List Text) → All P xs → All P (sorted xs)
unfolding sorted
sorted-All P [] h = tt
sorted-All P (x ∷ xs) h = insert-All P x (sorted xs) h.0 (sorted-All P xs h.1)

below_other : (m y : Text) → text_eq y m ≡ false → text_lt m y ≡ false → text_lt y m ≡ true
below_other m y n h = elim (Bool-cases (text_lt y m)) [
  | inl less ↦ less
  | inr above ↦ absurd (cc (text_eq_refl m, n, text_lt-total y m above h))
]

all_below :
    (m : Text) (xs : List Text)
    → All (λ y. text_eq y m ≡ false) xs
    → All (λ y. text_lt m y ≡ false) xs
    → All (λ y. text_lt y m ≡ true) xs
all_below m [] h k = tt
all_below m (x ∷ xs) h k = (below_other m x h.0 k.0, all_below m xs h.1 k.1)

-- A text among others, none of which is beyond it, is the last one when they are sorted.
pub last_of-sorted :
    (m : Text) (xs : List Text)
    → contains_text m xs ≡ true
    → All (λ y. text_lt m y ≡ false) xs
    → last_of (sorted xs) ≡ some m
unfolding sorted contains_text any
last_of-sorted m [] h k = cc
last_of-sorted m (x ∷ xs) h k = elim (Bool-cases (contains_text m xs)) [
  | inl among ↦ insert_below_last x m (sorted xs) k.0 (last_of-sorted m xs among k.1)
  | inr alone ↦
      let same : x ≡ m = text_eq_sound x m (ground (arith, h, alone)) in
      let others = all_below m xs (any-All (λ y. text_eq y m) xs alone) k.1 in
      subst (λ z. last_of (insert_text z (sorted xs)) ≡ some m) (sym same)
        (insert_last m (sorted xs) (sorted-All (λ y. text_lt y m ≡ true) xs others))
]
