-- ===== src/Gate/Texts/Sets.antt =====
-- src/agentmarshal/journal/gate.py: the equality of sets of strings, by their elements.
use agentmarshal.Common.{
  all, any, All, All-map, all-All, Text, text_eq, contains_text, text_eq_refl, text_eq_sound,
  Bool-cases, and-eq-true, ◌≡◌, refl, sym, inl, inr, Bool, true, List, [], ◌∷◌, arith,
}
use agentmarshal.Gate.Texts.{same_set}
use mathlib.Core.List.{Memᴰ}

contains_text-Mem : (s : Text) (xs : List Text) → contains_text s xs ≡ true → Memᴰ s xs
unfolding contains_text any
contains_text-Mem s [] h = cc
contains_text-Mem s (x ∷ xs) h = elim (Bool-cases (text_eq x s)) [
  | inl same ↦ Memᴰ.head (sym (text_eq_sound x s same))
  | inr differs ↦ Memᴰ.tail (contains_text-Mem s xs (ground (arith, h, differs)))
]

contains_text_of_Mem : (s : Text) (xs : List Text) → Memᴰ s xs → contains_text s xs ≡ true
unfolding contains_text any
contains_text_of_Mem s [] m = elim m [ ]
contains_text_of_Mem s (x ∷ xs) (Memᴰ.head e) = rw (← e, text_eq_refl s) refl
contains_text_of_Mem s (x ∷ xs) (Memᴰ.tail m) = rw (contains_text_of_Mem s xs m) (ground arith)

all_of_All : (p : Text → Bool) (xs : List Text) → All (λ x. p x ≡ true) xs → all p xs ≡ true
unfolding all
all_of_All p [] h = refl
all_of_All p (x ∷ xs) h = rw (h.0, all_of_All p xs h.1) refl

pub same_set-Mem :
    (xs ys : List Text) → same_set xs ys ≡ true → All (λ x. Memᴰ x ys) xs × All (λ y. Memᴰ y xs) ys
unfolding same_set
same_set-Mem xs ys h =
    let (there_too, back) = and-eq-true (all (λ x. contains_text x ys) xs) _ h in
    (
      All-map xs (λ x k. contains_text-Mem x ys k) (all-All (λ x. contains_text x ys) xs there_too),
      All-map ys (λ y k. contains_text-Mem y xs k) (all-All (λ y. contains_text y xs) ys back),
    )

pub same_set_of_Mem :
    (xs ys : List Text) → All (λ x. Memᴰ x ys) xs → All (λ y. Memᴰ y xs) ys → same_set xs ys ≡ true
unfolding same_set
same_set_of_Mem xs ys h k =
    rw
      (
        all_of_All (λ x. contains_text x ys) xs (All-map xs (λ x m. contains_text_of_Mem x ys m) h),
        all_of_All (λ y. contains_text y xs) ys (All-map ys (λ y m. contains_text_of_Mem y xs m) k),
      )
      refl
