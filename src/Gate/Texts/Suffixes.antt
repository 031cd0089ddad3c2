-- ===== src/Gate/Texts/Suffixes.antt =====
-- src/agentmarshal/journal/gate.py: what the methods of Python's strings give of a text whose end is
-- known.
use agentmarshal.Common.{
  length, any, is_empty, length-append, Text, text_eq, contains, starts_with, text_eq_sound, ◌==◌,
  if◌then◌else◌, ==_iff, Bool-cases, and-eq-true, or-eq-false, ℕ, ◌≤◌, ◌<◌, ◌≡◌, refl, ap, ◌∙◌, inl,
  inr, Bool, true, false, Option, none, some, [], ◌∷◌, ◌++◌, arith,
}
use agentmarshal.Gate.Texts.{after_last, drop_suffix, ends_with}
use mathlib.Core.Path.{subst}
use mathlib.Core.Option

pub starts_with-append : (p rest : Text) → starts_with (p ++ rest) p ≡ true
unfolding starts_with
starts_with-append [] rest = refl
starts_with-append (c ∷ p) rest = ground (arith, starts_with-append p rest)

pub starts_with-rest : (s p : Text) → starts_with s p ≡ true → (rest : Text) × (s ≡ p ++ rest)
unfolding starts_with
starts_with-rest s [] h = (s, refl)
starts_with-rest [] (c ∷ p) h = cc
starts_with-rest (d ∷ s) (c ∷ p) h =
    let (same, k) = and-eq-true (d == c) (starts_with s p) h in
    let (rest, e) = starts_with-rest s p k in
    let first : d ≡ c = (==_iff d c).0 same in (rest, cc (first, e))

-- A longer text is another one.
longer_differs : (s t : Text) → length t < length s → text_eq s t ≡ false
longer_differs s t h = elim (Bool-cases (text_eq s t)) [
  | inl same ↦ absurd (omega (arith, h, ap length (text_eq_sound s t same)))
  | inr differs ↦ differs
]

drop_suffix-longer :
    (c : ℕ) (s suffix : Text)
    → length suffix ≤ length s
    → drop_suffix suffix (c ∷ s) ≡ Option.map (λ t. c ∷ t) (drop_suffix suffix s)
unfolding drop_suffix
drop_suffix-longer c s suffix h = rw (longer_differs (c ∷ s) suffix (omega (arith, h))) refl

abbrev ends_with_of : Option Text → Bool
ends_with_of none = false
ends_with_of (some t) = true

map_kept : (c : ℕ) (o : Option Text) → ends_with_of (Option.map (λ t. c ∷ t) o) ≡ ends_with_of o
map_kept c none = refl
map_kept c (some t) = refl

ends_with-longer :
    (c : ℕ) (s suffix : Text)
    → length suffix ≤ length s
    → ends_with (c ∷ s) suffix ≡ ends_with s suffix
unfolding ends_with
ends_with-longer c s suffix h =
    rw (drop_suffix-longer c s suffix h) (map_kept c (drop_suffix suffix s))

length_behind : (a w : Text) → length w ≤ length (a ++ w)
length_behind a w = omega (arith, length-append a w)

pub ends_with-append :
    (a w suffix : Text) → length suffix ≤ length w → ends_with (a ++ w) suffix ≡ ends_with w suffix
ends_with-append [] w suffix h = refl
ends_with-append (c ∷ a) w suffix h =
    ends_with-longer c (a ++ w) suffix (omega (arith, h, length_behind a w))
    ∙ ends_with-append a w suffix h

pub drop_suffix-append :
    (a suffix : Text)
    → drop_suffix suffix suffix ≡ some []
    → drop_suffix suffix (a ++ suffix) ≡ some a
drop_suffix-append [] suffix h = h
drop_suffix-append (c ∷ a) suffix h =
    drop_suffix-longer c (a ++ suffix) suffix (length_behind a suffix)
    ∙ ap (λ o. Option.map (λ t. c ∷ t) o) (drop_suffix-append a suffix h)

-- What ends with a suffix is a stem and the suffix.
drop_suffix-rest : (suffix s r : Text) → drop_suffix suffix s ≡ some r → s ≡ r ++ suffix
unfolding drop_suffix is_empty
drop_suffix-rest [] [] r h = let k : [] ≡ r = cc h in ap (λ t. t ++ []) k
drop_suffix-rest (d ∷ suffix) [] r h = cc
drop_suffix-rest suffix (c ∷ s) r h = elim (Bool-cases (text_eq (c ∷ s) suffix)) [
  | inl same ↦
      let e = text_eq_sound (c ∷ s) suffix same in
      let k : [] ≡ r = some_of (if_true _ _ _ same h) in subst (λ t. c ∷ s ≡ t ++ suffix) k e
  | inr differs ↦
      further (drop_suffix suffix s) (λ t e. drop_suffix-rest suffix s t e)
        (if_false _ _ _ differs h)
]
  where
    some_of : {a b : Text} → some a ≡ some b → a ≡ b
    some_of h = cc

    if_true :
        (b : Bool) (x y : Option Text) {z : Option Text}
        → b ≡ true
        → (if b then x else y) ≡ z
        → x ≡ z
    if_true true x y e h = h
    if_true false x y e h = cc

    if_false :
        (b : Bool) (x y : Option Text) {z : Option Text}
        → b ≡ false
        → (if b then x else y) ≡ z
        → y ≡ z
    if_false true x y e h = cc
    if_false false x y e h = h

    further :
        (o : Option Text)
        → ((t : Text) → o ≡ some t → s ≡ t ++ suffix)
        → Option.map (λ t. c ∷ t) o ≡ some r
        → c ∷ s ≡ r ++ suffix
    further none ih h = cc
    further (some t) ih h =
        let e : c ∷ t ≡ r = some_of h in
        subst (λ x. c ∷ s ≡ x ++ suffix) e (ap (λ x. c ∷ x) (ih t refl))

pub ends_with-rest :
    (s suffix : Text) → ends_with s suffix ≡ true → (stem : Text) × (s ≡ stem ++ suffix)
unfolding ends_with
ends_with-rest s suffix h = go (drop_suffix suffix s) refl h
  where
    go :
        (o : Option Text)
        → drop_suffix suffix s ≡ o
        → ends_with_of o ≡ true
        → (stem : Text) × (s ≡ stem ++ suffix)
    go none e h = cc
    go (some t) e h = (t, drop_suffix-rest suffix s t e)

pub after_last-none : (sep : ℕ) (w : Text) → contains sep w ≡ false → after_last sep w ≡ w
unfolding after_last contains any
after_last-none sep [] h = refl
after_last-none sep (c ∷ w) h =
    let (first, rest) = or-eq-false (c == sep) (contains sep w) h in rw (rest, first) refl

contains-append : (sep : ℕ) (a w : Text) → contains sep w ≡ true → contains sep (a ++ w) ≡ true
unfolding contains any
contains-append sep [] w h = h
contains-append sep (c ∷ a) w h = rw (contains-append sep a w h) (ground arith)

separator_first : (sep : ℕ) (w : Text) → contains sep (sep ∷ w) ≡ true
unfolding contains any
separator_first sep w = rw ((==_iff sep sep).1 refl) refl

-- The part after a separator, of a text that ends in a text without it,
pub after_last-append :
    (sep : ℕ) (a w : Text)
    → contains sep w ≡ false
    → (b : Text) × (after_last sep (a ++ w) ≡ b ++ w)
unfolding after_last
after_last-append sep [] w h = ([], after_last-none sep w h)
after_last-append sep (c ∷ a) w h =
    let (b, e) = after_last-append sep a w h in
    elim (Bool-cases (contains sep (a ++ w))) [
      | inl found ↦ (b, rw found e)
      | inr free ↦ elim (Bool-cases (c == sep)) [
        | inl same ↦ (a, rw (free, same) refl)
        | inr differs ↦ (c ∷ a, rw (free, differs) refl)
      ]
    ]

-- and of one that ends in the separator and such a text.
pub after_last-separator :
    (sep : ℕ) (a w : Text) → contains sep w ≡ false → after_last sep (a ++ (sep ∷ w)) ≡ w
unfolding after_last
after_last-separator sep [] w h = rw (h, (==_iff sep sep).1 refl) refl
after_last-separator sep (c ∷ a) w h =
    rw (contains-append sep a (sep ∷ w) (separator_first sep w)) (after_last-separator sep a w h)
