-- ===== src/Contracts/Slashes.antt =====
-- src/agentmarshal/journal/contracts.py: the slashes that a scope's entry ends in.
use agentmarshal.Common.{
  is_empty, Text, ◌==◌, if◌then◌else◌, ==_iff, Bool-cases, ℕ, zero, suc, ◌≡◌, refl, ap, ◌∙◌, inl,
  inr, Bool, true, false, ◌&&◌, [], ◌∷◌, ◌++◌, arith,
}
use agentmarshal.Contracts.Scope.{ends_with_slash, rstrip_slash}

-- As many slashes.
abbrev pub slashes : ℕ → Text
slashes zero = []
slashes (suc n) = b'/' ∷ slashes n

abbrev pub EndsInSlash : Text → Type 0
EndsInSlash s = (front : Text) × (s ≡ front ++ (b'/' ∷ []))

and_false : (b : Bool) → (b && false) ≡ false
and_false b = ground arith

pub ends_with_slash-EndsInSlash : (s : Text) → ends_with_slash s ≡ true → EndsInSlash s
unfolding ends_with_slash
ends_with_slash-EndsInSlash [] h = cc
ends_with_slash-EndsInSlash (c ∷ []) h = ([], ap (λ x. x ∷ []) ((==_iff c b'/').0 h))
ends_with_slash-EndsInSlash (c ∷ d ∷ s) h =
    let (front, e) = ends_with_slash-EndsInSlash (d ∷ s) h in (c ∷ front, ap (λ t. c ∷ t) e)

pub slashed_ends : (n : ℕ) (front : Text) → ends_with_slash (front ++ slashes (suc n)) ≡ true
unfolding ends_with_slash
slashed_ends zero [] = refl
slashed_ends (suc n) [] = slashed_ends n []
slashed_ends n (c ∷ []) = slashed_ends n []
slashed_ends n (c ∷ d ∷ front) = slashed_ends n (d ∷ front)

pub ends_of_EndsInSlash : (s : Text) → EndsInSlash s → ends_with_slash s ≡ true
ends_of_EndsInSlash s (front, e) = ap ends_with_slash e ∙ slashed_ends 0 front

pub ends_in_none : (s : Text) → ends_with_slash s ≡ false → ¬ EndsInSlash s
ends_in_none s h e = cc (ends_of_EndsInSlash s e, h)

pub none_ends : (s : Text) → ¬ EndsInSlash s → ends_with_slash s ≡ false
none_ends s h = elim (Bool-cases (ends_with_slash s)) [
  | inl slashed ↦ absurd (h (ends_with_slash-EndsInSlash s slashed))
  | inr bare ↦ bare
]

-- What `rstrip` takes away are slashes,
pub rstrip_slash-parts : (s : Text) → (n : ℕ) × (s ≡ rstrip_slash s ++ slashes n)
unfolding rstrip_slash is_empty
rstrip_slash-parts [] = (0, refl)
rstrip_slash-parts (c ∷ s) = let (n, e) = rstrip_slash-parts s in go (rstrip_slash s) n e
  where
    go :
        (rest : Text) (n : ℕ)
        → s ≡ rest ++ slashes n
        → (m : ℕ) × (c ∷ s ≡ (if (c == b'/') && is_empty rest then [] else c ∷ rest) ++ slashes m)
    go (d ∷ rest) n e = (n, rw (and_false (c == b'/')) (ap (λ t. c ∷ t) e))
    go [] n e = elim (Bool-cases (c == b'/')) [
      | inl same ↦ (suc n, rw same (let k : c ≡ b'/' = (==_iff c b'/').0 same in cc))
      | inr differs ↦ (n, rw differs (ap (λ t. c ∷ t) e))
    ]

-- and none is left.
pub ends_with_slash-rstrip_slash : (s : Text) → ends_with_slash (rstrip_slash s) ≡ false
unfolding ends_with_slash rstrip_slash is_empty
ends_with_slash-rstrip_slash [] = refl
ends_with_slash-rstrip_slash (c ∷ s) = go (rstrip_slash s) (ends_with_slash-rstrip_slash s)
  where
    go :
        (rest : Text)
        → ends_with_slash rest ≡ false
        → ends_with_slash (if (c == b'/') && is_empty rest then [] else c ∷ rest) ≡ false
    go (d ∷ rest) h = rw (and_false (c == b'/')) h
    go [] h = elim (Bool-cases (c == b'/')) [
      | inl same ↦ rw same refl
      | inr differs ↦ rw differs differs
    ]

rstrip_slash-slashes : (n : ℕ) → rstrip_slash (slashes n) ≡ []
unfolding rstrip_slash is_empty
rstrip_slash-slashes zero = refl
rstrip_slash-slashes (suc n) = rw (rstrip_slash-slashes n) refl

pub rstrip_slash-append :
    (stem : Text) (n : ℕ) → ends_with_slash stem ≡ false → rstrip_slash (stem ++ slashes n) ≡ stem
unfolding rstrip_slash ends_with_slash is_empty
rstrip_slash-append [] n h = rstrip_slash-slashes n
rstrip_slash-append (c ∷ []) n h = rw (rstrip_slash-slashes n, h) refl
rstrip_slash-append (c ∷ d ∷ stem) n h =
    rw (rstrip_slash-append (d ∷ stem) n h, and_false (c == b'/')) refl
