-- ===== src/Contracts/Covers.antt =====
-- src/agentmarshal/journal/contracts.py: what `scope_covers` covers.
use mathlib.Core.Path.{subst}
use mathlib.Core.List.{append-nil}
use agentmarshal.Common.{
  is_empty, All, pass, guard, >>-ok, guard-ok, Text, text_eq, starts_with, text_eq_refl,
  text_eq_sound, ◌==◌, ==_iff, Bool-cases, and-eq-true, ℕ, zero, suc, String, ◌≡◌, refl, sym, ap,
  ◌∙◌, ◌↔◌, ◌⊎◌, inl, inr, Bool, true, false, not, ◌||◌, List, [], ◌∷◌, ◌++◌, arith,
}
use agentmarshal.Runtime.{Runtime}
use agentmarshal.Contracts.Scope.{
  ends_with_slash, rstrip_slash, validate_scope_entry, entry_covers, scope_covers,
}
use agentmarshal.Records.Builders.Create.{entry}
use agentmarshal.Contracts.Slashes.{
  slashes, EndsInSlash, ends_with_slash-EndsInSlash, slashed_ends, ends_of_EndsInSlash,
  ends_in_none, none_ends, rstrip_slash-parts, ends_with_slash-rstrip_slash, rstrip_slash-append,
}

-- An entry names a path; or a directory, by a text that ends in no slash and one slash or more: that
-- text itself and what continues the entry.
pub data Covers (path entry : Text) : Type 0 where
  exact : ¬ EndsInSlash entry → path ≡ entry → Covers path entry
  itself :
      (stem : Text) (n : ℕ)
      → ¬ EndsInSlash stem
      → entry ≡ stem ++ slashes (suc n)
      → path ≡ stem
      → Covers path entry
  below : EndsInSlash entry → (rest : Text) → path ≡ entry ++ rest → Covers path entry

-- Some entry of the scope covers the path.
pub data CoversSome (path : Text) : List Text → Type 0 where
  here : {entry : Text} {scope : List Text} → Covers path entry → CoversSome path (entry ∷ scope)
  there :
      {entry : Text} {scope : List Text} → CoversSome path scope → CoversSome path (entry ∷ scope)

starts_with-append : (p rest : Text) → starts_with (p ++ rest) p ≡ true
unfolding starts_with
starts_with-append [] rest = refl
starts_with-append (c ∷ p) rest = ground (arith, starts_with-append p rest)

starts_with-rest : (s p : Text) → starts_with s p ≡ true → (rest : Text) × (s ≡ p ++ rest)
unfolding starts_with
starts_with-rest s [] h = (s, refl)
starts_with-rest [] (c ∷ p) h = cc
starts_with-rest (d ∷ s) (c ∷ p) h =
    let (same, k) = and-eq-true (d == c) (starts_with s p) h in
    let (rest, e) = starts_with-rest s p k in
    (rest, ap (λ x. x ∷ s) ((==_iff d c).0 same) ∙ ap (λ t. c ∷ t) e)

or-cases : (a b : Bool) → (a || b) ≡ true → (a ≡ true) ⊎ (b ≡ true)
or-cases true b h = inl refl
or-cases false b h = inr h

entry_covers-Covers : (path entry : Text) → entry_covers path entry ≡ true → Covers path entry
unfolding entry_covers
entry_covers-Covers path entry h = elim (Bool-cases (ends_with_slash entry)) [
  | inl slashed ↦
      elim (or-cases (text_eq path (rstrip_slash entry)) (starts_with path entry) (ground arith)) [
        | inl same ↦
            directory slashed (text_eq_sound path (rstrip_slash entry) same)
              (rstrip_slash-parts entry)
        | inr under ↦
            let (rest, e) = starts_with-rest path entry under in
            below (ends_with_slash-EndsInSlash entry slashed) rest e
      ]
  | inr bare ↦ exact (ends_in_none entry bare) (text_eq_sound path entry (ground arith))
]
  where
    directory :
        ends_with_slash entry ≡ true
        → path ≡ rstrip_slash entry
        → (n : ℕ) × (entry ≡ rstrip_slash entry ++ slashes n)
        → Covers path entry
    directory slashed same (zero, e) = absurd (
        cc (
          slashed,
          ap ends_with_slash (e ∙ append-nil (rstrip_slash entry)),
          ends_with_slash-rstrip_slash entry,
        ))
    directory slashed same (suc n, e) =
        itself (rstrip_slash entry) n
          (ends_in_none (rstrip_slash entry) (ends_with_slash-rstrip_slash entry)) e same

entry_covers_of_Covers : (path entry : Text) → Covers path entry → entry_covers path entry ≡ true
unfolding entry_covers
entry_covers_of_Covers path entry (exact s e) = rw (none_ends entry s, e, text_eq_refl entry) refl
entry_covers_of_Covers path entry (itself stem n s e same) =
    rw
      (
        e,
        slashed_ends n stem,
        rstrip_slash-append stem (suc n) (none_ends stem s),
        same,
        text_eq_refl stem,
      )
      refl
entry_covers_of_Covers path entry (below s rest e) =
    rw (ends_of_EndsInSlash entry s, e, starts_with-append entry rest) (ground arith)

scope_covers-CoversSome :
    (scope : List Text) (path : Text) → scope_covers scope path ≡ true → CoversSome path scope
unfolding scope_covers
scope_covers-CoversSome [] path h = cc
scope_covers-CoversSome (entry ∷ scope) path h =
    elim (or-cases (entry_covers path entry) (scope_covers scope path) h) [
      | inl own ↦ here (entry_covers-Covers path entry own)
      | inr later ↦ there (scope_covers-CoversSome scope path later)
    ]

scope_covers_of_CoversSome :
    (scope : List Text) (path : Text) → CoversSome path scope → scope_covers scope path ≡ true
unfolding scope_covers
scope_covers_of_CoversSome [] path h = elim h [ ]
scope_covers_of_CoversSome (entry ∷ scope) path (here c) =
    rw (entry_covers_of_Covers path entry c) refl
scope_covers_of_CoversSome (entry ∷ scope) path (there c) =
    rw (scope_covers_of_CoversSome scope path c) (ground arith)

-- A scope covers a path exactly when some entry of it does: one that does not end in a slash and is the
-- path, or one that ends in a slash and is, without all of its last slashes, the path, or ends in a slash
-- and begins the path.
pub scope_covers_iff :
    (scope : List Text) (path : Text) → (scope_covers scope path ≡ true) ↔ CoversSome path scope
scope_covers_iff scope path =
    (scope_covers-CoversSome scope path, scope_covers_of_CoversSome scope path)

-- The text does not start with a slash, and is not empty.
abbrev pub IsRelative : Text → Type 0
IsRelative [] = ⊥
IsRelative (c ∷ s) = (c == b'/') ≡ false

validated-IsRelative :
    (rt : Runtime) (what : String) (entry : Text)
    → validate_scope_entry rt entry what ≡ pass
    → IsRelative entry
unfolding validate_scope_entry starts_with is_empty
validated-IsRelative rt what [] h = absurd (cc)
validated-IsRelative rt what (c ∷ s) h =
    let (relative, _) = >>-ok (guard (not (starts_with (c ∷ s) (b'/' ∷ []))) _) _ h in
    let holds = guard-ok (not (starts_with (c ∷ s) (b'/' ∷ []))) _ relative in ground arith

stem-IsRelative : (stem : Text) (n : ℕ) → IsRelative (stem ++ slashes (suc n)) → IsRelative stem
stem-IsRelative [] n h = cc
stem-IsRelative (c ∷ stem) n h = h

longer-IsRelative : (entry rest : Text) → IsRelative entry → IsRelative (entry ++ rest)
longer-IsRelative [] rest h = elim h [ ]
longer-IsRelative (c ∷ entry) rest h = h

Covers-IsRelative : (path entry : Text) → IsRelative entry → Covers path entry → IsRelative path
Covers-IsRelative path entry v (exact s e) = subst IsRelative (sym e) v
Covers-IsRelative path entry v (itself stem n s e same) =
    subst IsRelative (sym same) (stem-IsRelative stem n (subst IsRelative e v))
Covers-IsRelative path entry v (below s rest e) =
    subst IsRelative (sym e) (longer-IsRelative entry rest v)

-- If every entry of a scope passes `validate_scope_entry`, each path that the scope covers is
-- relative: it is not empty and does not start with a slash.
pub validated_scope-IsRelative :
    (rt : Runtime) (what : String) (scope : List Text) (path : Text)
    → All (λ entry. validate_scope_entry rt entry what ≡ pass) scope
    → scope_covers scope path ≡ true
    → IsRelative path
validated_scope-IsRelative rt what scope path valid h =
    relative scope valid (scope_covers-CoversSome scope path h)
  where
    relative :
        (scope : List Text)
        → All (λ entry. validate_scope_entry rt entry what ≡ pass) scope
        → CoversSome path scope
        → IsRelative path
    relative [] v h = elim h [ ]
    relative (entry ∷ scope) v (here c) =
        Covers-IsRelative path entry (validated-IsRelative rt what entry v.0) c
    relative (entry ∷ scope) v (there c) = relative scope v.1 c
