-- ===== src/Contracts/HeaderFacts.antt =====
-- src/agentmarshal/journal/contracts.py: what a contract's header is once it has been parsed.
use mathlib.Core.Path.{subst}
use agentmarshal.Common.{
  any, is_empty, All, All-map, What, Error, contract_refused, ok, pass, guard, ◌>>◌, ◌>>=◌, >>-ok,
  >>=-ok, Text, text_eq, contains_text, is_unique, Bool-cases, or-eq-false, String, ◌≡◌, refl, sym,
  inl, inr, Bool, true, false, not, List, [], ◌∷◌, arith,
}
use agentmarshal.Json.{Fields, has}
use agentmarshal.Runtime.{Runtime}
use agentmarshal.Records.Forgeable.{forges_rendered_text}
use agentmarshal.Contracts.Scope.{reject_control_characters}
use agentmarshal.Contracts.Header.{
  header_field, require_string_array, each_unique, optional_unique_nonempty_array,
}

pub text_eq_sym : (s t : Text) → text_eq s t ≡ text_eq t s
unfolding text_eq
text_eq_sym [] [] = refl
text_eq_sym [] (y ∷ t) = refl
text_eq_sym (x ∷ s) [] = refl
text_eq_sym (x ∷ s) (y ∷ t) = ground (arith, text_eq_sym s t)

-- An entry of a list of names: not empty, and no text that forges.
abbrev pub IsName : Runtime → Text → Type 0
IsName rt e = (is_empty e ≡ false) × (forges_rendered_text rt e ≡ false)

-- A list of names, none twice.
pub record IsListing (rt : Runtime) (entries : List Text) : Type 0 where
  pub named : All (IsName rt) entries
  pub unique : is_unique entries ≡ true

pub refused-clean :
    (rt : Runtime) (s : Text) (what : What)
    → reject_control_characters rt s what ≡ pass
    → forges_rendered_text rt s ≡ false
unfolding reject_control_characters
refused-clean rt s what h = ground arith

pub not-guard : (b : Bool) (e : Error) → guard (not b) e ≡ pass → b ≡ false
not-guard b e h = ground arith

pub older_only :
    (e : Text) (seen entries : List Text)
    → All (λ x. contains_text x (e ∷ seen) ≡ false) entries
    → All (λ x. contains_text x seen ≡ false) entries
unfolding contains_text any
older_only e seen entries h =
    All-map entries (λ x g. (or-eq-false (text_eq e x) (contains_text x seen) g).1) h

fresh :
    (rt : Runtime) (k : String) (seen entries : List Text)
    → each_unique rt k seen entries ≡ pass
    → All (λ e. contains_text e seen ≡ false) entries
unfolding each_unique contains_text any
fresh rt k seen [] h = tt
fresh rt k seen (e ∷ entries) h =
    let (_, h1) = >>-ok (guard (not (is_empty e)) _) _ h in
    let (new, h2) = >>-ok (guard (not (contains_text e seen)) _) _ h1 in
    let (_, h3) = >>-ok (reject_control_characters rt e _) _ h2 in
    (
      not-guard (contains_text e seen) _ new,
      older_only e seen entries (fresh rt k (e ∷ seen) entries h3),
    )

pub not_later :
    (e : Text) (seen entries : List Text)
    → All (λ x. contains_text x (e ∷ seen) ≡ false) entries
    → contains_text e entries ≡ false
unfolding contains_text any
not_later e seen [] h = refl
not_later e seen (x ∷ entries) h =
    let differs = (or-eq-false (text_eq e x) (contains_text x seen) h.0).0 in
    rw (text_eq_sym x e, differs) (not_later e seen entries h.1)

each_unique-names :
    (rt : Runtime) (k : String) (seen entries : List Text)
    → each_unique rt k seen entries ≡ pass
    → All (IsName rt) entries × (is_unique entries ≡ true)
unfolding each_unique is_unique
each_unique-names rt k seen [] h = (tt, refl)
each_unique-names rt k seen (e ∷ entries) h =
    let (given, h1) = >>-ok (guard (not (is_empty e)) _) _ h in
    let (_, h2) = >>-ok (guard (not (contains_text e seen)) _) _ h1 in
    let (clean, h3) = >>-ok (reject_control_characters rt e _) _ h2 in
    let (names, unique) = each_unique-names rt k (e ∷ seen) entries h3 in
    (
      ((not-guard (is_empty e) _ given, refused-clean rt e _ clean), names),
      rw (not_later e seen entries (fresh rt k (e ∷ seen) entries h3)) unique,
    )

ok_list : (xs ys : List Text) → ok xs ≡ ok ys → ys ≡ xs
ok_list xs ys h = cc

pub optional-IsListing :
    (rt : Runtime) (r : Fields) (k : String) (entries : List Text)
    → optional_unique_nonempty_array rt r k ≡ ok entries
    → IsListing rt entries × (has r k ≡ false → entries ≡ [])
unfolding optional_unique_nonempty_array
optional-IsListing rt r k entries h = elim (Bool-cases (has r k)) [
  | inl present ↦
      let h' : (require_string_array r k >>= (λ es.
        guard (not (is_empty es)) (contract_refused (header_field k) "must name at least one entry")
        >> (each_unique rt k [] es >> ok es)))
          ≡ ok entries =
        ground (arith, present) in
      let (es, _, h1) = >>=-ok (require_string_array r k) _ h' in
      let (_, h2) = >>-ok (guard (not (is_empty es)) _) _ h1 in
      let (checked, h3) = >>-ok (each_unique rt k [] es) _ h2 in
      let (names, unique) = each_unique-names rt k [] es checked in
      (
        subst (IsListing rt) (sym (ok_list es entries h3))
            (record { named = names; unique = unique }),
        λ missing. absurd (cc),
      )
  | inr missing ↦
      let none_given : entries ≡ [] = ground (arith, missing) in
      (
        subst (IsListing rt) (sym none_given)
            (record { named = tt; unique = unfold is_unique in refl }),
        λ _. none_given,
      )
]
