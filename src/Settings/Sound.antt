-- ===== src/Settings/Sound.antt =====
-- src/agentmarshal/settings.py: what the settings that are read can be, and where a default stands.
use mathlib.Core.Path.{subst}
use agentmarshal.Common.{
  any, is_empty, All-snoc, What, ok, pass, guard, >>-ok, >>=-ok, Text, text_eq, contains_text,
  is_unique, leb, ℕ, ◌≡◌, refl, sym, ◌⊎◌, inl, inr, true, false, not, ◌&&◌, ◌||◌, Option, none,
  some, List, [], ◌∷◌, ◌++◌, arith,
}
use agentmarshal.Json.{pos, Json, int, str, arr, nil, cons, Fields, elements, ◌!◌}
use agentmarshal.Runtime.{Runtime}
use agentmarshal.Contracts.HeaderFacts.{text_eq_sym, IsName, IsListing, not-guard}
use agentmarshal.Settings.{
  ProjectSettings, default_finding_classes, section, as_settings_error, each_class, class_list,
  finding_classes, threshold, changes_required_threshold, require_agreement, read_project_settings,
}
use agentmarshal.Records.Forgeable.{forges_rendered_text}
use agentmarshal.Contracts.Scope.{reject_control_characters}

-- What the readers of the settings rely on.
pub record SettingsAreSound (rt : Runtime) (s : ProjectSettings) : Type 0 where
  pub classes : (s.finding_classes ≡ default_finding_classes) ⊎ IsListing rt s.finding_classes
  pub given : is_empty s.finding_classes ≡ false
  pub threshold : leb 1 s.changes_required_threshold ≡ true

same_texts : (xs ys : List Text) → ok xs ≡ ok ys → ys ≡ xs
same_texts xs ys h = cc

refused_settings :
    (rt : Runtime) (e : Text) (what : What)
    → as_settings_error (reject_control_characters rt e what) ≡ pass
    → forges_rendered_text rt e ≡ false
unfolding as_settings_error reject_control_characters
refused_settings rt e what h = ground arith

contains-snoc :
    (x : Text) (xs : List Text) (e : Text)
    → contains_text x (xs ++ (e ∷ [])) ≡ (contains_text x xs || text_eq e x)
unfolding contains_text any
contains-snoc x [] e = ground arith
contains-snoc x (y ∷ xs) e = ground (arith, contains-snoc x xs e)

unique-snoc :
    (xs : List Text) (e : Text)
    → contains_text e xs ≡ false
    → is_unique xs ≡ true
    → is_unique (xs ++ (e ∷ [])) ≡ true
unfolding is_unique contains_text any
unique-snoc [] e new u = refl
unique-snoc (x ∷ xs) e new u =
    ground (arith, new, u, unique-snoc xs e, contains-snoc x xs e, text_eq_sym x e)

snoc-IsListing :
    (rt : Runtime) (xs : List Text) (e : Text)
    → IsListing rt xs
    → is_empty e ≡ false
    → contains_text e xs ≡ false
    → forges_rendered_text rt e ≡ false
    → IsListing rt (xs ++ (e ∷ []))
snoc-IsListing rt xs e l given new clean = record {
  named = All-snoc (IsName rt) xs e l.named (given, clean);
  unique = unique-snoc xs e new l.unique;
}

snoc_is_given : (xs : List Text) (e : Text) → is_empty (xs ++ (e ∷ [])) ≡ false
unfolding is_empty
snoc_is_given [] e = refl
snoc_is_given (x ∷ xs) e = refl

-- The loop keeps a list of distinct entries.
each_class-IsListing :
    (rt : Runtime) (classes : List Text) (entries : List Json) (out : List Text)
    → IsListing rt classes
    → each_class rt classes entries ≡ ok out
    → IsListing rt out × (is_empty out ≡ (is_empty classes && is_empty entries))
unfolding each_class
each_class-IsListing rt classes [] out l h =
    let same = same_texts classes out h in
    (subst (IsListing rt) (sym same) l, unfold is_empty in rw same ground arith)
each_class-IsListing rt classes (str e ∷ entries) out l h =
    let (given, h1) = >>-ok (guard (not (is_empty e)) _) _ h in
    let (new, h2) = >>-ok (guard (not (contains_text e classes)) _) _ h1 in
    let (clean, h3) = >>-ok (as_settings_error (reject_control_characters rt e _)) _ h2 in
    let (listing, size) =
      each_class-IsListing rt (classes ++ (e ∷ [])) entries out
        (snoc-IsListing rt classes e l (not-guard _ _ given) (not-guard _ _ new)
          (refused_settings rt e _ clean))
        h3 in
    (listing, rw size (rw (snoc_is_given classes e) (unfold is_empty in ground arith)))
each_class-IsListing rt classes (_ ∷ entries) out l h = cc

classes_are_sound :
    (rt : Runtime) (v : Option Json) (out : List Text)
    → class_list rt v ≡ ok out
    → ((out ≡ default_finding_classes) ⊎ IsListing rt out) × (is_empty out ≡ false)
unfolding class_list
classes_are_sound rt none out h =
    let same = same_texts default_finding_classes out h in
    (inl same, rw same (unfold is_empty in refl))
classes_are_sound rt (some (arr nil)) out h = cc
classes_are_sound rt (some (arr (cons x xs))) out h =
    let (listing, size) =
      each_class-IsListing rt [] (x ∷ elements xs) out
        (record { named = tt; unique = unfold is_unique in refl }) h in
    (inr listing, rw size (unfold is_empty in refl))
classes_are_sound rt (some _) out h = cc

threshold_is_sound : (v : Option Json) (n : ℕ) → threshold v ≡ ok n → leb 1 n ≡ true
unfolding threshold
threshold_is_sound none n h = ground (arith, h)
threshold_is_sound (some (int (pos m))) n h = ground (arith, h)
threshold_is_sound (some _) n h = cc

same_settings : (a b : ProjectSettings) → ok a ≡ ok b → b ≡ a
same_settings a b h = cc

-- Settings that are read have a threshold of at least one and a list of finding classes that is not
-- empty: the default list, or one of distinct, non-empty texts that do not forge rendered lines.
pub read_project_settings-SettingsAreSound :
    (rt : Runtime) (project : Fields) (s : ProjectSettings)
    → read_project_settings rt project ≡ ok s
    → SettingsAreSound rt s
unfolding read_project_settings finding_classes changes_required_threshold
read_project_settings-SettingsAreSound rt project s h =
    let (classes, c, h1) = >>=-ok (finding_classes rt project) _ h in
    let (least, t, h2) = >>=-ok (changes_required_threshold project) _ h1 in
    let (agreed, _, h3) = >>=-ok (require_agreement project) _ h2 in
    let (sc, _, c') = >>=-ok (section (project ! "review")) _ c in
    let (st, _, t') = >>=-ok (section (project ! "review")) _ t in
    let (listed, given) = classes_are_sound rt (sc ! "finding_classes") classes c' in
    subst (SettingsAreSound rt) (sym (same_settings _ s h3)) (record {
      classes = listed;
      given = given;
      threshold = threshold_is_sound (st ! "changes_required_threshold") least t';
    })
