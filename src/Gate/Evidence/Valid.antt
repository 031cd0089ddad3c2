-- ===== src/Gate/Evidence/Valid.antt =====
-- src/agentmarshal/journal/gate.py: what the added records are where the gate finds none invalid.
use agentmarshal.Common.{
  is_empty, All, Error, Result, ok, err, ◌>>=◌, >>=-ok, Text, text_eq_sound, if◌then◌else◌,
  and-eq-true, ◌≡◌, refl, Bool, true, false, not, Option, none, some, List, [], ◌∷◌, ◌++◌,
}
use agentmarshal.Json.{Fields, ◌!◌, text_of, is_str}
use agentmarshal.Runtime.{Runtime}
use agentmarshal.Records.Files.{validate_record_content}
use agentmarshal.Gate.Paths.{record_path_task}
use agentmarshal.Gate.Base.{Candidate}
use agentmarshal.Gate.Evidence.{
  file_name_of, task_matches, is_caught, content_refusal, path_refusal, invalid_records,
}

-- An added path that names a record of a task, whose content is a valid record of that task.
pub record IsValidRecord (rt : Runtime) (c : Candidate) (path : Text) : Type 0 where
  pub task : Text
  pub content : Text
  pub testimony : Fields
  pub names : record_path_task path ≡ some task
  pub shown : c.show path ≡ ok content
  pub valid :
      validate_record_content rt (record { file_name = file_name_of path; content = content })
      ≡ ok testimony
  pub of_task : text_of (testimony ! "task") ≡ task

append_is_empty :
    (xs ys : List Text) → is_empty (xs ++ ys) ≡ true → (is_empty xs ≡ true) × (is_empty ys ≡ true)
unfolding is_empty
append_is_empty [] ys h = (refl, h)
append_is_empty (x ∷ xs) ys h = cc

-- A result that is no error, and holds no refusal.
abbrev pub is_free : Result (List Text) → Bool
is_free (err e) = false
is_free (ok refusals) = is_empty refusals

not_refused :
    (b : Bool) (x : Text) → is_free (if not b then ok (x ∷ []) else ok []) ≡ true → b ≡ true
unfolding is_empty
not_refused true x h = refl
not_refused false x h = cc

never_free :
    (b : Bool) (x : Text) (e : Error) → is_free (if b then ok (x ∷ []) else err e) ≡ true → ⊥
unfolding is_empty
never_free true x e h = cc
never_free false x e h = cc

module _ (rt : Runtime) (c : Candidate) where
  content_is_valid :
      (path task : Text) (content : Text)
      → record_path_task path ≡ some task
      → c.show path ≡ ok content
      → (r : Result Fields)
      → validate_record_content rt (record { file_name = file_name_of path; content = content }) ≡ r
      → is_free (content_refusal path task r) ≡ true
      → IsValidRecord rt c path
  unfolding content_refusal task_matches
  content_is_valid path task content names shown (err e) valid h =
      absurd (never_free (is_caught e) _ e h)
  content_is_valid path task content names shown (ok r) valid h = record {
    task = task;
    content = content;
    testimony = r;
    names = names;
    shown = shown;
    valid = valid;
    of_task =
        text_eq_sound (text_of (r ! "task")) task
          (and-eq-true (is_str (r ! "task")) _ (not_refused _ _ h)).1;
  }

  path_is_valid :
      (path : Text) (found : Option Text)
      → record_path_task path ≡ found
      → is_free (path_refusal rt c path found) ≡ true
      → IsValidRecord rt c path
  unfolding path_refusal content_refusal is_empty
  path_is_valid path none names h = cc
  path_is_valid path (some task) names h = go (c.show path) refl h
    where
      go :
          (shown : Result Text)
          → c.show path ≡ shown
          → is_free (
              content_refusal path task (
                shown >>= λ content.
                validate_record_content rt
                  (record { file_name = file_name_of path; content = content })))
            ≡ true
          → IsValidRecord rt c path
      go (err e) e1 h = absurd (never_free (is_caught e) _ e h)
      go (ok content) e1 h = content_is_valid path task content names e1 _ refl h

  pub added_are_valid :
      (paths refusals : List Text)
      → invalid_records rt c paths ≡ ok refusals
      → is_empty refusals ≡ true
      → All (IsValidRecord rt c) paths
  unfolding invalid_records
  added_are_valid [] refusals h free = tt
  added_are_valid (path ∷ paths) refusals h free =
      let (here_refused, e1, h1) = >>=-ok (path_refusal rt c path (record_path_task path)) _ h in
      let (later_refused, e2, h2) = >>=-ok (invalid_records rt c paths) _ h1 in
      let whole : is_empty (here_refused ++ later_refused) ≡ true = cong_empty _ _ h2 free in
      let (first, rest) = append_is_empty here_refused later_refused whole in
      (
        path_is_valid path (record_path_task path) refl (rw e1 first),
        added_are_valid paths later_refused e2 rest,
      )
    where
      cong_empty :
          (a b : List Text)
          → ◌≡◌ {A = Result (List Text)} (ok a) (ok b)
          → is_empty b ≡ true
          → is_empty a ≡ true
      cong_empty a b e h = let same : a ≡ b = cc in rw same h
