-- ===== src/Settings.antt =====
-- src/agentmarshal/settings.py: the readers of the three project settings, from the object that
-- `project.json` holds.
use agentmarshal.Common.{
  is_empty, plain, settings_refused, Result, ok, err, Check, pass, guard, ◌>>◌, ◌>>=◌, Text, text,
  contains_text, leb, if◌then◌else◌, ℕ, Bool, false, not, Option, none, some, List, [], ◌∷◌, ◌++◌,
}
use agentmarshal.Json.{pos, Json, bool, int, str, arr, obj, nil, cons, Fields, end, elements, ◌!◌}
use agentmarshal.Runtime.{Runtime}
use agentmarshal.Contracts.Scope.{reject_control_characters}
pub mod Sound

pub record ProjectSettings : Type 0 where
  pub finding_classes : List Text
  pub changes_required_threshold : ℕ
  pub require_agreement : Bool

abbrev pub default_finding_classes : List Text
default_finding_classes =
    text "correctness"
    ∷ text "contract-mismatch"
    ∷ text "claim-accuracy"
    ∷ text "scope"
    ∷ text "test-gap"
    ∷ text "security"
    ∷ text "style"
    ∷ []

abbrev pub default_changes_required_threshold : ℕ
default_changes_required_threshold = 3

abbrev pub default_require_agreement : Bool
default_require_agreement = false

-- `_section`: a section that is absent has no keys, as one that is empty.
unfoldable pub section : Option Json → Result Fields
section none = ok end
section (some (obj f)) = ok f
section (some v) = err (settings_refused "a section must be an object")

-- The error that the loop of `_finding_classes` raises again as its own.
unfoldable pub as_settings_error : Check → Check
as_settings_error (ok u) = pass
as_settings_error (err e) = err (settings_refused "must not contain control characters")

-- The loop of `_finding_classes`, with the entries read so far in `classes`.
unfoldable pub each_class : Runtime → List Text → List Json → Result (List Text)
unfolding is_empty contains_text as_settings_error reject_control_characters
each_class rt classes [] = ok classes
each_class rt classes (str e ∷ entries) = do
  guard (not (is_empty e)) (settings_refused "an entry is not a non-empty string")
  guard (not (contains_text e classes)) (settings_refused "repeats an entry")
  as_settings_error (reject_control_characters rt e (plain "review.finding_classes entry"))
  each_class rt (classes ++ (e ∷ [])) entries
each_class rt classes (v ∷ entries) = err (settings_refused "an entry is not a non-empty string")

unfoldable pub class_list : Runtime → Option Json → Result (List Text)
unfolding each_class elements
class_list rt none = ok default_finding_classes
class_list rt (some (arr nil)) = err (settings_refused "must be a non-empty list")
class_list rt (some (arr (cons x xs))) = each_class rt [] (x ∷ elements xs)
class_list rt (some v) = err (settings_refused "must be a non-empty list")

unfoldable pub finding_classes : Runtime → Fields → Result (List Text)
unfolding section ◌!◌ class_list
finding_classes rt project =
    section (project ! "review") >>= λ s. class_list rt (s ! "finding_classes")

unfoldable pub threshold : Option Json → Result ℕ
threshold none = ok default_changes_required_threshold
threshold (some (int (pos n))) =
    if leb 1 n then ok n else err (settings_refused "must be an integer of at least 1")
threshold (some v) = err (settings_refused "must be an integer of at least 1")

unfoldable pub changes_required_threshold : Fields → Result ℕ
unfolding section ◌!◌ threshold
changes_required_threshold project =
    section (project ! "review") >>= λ s. threshold (s ! "changes_required_threshold")

unfoldable pub switch : Option Json → Result Bool
switch none = ok default_require_agreement
switch (some (bool b)) = ok b
switch (some v) = err (settings_refused "must be a boolean")

unfoldable pub require_agreement : Fields → Result Bool
unfolding section ◌!◌ switch
require_agreement project = section (project ! "contract") >>= λ s. switch (s ! "require_agreement")

unfoldable pub read_project_settings : Runtime → Fields → Result ProjectSettings
unfolding finding_classes changes_required_threshold require_agreement
read_project_settings rt project = do
  classes ← finding_classes rt project
  least ← changes_required_threshold project
  agreed ← require_agreement project
  ok (record {
    finding_classes = classes;
    changes_required_threshold = least;
    require_agreement = agreed;
  })
