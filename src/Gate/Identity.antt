-- ===== src/Gate/Identity.antt =====
-- src/agentmarshal/journal/gate.py and actors.py: what the gates read, and whether a reviewer is
-- independent of the recorder of a finding.
use agentmarshal.Common.{
  is_empty, Text, text, text_eq, contains_text, if◌then◌else◌, ℕ, ◌⊎◌, Bool, not, ◌&&◌, ◌||◌,
  Option, none, some, List, [], ◌∷◌, map,
}
use agentmarshal.Json.{Json, str, Fields, end, get, ◌!◌, text_of, list_of, fields_of, is_str}
use agentmarshal.Runtime.{Runtime}
use agentmarshal.Registry.{State}
use agentmarshal.Contracts.Header.{ContractHeader, strip}
use agentmarshal.Gate.Texts.{select}
use agentmarshal.Gate.Paths.{SidecarGit}

-- What the gates take from outside the journal: `str.casefold` and `repr` of a text; the project's `project.json`, if it is
-- read; the bytes of a local artifact, its reading's error, or none where `artifact_path` finds none;
-- and the outputs of git.
pub record Host : Type 0 where
  pub casefold : Text → Text
  pub repr : Text → Text
  pub project : Option Fields
  pub artifact : Text → Option (Text ⊎ List ℕ)
  pub git : SidecarGit

-- `TaskStatus`, as `load_task_status` gives it
pub record Task : Type 0 where
  pub id : Text
  pub state : State
  pub contract : ContractHeader
  pub records : List Fields

-- The fields that both gates give; a report of the findings gate has the others at their defaults.
pub record GateReport : Type 0 where
  pub passed : Bool
  pub lines : List Text
  pub resolved_commit : Text
  pub resolved_finding : Option Text

unfoldable pub last_of {ℓ} : {A : Type ℓ} → List A → Option A
last_of [] = none
last_of (x ∷ []) = some x
last_of (x ∷ y ∷ xs) = last_of (y ∷ xs)

-- `identity.strip().casefold()`
unfoldable pub normalized : Runtime → Host → Text → Text
unfolding strip
normalized rt host s = host.casefold (strip rt s)

unfoldable pub actor_identities : Runtime → Host → Option Json → List Text
unfolding select normalized strip is_str list_of text_of is_empty
actor_identities rt host identities = map (normalized rt host) (
    select (λ s. not (is_empty (strip rt s)))
      (map (λ v. text_of (some v)) (select (λ v. is_str (some v)) (list_of identities))))

unfoldable pub actor_git_identities : Runtime → Host → Fields → List Text
unfolding is_str text_of ◌!◌ text_eq text normalized strip is_empty get actor_identities
actor_git_identities rt host f =
    let recorded_by = text_of (f ! "recorded_by") in
    let source = text_of (f ! "recorded_by_source") in
    if not (is_str (f ! "recorded_by") && is_str (f ! "recorded_by_source"))
    then []
    else if text_eq source (text "git-identity")
    then (if is_empty (strip rt recorded_by) then [] else normalized rt host recorded_by ∷ [])
    else if not (contains_text source (text "project-actor" ∷ text "override" ∷ []))
    then []
    else actor_identities rt host (
        fields_of (get (fields_of (project_of host.project ! "actors")) recorded_by)
        ! "git_identities")
  where
    project_of : Option Fields → Fields
    project_of none = end
    project_of (some r) = r

unfoldable pub normalized_email : Runtime → Host → Option Json → Text
unfolding normalized
normalized_email rt host (some (str email)) = normalized rt host email
normalized_email rt host _ = []

unfoldable pub finding_reviewer_identity_refusal :
    Runtime → Host → Fields → Option Json → Option Text
unfolding actor_git_identities normalized_email is_empty contains_text text
finding_reviewer_identity_refusal rt host f email =
    let recorder = actor_git_identities rt host f in
    let reviewer = normalized_email rt host email in
    if is_empty recorder
    then some (text "finding recorder resolves to no git identities")
    else if is_empty reviewer || contains_text reviewer recorder
    then some (
        text
          "declared reviewer identity differs from the finding recorder's declared git identities")
    else none
