-- ===== src/Gate/Paths.antt =====
-- src/agentmarshal/journal/gate.py: the paths of the journal's evidence, and the evidence that the
-- output of git shows as changed in a sidecar.
use agentmarshal.Common.{
  is_empty, Result, ok, err, Check, ◌>>=◌, Text, text, text_eq, contains, starts_with,
  if◌then◌else◌, Bool, true, false, not, ◌&&◌, ◌||◌, Option, none, some, List, [], ◌∷◌, ◌++◌,
}
use agentmarshal.Records.Patterns.{drop_prefix, take_text, drop_text}
use agentmarshal.Records.Files.{validate_task_id}
use agentmarshal.Gate.Texts.{
  sorted, select, distinct, split, tokens_of, has_infix, after_last, drop_suffix, or_text,
  ends_with,
}
use agentmarshal.Records.Builders.Create.{entry}
pub mod Facts

abbrev pub journal_prefix : Text
journal_prefix = text ".agentmarshal/journal/"

abbrev pub tasks_prefix : Text
tasks_prefix = text ".agentmarshal/journal/tasks/"

abbrev pub extensions_prefix : Text
extensions_prefix = text ".agentmarshal/extensions/"

unfoldable pub is_record_path : Text → Bool
unfolding starts_with has_infix text
is_record_path path = starts_with path journal_prefix && has_infix (text "/records/") path

-- `path.rsplit("/", maxsplit=1)[-1].removesuffix(".json").rsplit("-", maxsplit=1)[-1]`
unfoldable pub record_type_from_record_path : Text → Text
unfolding after_last drop_suffix or_text text
record_type_from_record_path path =
    let file = after_last b'/' path in
    after_last b'-' (or_text (drop_suffix (text ".json") file) file)

abbrev pub is_pass : Check → Bool
is_pass (ok u) = true
is_pass (err e) = false

unfoldable pub is_task_id : Text → Bool
unfolding validate_task_id
is_task_id task = is_pass (validate_task_id task)

unfoldable pub task_of_parts : List Text → Option Text
unfolding is_task_id text_eq text is_empty
task_of_parts (task ∷ records ∷ file ∷ []) =
    if text_eq records (text "records") && (not (is_empty file) && is_task_id task)
    then some task
    else none
task_of_parts _ = none

unfoldable pub task_below : Option Text → Option Text
unfolding task_of_parts split
task_below none = none
task_below (some s) = task_of_parts (split b'/' s)

unfoldable pub record_path_task : Text → Option Text
unfolding task_below drop_prefix text
record_path_task path = task_below (drop_prefix tasks_prefix path)

unfoldable pub is_append_only_evidence_path : Text → Bool
unfolding is_record_path starts_with has_infix text
is_append_only_evidence_path path =
    is_record_path path || (starts_with path tasks_prefix && has_infix (text "/artifacts/") path)

unfoldable pub plain_name : Option Text → Option Text
unfolding is_empty contains
plain_name none = none
plain_name (some s) = if not (is_empty s) && not (contains b'/' s) then some s else none

unfoldable pub manifest_name : Option Text → Option Text
unfolding drop_suffix ends_with contains text plain_name
manifest_name none = none
manifest_name (some relative) =
    if ends_with relative (text "/manifest.toml")
    then plain_name (drop_suffix (text "/manifest.toml") relative)
    else if not (contains b'/' relative)
    then plain_name (drop_suffix (text ".toml") relative)
    else none

unfoldable pub extension_name : Text → Option Text
unfolding manifest_name drop_prefix text
extension_name path = manifest_name (drop_prefix extensions_prefix path)

-- What one entry of `git status --porcelain=v1 -z` shows as changed: neither untracked nor added.
unfoldable pub entry_tampered : Text → List Text → List Text
unfolding take_text text_eq contains select is_append_only_evidence_path text
entry_tampered entry paths =
    let status = take_text 2 entry in
    if not (text_eq status (text "??")) && not (contains b'A' status)
    then select is_append_only_evidence_path paths
    else []

unfoldable pub is_move : Text → Bool
unfolding take_text contains
is_move entry = contains b'R' (take_text 2 entry) || contains b'C' (take_text 2 entry)

-- The loop over the entries: a rename or a copy is followed by the path it is from.
unfoldable pub status_tampered : List Text → List Text
unfolding entry_tampered is_move drop_text is_empty
status_tampered [] = []
status_tampered (entry ∷ []) =
    if is_empty entry then [] else entry_tampered entry (drop_text 3 entry ∷ [])
status_tampered (entry ∷ next ∷ tokens) =
    let one = status_tampered (next ∷ tokens) in
    let two = status_tampered tokens in
    let path = drop_text 3 entry in
    if is_empty entry
    then one
    else if is_move entry
    then entry_tampered entry (path ∷ (if is_empty next then [] else next ∷ [])) ++ two
    else entry_tampered entry (path ∷ []) ++ one

-- The outputs of `git rev-list -n 1 --all`, of `git log` with `--diff-filter=MDRT` and of
-- `git status`, or the error of running it.
pub record SidecarGit : Type 0 where
  pub revisions : Result Text
  pub log : Result Text
  pub status : Result Text

module _ (is_blank : Text → Bool) (git : SidecarGit) where
  unfoldable pub sidecar_history_tampering : Result (List Text)
  unfolding select is_append_only_evidence_path tokens_of sorted distinct
  sidecar_history_tampering = git.revisions >>= λ revisions.
      if is_blank revisions
      then ok []
      else (git.log >>= λ output.
          ok (sorted (distinct (select is_append_only_evidence_path (tokens_of output)))))

  unfoldable pub sidecar_tampered_records : Result (List Text)
  unfolding status_tampered split sorted distinct sidecar_history_tampering
  sidecar_tampered_records = git.status >>= λ output. sidecar_history_tampering >>= λ history.
      ok (sorted (distinct (status_tampered (split 0 output) ++ history)))
