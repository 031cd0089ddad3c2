-- ===== src/Complete.antt =====
-- src/agentmarshal/journal/complete.py: the flag values that answer a review's advisory findings.
use agentmarshal.Common.{
  length, lifecycle_refused, Result, ok, err, guard, ◌>>◌, ◌>>=◌, Text, contains_text, starts_with,
  ltb, if◌then◌else◌, ◌+◌, Bool, true, not, ◌&&◌, Option, none, some, List, [], ◌∷◌, ◌++◌,
}
use agentmarshal.Records.Patterns.{drop_text}
pub mod Flags
pub mod Finish

pub record FlagArgument : Type 0 where
  pub flag : Text
  pub finding_id : Text
  pub value : Text

-- `finding_id + "="`
abbrev pub marked : Text → Text
marked finding_id = finding_id ++ (b'=' ∷ [])

abbrev pub is_longer : Text → Option Text → Bool
is_longer finding_id none = true
is_longer finding_id (some match) = ltb (length match) (length finding_id)

-- The loop over the advisory ids, with the longest match so far.
unfoldable pub longest_from : Text → Option Text → List Text → Option Text
unfolding starts_with
longest_from argument match [] = match
longest_from argument match (finding_id ∷ ids) =
    let replaced = longest_from argument (some finding_id) ids in
    let kept = longest_from argument match ids in
    if starts_with argument (marked finding_id) && is_longer finding_id match
    then replaced
    else kept

unfoldable pub longest_advisory_id_prefix : Text → List Text → Option Text
unfolding longest_from
longest_advisory_id_prefix argument advisory_ids = longest_from argument none advisory_ids

unfoldable pub named_finding : Option Text → Result Text
named_finding none = err (lifecycle_refused "names no advisory finding of the review")
named_finding (some finding_id) = ok finding_id

-- The loop over the arguments, with the ids that have been named so far.
unfoldable pub split_from : Text → List Text → List Text → List Text → Result (List FlagArgument)
unfolding named_finding longest_advisory_id_prefix contains_text drop_text
split_from flag advisory_ids seen [] = ok []
split_from flag advisory_ids seen (argument ∷ arguments) = do
  finding_id ← named_finding (longest_advisory_id_prefix argument advisory_ids)
  guard (not (contains_text finding_id seen)) (lifecycle_refused "given twice")
  parsed ← split_from flag advisory_ids (finding_id ∷ seen) arguments
  ok (
      record {
        flag = flag;
        finding_id = finding_id;
        value = drop_text (length finding_id + 1) argument;
      }
      ∷ parsed)

unfoldable pub split_flag_arguments : Text → List Text → List Text → Result (List FlagArgument)
unfolding split_from
split_flag_arguments flag arguments advisory_ids = split_from flag advisory_ids [] arguments
