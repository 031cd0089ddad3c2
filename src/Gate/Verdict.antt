-- ===== src/Gate/Verdict.antt =====
-- src/agentmarshal/journal/gate.py: what `run_gate` says of the latest review of the candidate's commit
-- and of the latest acceptance over its findings.
use agentmarshal.Common.{
  Text, text, text_eq, if◌then◌else◌, String, Bool, false, not, ◌&&◌, ◌||◌, Option, none, some,
  List, [], ◌∷◌, ◌++◌,
}
use agentmarshal.Json.{Fields, ◌!◌, has, text_of, is_str}
use agentmarshal.Runtime.{Runtime}
use agentmarshal.Registry.{review, acceptance}
use agentmarshal.Records.Schema.{is_type}
use agentmarshal.Records.Patterns.{take_text}
use agentmarshal.Records.Rules.Review.{is_approved, findings_of}
use agentmarshal.Contracts.Header.{ContractHeader}
use agentmarshal.Gate.Texts.{join_comma, same_set, sorted, select, distinct}
use agentmarshal.Gate.Transcript.{Transcript, say, check_line}
use agentmarshal.Gate.Identity.{Host, last_of}
use agentmarshal.Records.Validate.{rule, rules}
pub mod Latest
pub mod Standing
pub mod Resolved

-- `record.get(k) == commit`
unfoldable pub names_commit : String → Text → Fields → Bool
unfolding is_str text_eq text_of ◌!◌
names_commit k commit r = is_str (r ! k) && text_eq (text_of (r ! k)) commit

unfoldable pub latest_review_of : Text → List Fields → Option Fields
unfolding last_of select is_type names_commit
latest_review_of commit rs =
    last_of (select (λ r. is_type review r && names_commit "reviewed_commit" commit r) rs)

unfoldable pub latest_acceptance_of : Text → List Fields → Option Fields
unfolding last_of select is_type names_commit has
latest_acceptance_of commit rs = last_of (
    select
      (λ r. is_type acceptance r && (names_commit "accepted_commit" commit r && has r "findings"))
      rs)

-- `valid_acceptance is not None`, for a review that does not approve
unfoldable pub is_covered : Fields → Option Fields → Bool
unfolding same_set findings_of
is_covered r none = false
is_covered r (some a) = same_set (findings_of a) (findings_of r)

unfoldable pub resolved_review : Option Fields → Option Fields → Option Text
unfolding is_approved is_covered text_of ◌!◌
resolved_review none a = none
resolved_review (some r) a =
    if is_approved r || is_covered r a then some (text_of (r ! "id")) else none

-- `sorted(set(record["findings"]))`, joined
unfoldable pub listed : Fields → Text
unfolding join_comma sorted distinct findings_of
listed r = join_comma (sorted (distinct (findings_of r)))

module _ (rt : Runtime) (host : Host) where
  unfoldable pub say_rules : List Text → Transcript → Transcript
  unfolding say text_eq text
  say_rules [] t = t
  say_rules (rule ∷ rules) t =
      let said =
        say rt
          (text "NOT EXAMINED: independence rule "
            ++ (host.repr rule
                ++ text " (no review record to compare against the implementer sessions)"))
          t in
      if not (text_eq rule (text "reviewer-not-writer"))
      then say_rules rules said
      else say_rules rules t

  unfoldable pub say_reviewers : List Text → Transcript → Transcript
  unfolding say text
  say_reviewers [] t = t
  say_reviewers (reviewer ∷ reviewers) t =
      say rt
        (text
          "NOT EXAMINED: declared reviewers (no review record to judge the reviewer's actor against the list)")
        t

  unfoldable pub say_unexamined : Text → ContractHeader → Transcript → Transcript
  unfolding say text take_text say_rules say_reviewers
  say_unexamined commit contract t = say_reviewers contract.reviewers (
      say_rules contract.independence (
        say rt
          (text
            "NOT EXAMINED: reviewer independence (no review record to compare against the candidate's writers)")
          (say rt
            (text "NOT EXAMINED: latest review (no review record for "
              ++ (take_text 12 commit ++ text ", and this run was asked to judge without one)"))
            t)))

  -- The lines on an acceptance over findings; `mark` is that of an accepting party that is a writer.
  unfoldable pub say_acceptance : Text → Text → Fields → Fields → Transcript → Transcript
  unfolding is_covered say check_line text take_text join_comma findings_of text_of ◌!◌ listed
  say_acceptance mark commit r a t =
      if is_covered r (some a)
      then say rt
          (text "PASS: accepted over findings "
            ++ (join_comma (findings_of a)
                ++ (text " by "
                    ++ (text_of (a ! "accepted_by")
                        ++ (mark ++ text "; not an approving review")))))
          t
      else check_line rt false
          (text "acceptance of "
            ++ (take_text 12 commit
                ++ (text " does not cover the latest review's findings (outstanding: "
                    ++ (listed r ++ (text "; accepted: " ++ (listed a ++ text ")"))))))
          t

  -- With whether a review is required, the contract, the latest review and the latest acceptance.
  unfoldable pub say_verdict :
      Text → Text → Bool → ContractHeader → Option Fields → Option Fields → Transcript → Transcript
  unfolding is_approved say_acceptance say_unexamined check_line text take_text
  say_verdict mark commit required contract none a t =
      if not required
      then say_unexamined commit contract t
      else check_line rt false (text "no review record for " ++ take_text 12 commit) t
  say_verdict mark commit required contract (some r) none t =
      check_line rt (is_approved r)
        (text "latest review of " ++ (take_text 12 commit ++ text " is approved")) t
  say_verdict mark commit required contract (some r) (some a) t =
      if not (is_approved r)
      then say_acceptance mark commit r a t
      else check_line rt (is_approved r)
          (text "latest review of " ++ (take_text 12 commit ++ text " is approved")) t
