-- ===== src/Gate/Findings/Released.antt =====
-- src/agentmarshal/journal/gate.py: the tasks that the findings lane lets through.
use agentmarshal.Common.{
  all, any, is_empty, Text, text_eq, ltb, ℕ, ◌⊎◌, inl, inr, Bool, true, false, ◌&&◌, ◌||◌, Option,
  none, some, List,
}
use agentmarshal.Runtime.{Runtime}
use agentmarshal.Registry.{review, finding, State, open_state}
use agentmarshal.Gate.Lines.{id_of, records_of, acceptances_of, binds_to, is_absent}
use agentmarshal.Json.{Json, Fields, ◌!◌, text_of, list_of, fields_of}
use agentmarshal.Records.Rules.Review.{is_approved, findings_of}
use agentmarshal.Gate.Texts.{same_set}
use agentmarshal.Gate.Identity.{Host, Task, last_of, finding_reviewer_identity_refusal}

unfoldable pub is_open : State → Bool
is_open open_state = true
is_open _ = false

unfoldable pub is_given : Option Fields → Bool
is_given none = false
is_given (some f) = true

abbrev pub covers : Option Fields → Fields → Bool
covers none r = false
covers (some a) r = same_set (findings_of a) (findings_of r)

unfoldable pub judged : List Fields → Text → Option Fields → Bool
unfolding binds_to is_approved last_of acceptances_of
judged rs id none = false
judged rs id (some r) =
    binds_to id r && (is_approved r || covers (last_of (acceptances_of id rs)) r)

unfoldable pub is_independent : Runtime → Host → Fields → Fields → Bool
unfolding finding_reviewer_identity_refusal fields_of ◌!◌
is_independent rt host f r =
    is_absent (finding_reviewer_identity_refusal rt host f (fields_of (r ! "reviewer") ! "email"))

unfoldable pub matches : Runtime → Text → Option (Text ⊎ List ℕ) → Bool
matches rt hash none = true
matches rt hash (some (inl error)) = false
matches rt hash (some (inr bytes)) = text_eq (rt.sha256 bytes) hash

unfoldable pub one_found : Option (Text ⊎ List ℕ) → ℕ
one_found none = 0
one_found (some bytes) = 1

-- An artifact that resolves holds what the finding recorded.
unfoldable pub is_intact : Runtime → Host → Json → Bool
unfolding matches fields_of text_of ◌!◌
is_intact rt host a =
    matches rt (text_of (fields_of (some a) ! "hash"))
      (host.artifact (text_of (fields_of (some a) ! "ref")))

unfoldable pub resolves : Host → Json → Bool
unfolding one_found fields_of text_of ◌!◌
resolves host a = ltb 0 (one_found (host.artifact (text_of (fields_of (some a) ! "ref"))))

-- The latest finding and the latest review of a task, and what they must be.
unfoldable pub released : Runtime → Host → List Fields → Option Fields → Option Fields → Bool
unfolding judged is_independent is_intact resolves all any list_of ◌!◌ id_of
released rt host rs none r = false
released rt host rs (some f) none = false
released rt host rs (some f) (some r) =
    let artifacts = list_of (f ! "artifacts") in
    judged rs (id_of (some f)) (some r)
    && (is_independent rt host f r
        && (all (is_intact rt host) artifacts && any (resolves host) artifacts))

-- A task that the findings lane lets through: it is open and declares no scope, its latest finding is
-- bound and approved, or accepted over the same findings, by an independent reviewer, the artifacts
-- that resolve are intact and one does, and no evidence has changed.
unfoldable pub releasable : Runtime → Host → Task → List Text → Bool
unfolding is_open released last_of records_of is_empty
releasable rt host task tampered =
    is_open task.state
    && (is_empty task.contract.scope
        && (released rt host task.records (last_of (records_of finding task.records))
              (last_of (records_of review task.records))
            && is_empty tampered))
