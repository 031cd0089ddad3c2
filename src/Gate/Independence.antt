-- ===== src/Gate/Independence.antt =====
-- src/agentmarshal/journal/gate.py: `_session_independence_value` and `_judge_independence_rule`, with
-- the tables of the fields that a rule compares.
use agentmarshal.Common.{
  is_empty, Text, text, text_eq, contains_text, if◌then◌else◌, String, Bool, true, false, not,
  Option, none, some, List, [], ◌∷◌, ◌++◌,
}
use agentmarshal.Json.{Json, str, Fields, ◌!◌, fields_of}
use agentmarshal.Runtime.{Runtime}
use agentmarshal.Contracts.Header.{strip}
use agentmarshal.Gate.Identity.{Host, normalized}
use agentmarshal.Records.Validate.{rule}
pub mod Ranked
pub mod Verdict

-- The rules that are judged against sessions.
pub data IndependenceRule : Type 0 where
  distinct_vendor distinct_model distinct_actor : IndependenceRule

unfoldable pub reviewer_field : IndependenceRule → String
reviewer_field distinct_vendor = "vendor"
reviewer_field distinct_model = "model"
reviewer_field distinct_actor = "actor"

unfoldable pub session_field : IndependenceRule → String
session_field distinct_vendor = "usage.provider"
session_field distinct_model = "model"
session_field distinct_actor = "actor"

unfoldable pub compared_field : IndependenceRule → Fields → Option Json
unfolding fields_of ◌!◌ session_field
compared_field distinct_vendor s = fields_of (s ! "usage") ! "provider"
compared_field rule s = s ! session_field rule

-- `value if isinstance(value, str) and value.strip() else None`
unfoldable pub given_value : Runtime → Option Json → Option Text
unfolding is_empty strip
given_value rt (some (str value)) = if is_empty (strip rt value) then none else some value
given_value rt _ = none

unfoldable pub session_independence_value : Runtime → IndependenceRule → Fields → Option Text
unfolding given_value compared_field
session_independence_value rt rule s = given_value rt (compared_field rule s)

unfoldable pub is_same_value : Runtime → Host → IndependenceRule → Text → Text → Bool
unfolding text_eq normalized
is_same_value rt host distinct_actor value of_reviewer = text_eq value of_reviewer
is_same_value rt host _ value of_reviewer =
    text_eq (normalized rt host value) (normalized rt host of_reviewer)

-- Whether the labels of this rule must be declared, and this one is not.
unfoldable pub is_undeclared : Option (List Text) → Text → Bool
unfolding contains_text
is_undeclared none value = false
is_undeclared (some declared) value = not (contains_text value declared)

-- What one turn of the loop finds: a value that cannot be compared, an equal or another one.
pub data Compared : Type 0 where
  gap : Text → Compared
  equal : Text → Compared
  distinct_value : Compared

abbrev session_label : Option Json → Text
session_label (some (str id)) = text "implementer session " ++ id
session_label _ = text "an implementer session"

unfoldable pub compare_value :
    Runtime → Host → IndependenceRule → Text → Option (List Text) → Text → Option Text → Compared
unfolding is_undeclared is_same_value session_field reviewer_field text
compare_value rt host rule of_reviewer declared label none =
    gap (label ++ (text " carries no '" ++ (text (session_field rule) ++ text "'")))
compare_value rt host rule of_reviewer declared label (some value) =
    if is_undeclared declared value
    then gap (label ++ (text "'s actor " ++ (host.repr value ++ text " is not a declared actor")))
    else if is_same_value rt host rule value of_reviewer
    then equal (
        text "declared reviewer "
        ++ (text (reviewer_field rule)
            ++ (text " "
                ++ (host.repr of_reviewer
                    ++ (text " equals "
                        ++ (label
                            ++ (text "'s declared "
                                ++ (text (reviewer_field rule)
                                    ++ (text " " ++ host.repr value)))))))))
    else distinct_value

unfoldable pub compare_session :
    Runtime → Host → IndependenceRule → Text → Option (List Text) → Fields → Compared
unfolding compare_value session_independence_value ◌!◌
compare_session rt host rule of_reviewer declared s =
    compare_value rt host rule of_reviewer declared (session_label (s ! "id"))
      (session_independence_value rt rule s)

-- The verdict, where there is one, and its message or the reason for none.
abbrev pub Verdict : Type 0
Verdict = Option Bool × Text

abbrev or_first : Option Text → Text → Option Text
or_first none message = some message
or_first (some first) message = some first

abbrev pub turn : Compared → Option Text → (Option Text → Verdict) → Verdict
turn (gap message) first_gap next = next (or_first first_gap message)
turn (equal message) first_gap next = (some false, message)
turn distinct_value first_gap next = next first_gap

abbrev pub after_loop : Host → IndependenceRule → Text → Option Text → Verdict
after_loop host rule of_reviewer (some first_gap) = (none, first_gap)
after_loop host rule of_reviewer none = (
  some true,
  text "declared reviewer "
      ++ (text (reviewer_field rule)
          ++ (text " "
              ++ (host.repr of_reviewer
                  ++ (text " differs from every in-range implementer session's declared "
                      ++ text (reviewer_field rule))))),
)

-- The loop over the sessions, with the first gap so far.
unfoldable pub judge_sessions :
    Runtime
    → Host
    → IndependenceRule
    → Text
    → Option (List Text)
    → Option Text
    → List Fields
    → Verdict
unfolding compare_session reviewer_field text
judge_sessions rt host rule of_reviewer declared first_gap [] =
    after_loop host rule of_reviewer first_gap
judge_sessions rt host rule of_reviewer declared first_gap (s ∷ sessions) =
    turn (compare_session rt host rule of_reviewer declared s) first_gap
      (λ g. judge_sessions rt host rule of_reviewer declared g sessions)

-- `distinct-actor` compares declared labels alone; the other rules need no table.
unfoldable pub judge_declared :
    Runtime → Host → IndependenceRule → Text → Option (List Text) → List Fields → Verdict
unfolding judge_sessions contains_text text
judge_declared rt host distinct_actor of_reviewer none sessions =
    (none, text "the project's actors table could not be read")
judge_declared rt host distinct_actor of_reviewer (some declared) sessions =
    if not (contains_text of_reviewer declared)
    then (
      none,
      text "the latest review's actor "
          ++ (host.repr of_reviewer ++ text " is not a declared actor"),
    )
    else judge_sessions rt host distinct_actor of_reviewer (some declared) none sessions
judge_declared rt host rule of_reviewer actors sessions =
    judge_sessions rt host rule of_reviewer none none sessions

unfoldable pub judge_reviewer :
    Runtime → Host → IndependenceRule → Option Text → Option (List Text) → List Fields → Verdict
unfolding judge_declared reviewer_field text
judge_reviewer rt host rule none actors sessions = (
  none,
  text "the latest review carries no 'reviewer." ++ (text (reviewer_field rule) ++ text "'"),
)
judge_reviewer rt host rule (some of_reviewer) actors sessions =
    judge_declared rt host rule of_reviewer actors sessions

-- With the `reviewer` of the latest review, the in-range sessions and the declared actors.
unfoldable pub judge_independence_rule :
    Runtime → Host → IndependenceRule → Option Json → List Fields → Option (List Text) → Verdict
unfolding judge_reviewer given_value fields_of ◌!◌ reviewer_field text
judge_independence_rule rt host rule reviewer [] actors =
    (none, text "no implementer session carries a commit in the candidate's range")
judge_independence_rule rt host rule reviewer (s ∷ sessions) actors =
    judge_reviewer rt host rule (given_value rt (fields_of reviewer ! reviewer_field rule)) actors
      (s ∷ sessions)
