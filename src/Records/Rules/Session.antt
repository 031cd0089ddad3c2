-- ===== src/Records/Rules/Session.antt =====
-- src/agentmarshal/journal/records.py: the rules on session records.
use agentmarshal.Common.{
  plain, labelled, refused, Result, ok, err, Check, ◌>>=◌, ◌>>◌, guard, each, ltb, if◌then◌else◌,
  String, Bool, true, false, not, ◌&&◌, ◌||◌, Option, none, some, List, [], ◌∷◌,
}
use agentmarshal.Json.{pos, Json, bool, int, str, Fields, ◌!◌, has, fields_of, is_dict}
use agentmarshal.Runtime.{DateTime, Runtime}
use agentmarshal.Registry.{session}
use agentmarshal.Records.Schema.{is_type, schema_of}
use agentmarshal.Records.Forgeable.{
  is_non_empty, is_non_blank, is_one_of, is_match, refuse_outside, has_all, has_exactly, when,
}
use agentmarshal.Records.Patterns.{commit_matches, amount_matches, currency_matches}
use agentmarshal.Records.Rules.Envelope.{utc_timestamp}

abbrev pub session_activities : List String
session_activities = "coordination" ∷ "implementation" ∷ "other" ∷ "review" ∷ []

unfoldable pub check_session_fields : Fields → Check
unfolding is_type each is_non_empty is_one_of ◌!◌
check_session_fields r = when (is_type session r) (
    each
      (λ k.
        guard (is_non_empty (r ! k))
          (refused (labelled "session record field" k) "must be a non-empty string"))
      ("role" ∷ "actor" ∷ "outcome" ∷ [])
    >> guard (is_one_of session_activities (r ! "activity")) (
        refused (labelled "session record field" "activity")
          "must be one of coordination, implementation, other, review"))

unfoldable pub is_coordination : Fields → Bool
unfolding is_one_of ◌!◌
is_coordination r = is_one_of ("coordination" ∷ []) (r ! "activity")

unfoldable pub check_coordination : Fields → Check
unfolding is_type is_coordination schema_of
check_coordination r =
    guard (not (is_type session r && is_coordination r && ltb (schema_of r) 6))
      (refused (plain "session activity 'coordination'") "requires schema 6")

-- `type(value) is int and value >= 0`
unfoldable pub is_count : Option Json → Bool
is_count (some (int (pos n))) = true
is_count _ = false

abbrev token_fields : List String
token_fields = "input" ∷ "output" ∷ "cache" ∷ []

unfoldable pub check_session_tokens : Fields → Check
unfolding is_type is_dict fields_of has_exactly each is_count ◌!◌
check_session_tokens r =
    let tokens = fields_of (r ! "tokens") in
    when (is_type session r) (
      guard (is_dict (r ! "tokens") && has_exactly tokens token_fields) (
        refused (labelled "session record field" "tokens")
          "must contain only input, output, and cache")
      >> each
          (λ k. guard (is_count (tokens ! k)) (
            refused (labelled "session record token" k)
              "must be an integer greater than or equal to zero"))
          token_fields)

abbrev usage_fields : List String
usage_fields = "provider" ∷ "method" ∷ []

unfoldable pub validate_session_usage : Option Json → Check
unfolding is_dict fields_of refuse_outside has_all is_non_empty is_one_of ◌!◌
validate_session_usage value =
    let usage = fields_of value in
    do
      guard (is_dict value) (refused (labelled "session record field" "usage") "must be an object")
      refuse_outside usage_fields usage
          (plain "session record field 'usage' has unsupported fields:")
      guard (has_all usage usage_fields)
          (refused (labelled "session record field" "usage") "must contain provider and method")
      guard (is_non_empty (usage ! "provider"))
          (refused (labelled "session record usage field" "provider") "must be a non-empty string")
      guard (is_one_of ("measured" ∷ "reported" ∷ []) (usage ! "method")) (
          refused (labelled "session record usage field" "method")
            "must be one of measured or reported")

unfoldable pub check_session_usage : Fields → Check
unfolding is_type has validate_session_usage ◌!◌
check_session_usage r =
    when (is_type session r && has r "usage") (validate_session_usage (r ! "usage"))

abbrev cost_keys : List String
cost_keys = "amount" ∷ "currency" ∷ "source" ∷ []

unfoldable pub validate_session_cost : Option Json → Check
unfolding is_dict fields_of refuse_outside has_all is_match amount_matches currency_matches
    is_one_of ◌!◌
validate_session_cost value =
    let cost = fields_of value in
    do
      guard (is_dict value) (refused (labelled "session record field" "cost") "must be an object")
      refuse_outside cost_keys cost (plain "session record field 'cost' has unsupported fields:")
      guard (has_all cost cost_keys) (
          refused (labelled "session record field" "cost")
            "must contain amount, currency and source")
      guard (is_match amount_matches (cost ! "amount")) (
          refused (labelled "session record 'cost' field" "amount")
            "must be a non-negative decimal written as a string of digits with an optional fractional part")
      guard (is_match currency_matches (cost ! "currency")) (
          refused (labelled "session record 'cost' field" "currency")
            "must be exactly three uppercase ASCII letters")
      guard (is_one_of ("reported" ∷ "estimated" ∷ []) (cost ! "source")) (
          refused (labelled "session record 'cost' field" "source")
            "must be one of estimated, reported")

-- One turn of the loop over the three timestamps; `none` is a field that is not there.
unfoldable pub optional_timestamp : Runtime → String → Option Json → Result (Option DateTime)
unfolding utc_timestamp
optional_timestamp rt k none = ok none
optional_timestamp rt k (some (str value)) =
    utc_timestamp rt value (labelled "session record field" k) >>= λ parsed. ok (some parsed)
optional_timestamp rt k (some _) =
    err (refused (labelled "session record field" k) "must be an ISO-8601 timestamp")

-- `timestamps["ended_at"] < timestamps["started_at"]` does not hold
unfoldable pub in_order : Option DateTime → Option DateTime → Bool
in_order (some started) (some ended) = not (ltb ended.instant started.instant)
in_order none ended = true
in_order (some started) none = true

-- `type(value) is bool`
unfoldable pub is_bool : Option Json → Bool
is_bool (some (bool b)) = true
is_bool _ = false

unfoldable pub session_times : Runtime → Fields → Check
unfolding optional_timestamp has in_order is_one_of ◌!◌
session_times rt r = do
  started ← optional_timestamp rt "started_at" (r ! "started_at")
  ended ← optional_timestamp rt "ended_at" (r ! "ended_at")
  resets ← optional_timestamp rt "resets_at" (r ! "resets_at")
  guard (if has r "started_at" then has r "ended_at" else not (has r "ended_at")) (
      refused (plain "session record fields 'started_at' and 'ended_at'")
        "must appear together or not at all")
  guard (in_order started ended)
      (refused (labelled "session record field" "ended_at") "must not be earlier than 'started_at'")
  guard (not (has r "resets_at") || is_one_of ("provider-limit" ∷ []) (r ! "outcome")) (
      refused (labelled "session record field" "resets_at")
        "is admitted on a 'provider-limit' outcome alone")

unfoldable pub check_session_fields_7 : Runtime → Fields → Check
unfolding is_type has is_match commit_matches each is_non_blank is_bool session_times
    validate_session_cost ◌!◌
check_session_fields_7 rt r = when (is_type session r) (do
  when (has r "commit") (
      guard (is_match commit_matches (r ! "commit")) (
        refused (labelled "session record field" "commit")
          "must be exactly 40 lowercase hex characters"))
  each
      (λ k. when (has r k) (
        guard (is_non_blank rt (r ! k))
          (refused (labelled "session record field" k) "must be a non-empty string")))
      ("model" ∷ "trace" ∷ "cli_session" ∷ "fallback_reason" ∷ [])
  when (has r "report_ready") (
      guard (is_bool (r ! "report_ready"))
        (refused (labelled "session record field" "report_ready") "must be a boolean"))
  session_times rt r
  when (has r "cost") (validate_session_cost (r ! "cost")))
