-- ===== src/Records/Rules/Envelope.antt =====
-- src/agentmarshal/journal/records.py: the version check and the rules on the envelope every
-- record carries.
use agentmarshal.Common.{
  any, What, plain, labelled, keyed, refused, Result, ok, err, Check, pass, ◌>>=◌, ◌>>◌, guard,
  each, Text, text, ltb, ◌==◌, if◌then◌else◌, ℕ, zero, String, Bool, true, false, not, ◌&&◌, Option,
  none, some, List, [], ◌∷◌, ◌++◌,
}
use agentmarshal.Json.{ℤ, pos, Json, int, str, Fields, ◌!◌, has, text_of}
use agentmarshal.Runtime.{DateTime, Runtime}
use agentmarshal.Registry.{RecordType, session, is_registered_record_type}
use agentmarshal.Records.Schema.{
  supported_schemas, allowed_fields, record_type_of, is_type, schema_of,
}
use agentmarshal.Records.Forgeable.{is_non_empty, reject_in, refuse_outside, when}

-- `type(schema) is not int or schema not in _SUPPORTED_SCHEMAS`; the set's members are positive.
unfoldable pub is_supported : Option Json → Bool
unfolding any
is_supported (some (int (pos n))) = any (λ k. k == n) supported_schemas
is_supported _ = false

unfoldable pub check_schema_version : Fields → Check
unfolding is_supported ◌!◌
check_schema_version r =
    guard (is_supported (r ! "schema"))
      (refused (plain "record") "has an unknown or missing schema version")

-- `isinstance(record_type, str) and record_type in _RECORD_FIELDS`
unfoldable pub is_known_type : Option Json → Bool
is_known_type (some (str s)) = is_registered_record_type s
is_known_type _ = false

unfoldable pub check_record_type : Fields → Check
check_record_type r =
    guard (is_known_type (r ! "record_type"))
      (refused (plain "record") "has an unknown or missing record type")

unfoldable pub check_record_type_predicate : Fields → Check
unfolding is_registered_record_type ◌!◌ text_of
check_record_type_predicate r =
    let record_type = text_of (r ! "record_type") in
    guard (is_registered_record_type record_type)
      (refused (keyed "record type" record_type) "has no registered predicateType")

unfoldable pub check_reviewed_contract : Fields → Check
unfolding has schema_of
check_reviewed_contract r =
    guard (not (has r "reviewed_contract" && ltb (schema_of r) 5))
      (refused (labelled "record field" "reviewed_contract") "requires schema 5")

abbrev allowed_at : Option RecordType → ℕ → List String
allowed_at none schema = []
allowed_at (some t) schema = allowed_fields t schema

unfoldable pub allowed_of : Fields → List String
unfolding record_type_of schema_of
allowed_of r = allowed_at (record_type_of r) (schema_of r)

unfoldable pub check_fields : Fields → Check
check_fields r = refuse_outside (allowed_of r) r (plain "record has unsupported fields:")

unfoldable pub check_required_strings : Fields → Check
unfolding each is_non_empty ◌!◌
check_required_strings r =
    each
      (λ k.
        guard (is_non_empty (r ! k))
          (refused (labelled "record field" k) "must be a non-empty string"))
      ("record_type" ∷ "task" ∷ "created_at" ∷ [])

-- `value.replace("Z", "+00:00")`
unfoldable pub replace_z : Text → Text
unfolding text
replace_z [] = []
replace_z (c ∷ s) = let rest = replace_z s in if c == b'Z' then text "+00:00" ++ rest else c ∷ rest

-- `tzinfo is None or utcoffset() != timedelta(0)`
unfoldable pub is_utc : Option ℤ → Bool
is_utc (some (pos zero)) = true
is_utc _ = false

utc_or_refuse : What → Option DateTime → Result DateTime
unfolding is_utc
utc_or_refuse what none = err (refused what "must be an ISO-8601 timestamp")
utc_or_refuse what (some parsed) =
    guard (is_utc parsed.offset) (refused what "must be a UTC timestamp") >> ok parsed

unfoldable pub utc_timestamp : Runtime → Text → What → Result DateTime
unfolding utc_or_refuse replace_z
utc_timestamp rt value what = utc_or_refuse what (rt.from_iso_format (replace_z value))

unfoldable pub check_timestamp_text : Runtime → Fields → Check
unfolding each reject_in is_type ◌!◌
check_timestamp_text rt r =
    reject_in rt (r ! "created_at") (labelled "record field" "created_at")
    >> when (is_type session r) (
        each (λ k. reject_in rt (r ! k) (labelled "session record field" k))
          ("started_at" ∷ "ended_at" ∷ "resets_at" ∷ []))

unfoldable pub check_created_at : Runtime → Fields → Check
unfolding utc_timestamp ◌!◌ text_of
check_created_at rt r =
    utc_timestamp rt (text_of (r ! "created_at")) (labelled "record field" "created_at")
    >>= λ parsed. pass

unfoldable pub check_tool_version : Fields → Check
unfolding is_non_empty ◌!◌
check_tool_version r =
    guard (is_non_empty (r ! "tool_version"))
      (refused (labelled "record field" "tool_version") "must be a non-empty string")
