-- ===== src/Records/Rules/Bounds.antt =====
-- src/agentmarshal/journal/records.py: the shared validators, which read their tables of fields.
use agentmarshal.Common.{
  length, labelled, refused, unicode_encode_error, err, Check, ◌>>◌, guard, each, Text, ltb, leb,
  if◌then◌else◌, ℕ, ◌+◌, String, ◌&&◌, Option, none, some, List, [], ◌∷◌,
}
use agentmarshal.Json.{Json, str, Fields, ◌!◌, has, is_str}
use agentmarshal.Runtime.{Runtime}
use agentmarshal.Registry.{
  RecordType, opened, review, amendment, session, check, agreement, acknowledgement, ext,
}
use agentmarshal.Records.Schema.{is_type}
use agentmarshal.Records.Forgeable.{reject_in, when}
use agentmarshal.Records.Rules.Evidence.{canonical_json}

-- An entry of `_TEXT_CHAR_LIMITS`, `_TEXT_BYTE_LIMITS`, `_JSON_BYTE_LIMITS`; every entry of the
-- source's tables names a record type.
pub record Limit : Type 0 where
  pub only : RecordType
  pub name : String
  pub limit : ℕ

abbrev limit_of : RecordType → String → ℕ → Limit
limit_of t k n = record { only = t; name = k; limit = n }

abbrev pub text_char_limits : List Limit
text_char_limits = limit_of acknowledgement "reason" 1000 ∷ []

abbrev pub text_byte_limits : List Limit
text_byte_limits = limit_of check "excerpt" 4096 ∷ []

abbrev pub json_byte_limits : List Limit
json_byte_limits = limit_of ext "payload" 65536 ∷ []

-- `len(value.encode("utf-8"))`; a lone surrogate has no encoding.
unfoldable pub utf8_width : ℕ → Option ℕ
utf8_width c =
    if ltb c 0x80
    then some 1
    else if ltb c 0x800
    then some 2
    else if leb 0xd800 c && leb c 0xdfff
    then none
    else if ltb c 0x10000
    then some 3
    else some 4

abbrev add_width : Option ℕ → Option ℕ → Option ℕ
add_width none n = none
add_width (some m) none = none
add_width (some m) (some n) = some (m + n)

unfoldable pub utf8_length : Text → Option ℕ
unfolding utf8_width
utf8_length [] = some 0
utf8_length (c ∷ s) = add_width (utf8_width c) (utf8_length s)

-- `measure(value) > limit`, where the measure may raise
within_limit : Limit → String → Option ℕ → Check
within_limit l unit none = err unicode_encode_error
within_limit l unit (some n) = guard (leb n l.limit) (refused (labelled "record field" l.name) unit)

measured : (Text → Option ℕ) → Limit → String → Option Json → Check
unfolding within_limit
measured measure l unit (some (str s)) = within_limit l unit (measure s)
measured measure l unit _ = err (refused (labelled "record field" l.name) unit)

unfoldable pub check_text_limits : List Limit → (Text → Option ℕ) → String → Fields → Check
unfolding each is_type has measured ◌!◌
check_text_limits limits measure unit r =
    each (λ l. when (is_type l.only r && has r l.name) (measured measure l unit (r ! l.name)))
      limits

unfoldable pub check_bounded_text : Fields → Check
unfolding check_text_limits
check_bounded_text r =
    check_text_limits text_char_limits (λ s. some (length s))
      "must be a string of at most the limit's characters" r

unfoldable pub check_bounded_text_bytes : Fields → Check
unfolding check_text_limits utf8_length
check_bounded_text_bytes r =
    check_text_limits text_byte_limits utf8_length
      "must be a string of at most the limit's UTF-8 bytes" r

json_within : Limit → Option (List ℕ) → Check
json_within l none = err (refused (labelled "record field" l.name) "must be a JSON value")
json_within l (some encoded) =
    guard (leb (length encoded) l.limit)
      (refused (labelled "record field" l.name) "must encode to at most the limit's bytes")

unfoldable pub check_bounded_json : Runtime → Fields → Check
unfolding each is_type has json_within canonical_json ◌!◌
check_bounded_json rt r =
    each
      (λ l.
        when (is_type l.only r && has r l.name) (json_within l (canonical_json rt (r ! l.name))))
      json_byte_limits

abbrev pub forgeable_text_fields : List (RecordType × String)
forgeable_text_fields =
    (session, "commit")
    ∷ (session, "model")
    ∷ (session, "trace")
    ∷ (session, "cli_session")
    ∷ (session, "fallback_reason")
    ∷ (opened, "contract")
    ∷ (amendment, "contract")
    ∷ (agreement, "contract")
    ∷ (check, "name")
    ∷ (check, "failed_step")
    ∷ (check, "excerpt")
    ∷ (check, "run_url")
    ∷ (acknowledgement, "file")
    ∷ (acknowledgement, "reason")
    ∷ (review, "previous_review")
    ∷ (ext, "kind")
    ∷ (ext, "commit")
    ∷ (ext, "payload_sha256")
    ∷ []

unfoldable pub check_forgeable_text : Runtime → Fields → Check
unfolding each is_type has is_str reject_in ◌!◌
check_forgeable_text rt r =
    each
      (λ p. when (is_type p.0 r && has r p.1) (
        guard (is_str (r ! p.1)) (refused (labelled "record field" p.1) "must be a string")
        >> reject_in rt (r ! p.1) (labelled "record field" p.1)))
      forgeable_text_fields
