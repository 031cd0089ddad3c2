-- ===== src/Records/Builders/Late.antt =====
-- src/agentmarshal/journal/records.py: the field families that schema 7 introduces, among all of its
-- fields.
use agentmarshal.Common.{any-append, String, ◌≡◌, true, List, ◌++◌, arith}
use agentmarshal.Json.{Fields, has}
use agentmarshal.Records.Schema.{
  schema_7_session_fields, schema_7_contract_fields, schema_7_acceptance_fields,
  schema_7_review_fields, schema_7_completed_fields, has_any,
}
use agentmarshal.Records.Builders.Admitted.{late_fields}

-- Each family of schema 7 is a part of the late fields.
module _ (r : Fields) where
  left_part : (xs ys : List String) → has_any r xs ≡ true → has_any r (xs ++ ys) ≡ true
  unfolding has_any
  left_part xs ys h = rw (any-append (λ k. has r k) xs ys, h)

  right_part : (xs ys : List String) → has_any r ys ≡ true → has_any r (xs ++ ys) ≡ true
  unfolding has_any
  right_part xs ys h = rw any-append (ground arith)

  pub late_session : has_any r schema_7_session_fields ≡ true → has_any r late_fields ≡ true
  late_session h = left_part schema_7_session_fields _ h

  pub late_contract : has_any r schema_7_contract_fields ≡ true → has_any r late_fields ≡ true
  late_contract h = right_part schema_7_session_fields _ (left_part schema_7_contract_fields _ h)

  pub late_acceptance : has_any r schema_7_acceptance_fields ≡ true → has_any r late_fields ≡ true
  late_acceptance h =
      right_part schema_7_session_fields _
        (right_part schema_7_contract_fields _ (left_part schema_7_acceptance_fields _ h))

  pub late_review : has_any r schema_7_review_fields ≡ true → has_any r late_fields ≡ true
  late_review h = right_part schema_7_session_fields _ (
      right_part schema_7_contract_fields _
        (right_part schema_7_acceptance_fields _ (left_part schema_7_review_fields _ h)))

  pub late_completed : has_any r schema_7_completed_fields ≡ true → has_any r late_fields ≡ true
  late_completed h = right_part schema_7_session_fields _ (
      right_part schema_7_contract_fields _
        (right_part schema_7_acceptance_fields _ (right_part schema_7_review_fields _ h)))
