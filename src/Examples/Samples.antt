-- ===== src/Examples/Samples.antt =====
-- src/agentmarshal/journal/records.py: sample records, files and a runtime.
use agentmarshal.Common.{
  length, Result, ok, Text, text, text_eq, ltb, ◌==◌, if◌then◌else◌, ℕ, String, ◌≡◌, true, some,
  List, [], ◌∷◌,
}
use agentmarshal.Json.{pos, Json, bool, int, str, arr, obj, nil, cons, Fields, end, field}
use agentmarshal.Runtime.{Category, control, Runtime}
use agentmarshal.Records.Rules.Placement.{RuleContext}
use agentmarshal.Records.Validate.{validate_record}
use agentmarshal.Records.Files.{RecordFile}
use agentmarshal.Records.Builders.Create.{Origin}

infix 30 ◌⇒◌
infixr 20 ◌⨾◌
abbrev pub ◌⇒◌ : String → Json → Text × Json
k ⇒ v = (text k, v)

abbrev pub ◌⨾◌ : Text × Json → Fields → Fields
p ⨾ r = field p.0 p.1 r

abbrev pub word : String → Json
word s = str (text s)

abbrev pub sample_commit : Json
sample_commit = word "0123456789abcdef0123456789abcdef01234567"

abbrev pub sample_reviewer : Json
sample_reviewer = obj (
    "role" ⇒ word "reviewer"
    ⨾ "vendor" ⇒ word "v"
    ⨾ "model" ⇒ word "m"
    ⨾ "email" ⇒ word "a@b"
    ⨾ end)

-- A review that asks for changes, with one blocking and one advisory finding.
abbrev pub sample_review : Fields
sample_review =
    "schema" ⇒ int (pos 3)
    ⨾ "record_type" ⇒ word "review"
    ⨾ "task" ⇒ word "CR-1"
    ⨾ "created_at" ⇒ word "2026-01-01T00:00:00Z"
    ⨾ "tool_version" ⇒ word "0.5.0"
    ⨾ "reviewed_commit" ⇒ sample_commit
    ⨾ "verdict" ⇒ word "changes_required"
    ⨾ "reviewer" ⇒ sample_reviewer
    ⨾ "findings" ⇒ arr (cons (word "F1") nil)
    ⨾ "advisory_findings" ⇒ arr (cons (word "F2") nil)
    ⨾ "source" ⇒ word "live"
    ⨾ end

-- An acceptance of the operational form.
abbrev pub sample_acceptance : Fields
sample_acceptance =
    "schema" ⇒ int (pos 7)
    ⨾ "record_type" ⇒ word "acceptance"
    ⨾ "task" ⇒ word "CR-1"
    ⨾ "created_at" ⇒ word "2026-01-01T00:00:00Z"
    ⨾ "tool_version" ⇒ word "0.5.0"
    ⨾ "accepted_commit" ⇒ sample_commit
    ⨾ "accepted_by" ⇒ word "owner"
    ⨾ "reason" ⇒ word "planned"
    ⨾ "operational" ⇒ bool true
    ⨾ "source" ⇒ word "live"
    ⨾ end

-- A completion bound to a finding.
abbrev pub sample_completion : Fields
sample_completion =
    "schema" ⇒ int (pos 4)
    ⨾ "record_type" ⇒ word "completed"
    ⨾ "task" ⇒ word "CR-1"
    ⨾ "created_at" ⇒ word "2026-01-01T00:00:00Z"
    ⨾ "tool_version" ⇒ word "0.5.0"
    ⨾ "completed_finding" ⇒ word "01ARZ3NDEKTSV4RRFFQ69G5FAV"
    ⨾ "source" ⇒ word "live"
    ⨾ end

-- The finding it is bound to.
abbrev pub sample_finding : Fields
sample_finding =
    "schema" ⇒ int (pos 4)
    ⨾ "record_type" ⇒ word "finding"
    ⨾ "task" ⇒ word "CR-1"
    ⨾ "created_at" ⇒ word "2026-01-01T00:00:00Z"
    ⨾ "tool_version" ⇒ word "0.5.0"
    ⨾ "summary" ⇒ word "done"
    ⨾ "artifacts"
      ⇒ arr (
          cons
            (obj (
              "ref" ⇒ word "a"
              ⨾ "hash" ⇒ word "0123456789abcdef0123456789abcdef0123456789abcdef0123456789abcdef"
              ⨾ end))
            nil)
    ⨾ "source" ⇒ word "live"
    ⨾ "recorded_by" ⇒ word "me"
    ⨾ "recorded_by_source" ⇒ word "override"
    ⨾ end

abbrev pub review_file : RecordFile
review_file = record {
  file_name = text "01ARZ3NDEKTSV4RRFFQ69G5FAW-review.json";
  content = text "review";
}

abbrev pub finding_file : RecordFile
finding_file = record {
  file_name = text "01ARZ3NDEKTSV4RRFFQ69G5FAV-finding.json";
  content = text "finding";
}

-- A runtime whose control characters are those below the space, and which loads the two files.
abbrev pub simple : Runtime
simple = record {
  category = λ c. if ltb c 32 then control else Category.other;
  is_space = λ c. c == 32;
  from_iso_format = λ s. some (record { offset = some (pos 0); instant = length s });
  canonical_dumps = λ v. some [];
  json_loads = λ s.
      if text_eq s (text "finding") then some (obj sample_finding) else some (obj sample_review);
  sha256 = λ s. s;
}

abbrev pub sample_findings : Result (List Text)
sample_findings = ok (text "01ARZ3NDEKTSV4RRFFQ69G5FAV" ∷ [])

abbrev pub Accepts : RuleContext → Fields → Type 0
Accepts context r = validate_record simple true context r ≡ ok r

-- A check whose excerpt is one lone surrogate.
abbrev pub surrogate_check : Fields
surrogate_check = "record_type" ⇒ word "check" ⨾ "excerpt" ⇒ str (0xd800 ∷ []) ⨾ end

abbrev pub ok_text : Text
ok_text = b'o' ∷ b'k' ∷ []

-- A check whose excerpt is `ok`.
abbrev pub plain_check : Fields
plain_check = "record_type" ⇒ word "check" ⨾ "excerpt" ⇒ str (b'o' ∷ b'k' ∷ []) ⨾ end

abbrev pub finding_id : Text
finding_id = text "01ARZ3NDEKTSV4RRFFQ69G5FAV"

abbrev pub sample_origin : Origin
sample_origin = record {
  task = text "CR-1";
  tool_version = text "0.5.0";
  created_at = text "2026-01-01T00:00:00Z";
  source = text "live";
}

-- What the builders give for a completion bound to the finding, and for an abandonment.
abbrev pub built_completion : Fields
built_completion =
    "record_type" ⇒ word "completed"
    ⨾ "task" ⇒ word "CR-1"
    ⨾ "created_at" ⇒ word "2026-01-01T00:00:00Z"
    ⨾ "tool_version" ⇒ word "0.5.0"
    ⨾ "source" ⇒ word "live"
    ⨾ "completed_finding" ⇒ word "01ARZ3NDEKTSV4RRFFQ69G5FAV"
    ⨾ "schema" ⇒ int (pos 4)
    ⨾ end

abbrev pub built_abandonment : ℕ → Fields
built_abandonment n =
    "record_type" ⇒ word "abandoned"
    ⨾ "task" ⇒ word "CR-1"
    ⨾ "created_at" ⇒ word "2026-01-01T00:00:00Z"
    ⨾ "tool_version" ⇒ word "0.5.0"
    ⨾ "reason" ⇒ word "done"
    ⨾ "source" ⇒ word "live"
    ⨾ "schema" ⇒ int (pos n)
    ⨾ end
