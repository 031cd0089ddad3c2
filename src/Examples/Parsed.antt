-- ===== src/Examples/Parsed.antt =====
-- src/agentmarshal/journal/contracts.py, src/agentmarshal/settings.py and the builders of
-- src/agentmarshal/journal/records.py: the theorems at small inputs.
use agentmarshal.Common.{
  any, ok, text, text_eq, starts_with, ◌≤◌, ◌≡◌, refl, sym, true, false, some, [], ◌∷◌, arith,
}
use agentmarshal.Json.{pos, int, arr, obj, nil, cons, Fields, end, put}
use agentmarshal.Records.Schema.{schema_of}
use agentmarshal.Records.Validate.{validate_record}
use agentmarshal.Records.ReadBack.{write_context}
use agentmarshal.Records.Builders.Stamped.{an_abandonment, built_stamp_is_least}
use agentmarshal.Contracts.Header.{
  Toml, ContractHeader, contract_schema, header_of, parse_contract_text,
}
use agentmarshal.Contracts.Sound.{HeaderIsSound, parse_contract_text-HeaderIsSound}
use agentmarshal.Settings.{ProjectSettings, read_project_settings}
use agentmarshal.Settings.Sound.{SettingsAreSound, read_project_settings-SettingsAreSound}
use agentmarshal.Examples.Samples.{◌⇒◌, ◌⨾◌, word, simple, sample_origin, built_abandonment}
use agentmarshal.Examples.Checked.{samples_accepted, built_facts}
use agentmarshal.Records.Forgeable.{forges_rendered_text}
use agentmarshal.Contracts.Scope.{split_slash, has_dot_part, validate_scope_entry}

-- A contract of a header alone.
abbrev sample_toml : Toml
sample_toml = record {
  split_lines = λ s. text "+++" ∷ text "x" ∷ text "+++" ∷ [];
  loads = λ s. some (
      "schema" ⇒ int (pos 3)
      ⨾ "id" ⇒ word "CR-1"
      ⨾ "title" ⇒ word "t"
      ⨾ "scope" ⇒ arr nil
      ⨾ "acceptance" ⇒ arr nil
      ⨾ "documents" ⇒ arr (cons (word "docs/a") nil)
      ⨾ "reviewers" ⇒ arr (cons (word "me") nil)
      ⨾ "independence" ⇒ arr (cons (word "distinct-model") nil)
      ⨾ end);
}

abbrev sample_header : ContractHeader
sample_header = record {
  schema = 3;
  id = text "CR-1";
  title = text "t";
  scope = [];
  acceptance = [];
  decisions = [];
  documents = text "docs/a" ∷ [];
  extensions = [];
  implementers = [];
  reviewers = text "me" ∷ [];
  independence = text "distinct-model" ∷ [];
}

sample_parsed : parse_contract_text simple sample_toml [] ≡ ok sample_header
unfolding parse_contract_text agentmarshal.Contracts.Header.header_of
    agentmarshal.Contracts.Header.contract_schema agentmarshal.Common.any
    agentmarshal.Records.Forgeable.forges_rendered_text
    agentmarshal.Contracts.Scope.validate_scope_entry agentmarshal.Common.starts_with
    agentmarshal.Contracts.Scope.has_dot_part agentmarshal.Contracts.Scope.split_slash
sample_parsed = refl

parse_contract_text-HeaderIsSound_example : HeaderIsSound simple sample_header
parse_contract_text-HeaderIsSound_example =
    parse_contract_text-HeaderIsSound simple sample_toml [] sample_header sample_parsed

abbrev sample_project : Fields
sample_project =
    "review"
      ⇒ obj (
          "finding_classes" ⇒ arr (cons (word "a") (cons (word "b") nil))
          ⨾ "changes_required_threshold" ⇒ int (pos 2)
          ⨾ end)
    ⨾ end

abbrev sample_settings : ProjectSettings
sample_settings = record {
  finding_classes = text "a" ∷ text "b" ∷ [];
  changes_required_threshold = 2;
  require_agreement = false;
}

sample_read : read_project_settings simple sample_project ≡ ok sample_settings
unfolding read_project_settings agentmarshal.Common.text_eq agentmarshal.Common.any
    agentmarshal.Records.Forgeable.forges_rendered_text
sample_read = refl

read_project_settings-SettingsAreSound_example : SettingsAreSound simple sample_settings
read_project_settings-SettingsAreSound_example =
    read_project_settings-SettingsAreSound simple sample_project sample_settings sample_read

built_stamp_is_least_example : schema_of (built_abandonment 3) ≤ 7
built_stamp_is_least_example =
    built_stamp_is_least simple (write_context (text "CR-1") (ok [])) (built_abandonment 3) 7
      (an_abandonment sample_origin (text "done") (sym built_facts.0)) (omega arith) restamped
  where
    restamped :
        validate_record simple true
          (write_context (text "CR-1") (ok []))
          (put (built_abandonment 3) (text "schema") (int (pos 7)))
        ≡ ok (put (built_abandonment 3) (text "schema") (int (pos 7)))
    restamped = rw (built_facts.1) samples_accepted.9
