-- ===== src/Contracts/Header.antt =====
-- src/agentmarshal/journal/contracts.py: `parse_contract_text`, from the lines of a contract to its
-- header.
use mathlib.Core.Option
use agentmarshal.Common.{
  all, is_empty, What, plain, labelled, contract_refused, Result, ok, err, Check, pass, guard, ◌>>◌,
  ◌>>=◌, each, Text, text, text_eq, contains_text, ltb, leb, ◌==◌, if◌then◌else◌, ℕ, String, Bool,
  false, not, ◌&&◌, Option, none, some, List, [], ◌∷◌, ◌++◌,
}
use agentmarshal.Json.{pos, Json, int, arr, Fields, elements, ◌!◌, has, text_of, is_str}
use agentmarshal.Runtime.{Runtime}
use agentmarshal.Records.Forgeable.{is_non_empty, ids_of, when}
use agentmarshal.Contracts.Scope.{reject_control_characters, validate_scope_entry}

-- What the parser takes from Python: `str.splitlines` and `tomllib.loads`, whose tables are read as
-- objects; `none` is a `TOMLDecodeError`.
pub record Toml : Type 0 where
  pub split_lines : Text → List Text
  pub loads : Text → Option Fields

pub record ContractHeader : Type 0 where
  pub schema : ℕ
  pub id : Text
  pub title : Text
  pub scope : List Text
  pub acceptance : List Text
  pub decisions : List Text
  pub documents : List Text
  pub extensions : List Text
  pub implementers : List Text
  pub reviewers : List Text
  pub independence : List Text

abbrev pub independence_rules : List Text
independence_rules =
    text "reviewer-not-writer"
    ∷ text "distinct-actor"
    ∷ text "distinct-vendor"
    ∷ text "distinct-model"
    ∷ []

unfoldable pub header_field : String → What
header_field k = labelled "contract header field" k

unfoldable pub require_string : Fields → String → Result Text
unfolding is_non_empty text_of header_field
require_string r k =
    guard (is_non_empty (r ! k)) (contract_refused (header_field k) "must be a non-empty string")
    >> ok (text_of (r ! k))

-- `isinstance(value, list) and all(isinstance(item, str) for item in value)`
unfoldable pub is_text_list : Option Json → Bool
unfolding all is_str elements
is_text_list (some (arr xs)) = all (λ x. is_str (some x)) (elements xs)
is_text_list _ = false

unfoldable pub require_string_array : Fields → String → Result (List Text)
unfolding is_text_list ids_of header_field
require_string_array r k =
    guard (is_text_list (r ! k)) (contract_refused (header_field k) "must be an array of strings")
    >> ok (ids_of (r ! k))

unfoldable pub optional_string_array : Fields → String → Result (List Text)
unfolding has require_string_array
optional_string_array r k = if has r k then require_string_array r k else ok []

-- The loop over the entries, with those seen so far.
unfoldable pub each_unique : Runtime → String → List Text → List Text → Check
unfolding is_empty contains_text reject_control_characters header_field
each_unique rt k seen [] = pass
each_unique rt k seen (e ∷ entries) = do
  guard (not (is_empty e)) (contract_refused (header_field k) "entry is empty")
  guard (not (contains_text e seen)) (contract_refused (header_field k) "repeats an entry")
  reject_control_characters rt e (header_field k)
  each_unique rt k (e ∷ seen) entries

unfoldable pub optional_unique_nonempty_array : Runtime → Fields → String → Result (List Text)
unfolding has require_string_array is_empty each_unique header_field
optional_unique_nonempty_array rt r k =
    if has r k
    then require_string_array r k >>= (λ entries.
      guard (not (is_empty entries))
        (contract_refused (header_field k) "must name at least one entry")
      >> (each_unique rt k [] entries >> ok entries))
    else ok []

-- `type(schema) is int and schema in {1, 2, 3}`
unfoldable pub contract_schema : Option Json → Option ℕ
contract_schema (some (int (pos n))) = if leb 1 n && leb n 3 then some n else none
contract_schema _ = none

unfoldable pub known_schema : Option ℕ → Result ℕ
known_schema none =
    err (contract_refused (plain "contract header") "has an unknown or missing schema version")
known_schema (some n) = ok n

unfoldable pub refuse_before : ℕ → ℕ → Fields → List String → Check
unfolding each has header_field
refuse_before needed schema r fields = when (ltb schema needed) (
    each (λ k. guard (not (has r k)) (contract_refused (header_field k) "requires a later schema"))
      fields)

-- The header that the table of a contract states.
unfoldable pub header_of : Runtime → Fields → Result ContractHeader
unfolding known_schema refuse_before optional_string_array optional_unique_nonempty_array each
    require_string require_string_array header_field
header_of rt r = do
  schema ← known_schema (contract_schema (r ! "schema"))
  refuse_before 2 schema r ("decisions" ∷ "documents" ∷ "extensions" ∷ [])
  refuse_before 3 schema r ("implementers" ∷ "reviewers" ∷ "independence" ∷ [])
  decisions ← optional_string_array r "decisions"
  documents ← optional_string_array r "documents"
  extensions ← optional_string_array r "extensions"
  implementers ← optional_unique_nonempty_array rt r "implementers"
  reviewers ← optional_unique_nonempty_array rt r "reviewers"
  independence ← optional_unique_nonempty_array rt r "independence"
  each
      (λ rule.
        guard (contains_text rule independence_rules)
          (contract_refused (header_field "independence") "is not a known independence rule"))
      independence
  each (λ d. reject_control_characters rt d (header_field "decisions")) decisions
  each (λ d. validate_scope_entry rt d "contract header field 'documents'") documents
  each (λ e. reject_control_characters rt e (header_field "extensions")) extensions
  id ← require_string r "id"
  title ← require_string r "title"
  scope ← require_string_array r "scope"
  accepts ← require_string_array r "acceptance"
  ok (record {
    schema = schema;
    id = id;
    title = title;
    scope = scope;
    acceptance = accepts;
    decisions = decisions;
    documents = documents;
    extensions = extensions;
    implementers = implementers;
    reviewers = reviewers;
    independence = independence;
  })

unfoldable pub drop_space : Runtime → Text → Text
drop_space rt [] = []
drop_space rt (c ∷ s) = let rest = drop_space rt s in if rt.is_space c then rest else c ∷ s

unfoldable pub drop_last_space : Runtime → Text → Text
unfolding is_empty
drop_last_space rt [] = []
drop_last_space rt (c ∷ s) =
    let rest = drop_last_space rt s in if rt.is_space c && is_empty rest then [] else c ∷ rest

-- `value.strip()`
unfoldable pub strip : Runtime → Text → Text
unfolding drop_space drop_last_space
strip rt s = drop_last_space rt (drop_space rt s)

is_delimiter : Runtime → Text → Bool
unfolding strip text_eq text
is_delimiter rt line = text_eq (strip rt line) (text "+++")

-- The lines before the first delimiter, if there is one.
unfoldable pub before_delimiter : Runtime → List Text → Option (List Text)
unfolding is_delimiter
before_delimiter rt [] = none
before_delimiter rt (line ∷ lines) =
    let rest = before_delimiter rt lines in
    if is_delimiter rt line then some [] else Option.map (λ ls. line ∷ ls) rest

-- `text.lstrip("\ufeff")`
unfoldable pub drop_marks : Text → Text
drop_marks [] = []
drop_marks (c ∷ s) = let rest = drop_marks s in if c == 0xfeff then rest else c ∷ s

-- `"\n".join(lines)`
unfoldable pub join_lines : List Text → Text
join_lines [] = []
join_lines (line ∷ []) = line
join_lines (line ∷ next ∷ lines) = line ++ (10 ∷ join_lines (next ∷ lines))

unfoldable pub opened_header : Runtime → List Text → Result (List Text)
unfolding is_delimiter
opened_header rt [] =
    err (contract_refused (plain "contract") "must start with a +++ header delimiter")
opened_header rt (line ∷ lines) =
    guard (is_delimiter rt line)
      (contract_refused (plain "contract") "must start with a +++ header delimiter")
    >> ok lines

unfoldable pub closed_header : Option (List Text) → Result (List Text)
closed_header none =
    err (contract_refused (plain "contract header") "is missing its closing delimiter")
closed_header (some lines) = ok lines

unfoldable pub parsed_header : Option Fields → Result Fields
parsed_header none = err (contract_refused (plain "contract header") "is invalid TOML")
parsed_header (some r) = ok r

unfoldable pub parse_contract_text : Runtime → Toml → Text → Result ContractHeader
unfolding opened_header closed_header parsed_header before_delimiter
parse_contract_text rt toml s = do
  lines ← opened_header rt (toml.split_lines (drop_marks s))
  header ← closed_header (before_delimiter rt lines)
  table ← parsed_header (toml.loads (join_lines header))
  header_of rt table

-- CRLF and lone CR to LF.
unfoldable pub normalize_newlines : Text → Text
normalize_newlines [] = []
normalize_newlines (c ∷ []) = if c == 13 then 10 ∷ [] else c ∷ []
normalize_newlines (c ∷ d ∷ s) =
    let rest = normalize_newlines (d ∷ s) in
    if c == 13 then (if d == 10 then rest else 10 ∷ rest) else c ∷ rest

undecodable : Option Text → Result Text
undecodable none = err (contract_refused (plain "contract") "is not valid UTF-8")
undecodable (some s) = ok s

-- `contract_sha256`, with the decoding of the bytes and the encoding of the text given
unfoldable pub contract_sha256 :
    Runtime → (List ℕ → Option Text) → (Text → List ℕ) → List ℕ → Result Text
unfolding undecodable normalize_newlines
contract_sha256 rt decode encode content =
    undecodable (decode content) >>= λ s. ok (rt.sha256 (encode (normalize_newlines s)))
