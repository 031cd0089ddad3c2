-- ===== src/Contracts/Sound.antt =====
-- src/agentmarshal/journal/contracts.py: a parsed contract's header against what the readers of a
-- header rely on.
use mathlib.Core.Path.{subst}
use agentmarshal.Common.{
  is_empty, All, All-map, What, contract_refused, ok, pass, guard, ◌>>◌, each, >>-ok, each-ok,
  guard-ok, >>=-ok, Text, contains_text, ltb, leb, Bool-cases, ℕ, String, ◌≡◌, refl, sym, inl, inr,
  true, false, ◌||◌, Option, none, some, List, [], ◌∷◌, arith,
}
use agentmarshal.Json.{Json, str, Fields, ◌!◌, has, text_of}
use agentmarshal.Runtime.{Runtime}
use agentmarshal.Records.Forgeable.{forges_rendered_text, is_non_empty}
use agentmarshal.Records.Validate.{rules}
use agentmarshal.Contracts.Scope.{reject_control_characters, validate_scope_entry}
use agentmarshal.Contracts.Header.{
  Toml, ContractHeader, independence_rules, header_field, require_string, require_string_array,
  optional_string_array, optional_unique_nonempty_array, contract_schema, known_schema,
  refuse_before, header_of, before_delimiter, drop_marks, join_lines, opened_header, closed_header,
  parsed_header, parse_contract_text,
}
use agentmarshal.Contracts.HeaderFacts.{IsListing, refused-clean, optional-IsListing}

-- Every list is one that the gate can print and compare, and a list of a later schema is empty on an
-- earlier one.
pub record HeaderIsSound (rt : Runtime) (h : ContractHeader) : Type 0 where
  pub documents :
      All (λ d. validate_scope_entry rt d "contract header field 'documents'" ≡ pass) h.documents
  pub implementers : IsListing rt h.implementers
  pub reviewers : IsListing rt h.reviewers
  pub independence : IsListing rt h.independence
  pub rules : All (λ rule. contains_text rule independence_rules ≡ true) h.independence
  pub decisions : All (λ d. forges_rendered_text rt d ≡ false) h.decisions
  pub extensions : All (λ e. forges_rendered_text rt e ≡ false) h.extensions
  pub id : is_empty h.id ≡ false
  pub title : is_empty h.title ≡ false
  pub implementers_since : (is_empty h.implementers || leb 3 h.schema) ≡ true
  pub reviewers_since : (is_empty h.reviewers || leb 3 h.schema) ≡ true
  pub independence_since : (is_empty h.independence || leb 3 h.schema) ≡ true

same_header : (a b : ContractHeader) → ok a ≡ ok b → b ≡ a
same_header a b h = cc

require_string-given :
    (r : Fields) (k : String) (s : Text) → require_string r k ≡ ok s → is_empty s ≡ false
unfolding require_string is_non_empty text_of
require_string-given r k s h = given (r ! k) s h
  where
    given :
        (v : Option Json) (s : Text)
        → (guard (is_non_empty v) (contract_refused (header_field k) "must be a non-empty string")
            >> ok (text_of v))
          ≡ ok s
        → is_empty s ≡ false
    given none s h = cc
    given (some (str t)) s h = ground (arith, h)
    given (some _) s h = cc

clean_each :
    (rt : Runtime) (what : What) (xs : List Text)
    → each (λ d. reject_control_characters rt d what) xs ≡ pass
    → All (λ d. forges_rendered_text rt d ≡ false) xs
clean_each rt what xs h =
    All-map xs (λ d. refused-clean rt d what)
      (each-ok (λ d. reject_control_characters rt d what) xs h)

-- A list that the schema does not have yet is empty.
since :
    (rt : Runtime) (r : Fields) (schema : ℕ) (k : String) (entries : List Text)
    → (ltb schema 3 ≡ true → has r k ≡ false)
    → IsListing rt entries × (has r k ≡ false → entries ≡ [])
    → (is_empty entries || leb 3 schema) ≡ true
unfolding is_empty
since rt r schema k entries early (_, missing) = elim (Bool-cases (ltb schema 3)) [
  | inl before ↦ rw (missing (early before)) refl
  | inr later ↦ ground (arith, later)
]

absent_before :
    (schema : ℕ) (r : Fields) (k1 k2 k3 : String)
    → refuse_before 3 schema r (k1 ∷ k2 ∷ k3 ∷ []) ≡ pass
    → ltb schema 3 ≡ true
    → (has r k1 ≡ false) × (has r k2 ≡ false) × (has r k3 ≡ false)
unfolding refuse_before each
absent_before schema r k1 k2 k3 h lt = ground (arith, h, lt)

pub header_of-HeaderIsSound :
    (rt : Runtime) (r : Fields) (h : ContractHeader) → header_of rt r ≡ ok h → HeaderIsSound rt h
unfolding header_of
header_of-HeaderIsSound rt r h e =
    let (schema, _, e1) = >>=-ok (known_schema (contract_schema (r ! "schema"))) _ e in
    let (_, e2) =
      >>-ok (refuse_before 2 schema r ("decisions" ∷ "documents" ∷ "extensions" ∷ [])) _ e1 in
    let (early, e3) =
      >>-ok (refuse_before 3 schema r ("implementers" ∷ "reviewers" ∷ "independence" ∷ [])) _ e2 in
    let (decisions, _, e4) = >>=-ok (optional_string_array r "decisions") _ e3 in
    let (documents, _, e5) = >>=-ok (optional_string_array r "documents") _ e4 in
    let (extensions, _, e6) = >>=-ok (optional_string_array r "extensions") _ e5 in
    let (implementers, i, e7) = >>=-ok (optional_unique_nonempty_array rt r "implementers") _ e6 in
    let (reviewers, v, e8) = >>=-ok (optional_unique_nonempty_array rt r "reviewers") _ e7 in
    let (independence, n, e9) = >>=-ok (optional_unique_nonempty_array rt r "independence") _ e8 in
    let (rules, e10) = >>-ok (each _ independence) _ e9 in
    let (d1, e11) = >>-ok (each _ decisions) _ e10 in
    let (d2, e12) = >>-ok (each _ documents) _ e11 in
    let (x, e13) = >>-ok (each _ extensions) _ e12 in
    let (id, a, e14) = >>=-ok (require_string r "id") _ e13 in
    let (title, b, e15) = >>=-ok (require_string r "title") _ e14 in
    let (scope, _, e16) = >>=-ok (require_string_array r "scope") _ e15 in
    let (accepts, _, e17) = >>=-ok (require_string_array r "acceptance") _ e16 in
    let li = optional-IsListing rt r "implementers" implementers i in
    let lv = optional-IsListing rt r "reviewers" reviewers v in
    let ln = optional-IsListing rt r "independence" independence n in
    let before = absent_before schema r "implementers" "reviewers" "independence" early in
    subst (HeaderIsSound rt) (sym (same_header _ h e17)) (record {
      documents = each-ok _ documents d2;
      implementers = li.0;
      reviewers = lv.0;
      independence = ln.0;
      rules = All-map independence (λ rule g. guard-ok _ _ g) (each-ok _ independence rules);
      decisions = clean_each rt _ decisions d1;
      extensions = clean_each rt _ extensions x;
      id = require_string-given r "id" id a;
      title = require_string-given r "title" title b;
      implementers_since = since rt r schema "implementers" implementers (λ lt. (before lt).0) li;
      reviewers_since = since rt r schema "reviewers" reviewers (λ lt. (before lt).1) lv;
      independence_since = since rt r schema "independence" independence (λ lt. (before lt).2) ln;
    })

-- A header that `parse_contract_text` gives has documents that `validate_scope_entry` accepts, lists
-- of implementers, reviewers and rules that are free of empty, repeated and forging entries, known
-- rules alone, decisions and extensions that do not forge, and an id and a title that are not empty;
-- before schema 3 the three lists are empty.
pub parse_contract_text-HeaderIsSound :
    (rt : Runtime) (toml : Toml) (s : Text) (h : ContractHeader)
    → parse_contract_text rt toml s ≡ ok h
    → HeaderIsSound rt h
unfolding parse_contract_text
parse_contract_text-HeaderIsSound rt toml s h e =
    let (lines, _, e1) = >>=-ok (opened_header rt (toml.split_lines (drop_marks s))) _ e in
    let (header, _, e2) = >>=-ok (closed_header (before_delimiter rt lines)) _ e1 in
    let (table, _, e3) = >>=-ok (parsed_header (toml.loads (join_lines header))) _ e2 in
    header_of-HeaderIsSound rt table h e3
