-- ===== src/Records/Sound.antt =====
-- src/agentmarshal/journal/records.py: what `_validate_record` accepts, as the rules that hold.
use mathlib.Core.List.{Memᴰ}
use package.text.Mathlib.Text.{◌==◌ as str_eq}
use package.text.Mathlib.TextEquality.{eq_iff}
use agentmarshal.Common.{
  All, All-map, Error, Result, ok, err, Check, pass, guard, ◌>>◌, each, >>-ok, each-ok, each_of_All,
  guard-ok, text, if◌then◌else◌, leb→le, Bool-cases, ℕ, ◌≤◌, String, ◌≡◌, refl, sym, ap, ◌∙◌, ◌⊎◌,
  inl, inr, Bool, true, false, not, ◌&&◌, Option, none, some, List, [], ◌∷◌, arith,
}
use agentmarshal.Json.{Fields}
use agentmarshal.Runtime.{Runtime}
use agentmarshal.Records.Schema.{schema_of}
use agentmarshal.Records.Forgeable.{when}
use agentmarshal.Records.Rules.Envelope.{check_schema_version}
use agentmarshal.Records.Rules.Placement.{RuleContext}
use agentmarshal.Records.Validate.{
  Rule, rule, rules, rule_from_schema, lookup_bound, reaches, applies, apply_rule, is_writable,
  validate_record,
}
use agentmarshal.Registry.{name}

-- `for_write` and the schema decide whether a rule applies; one that applies has to pass.
abbrev pub Holds : Bool → RuleContext → Fields → Rule → Type 0
Holds for_write context r rule =
    applies for_write (schema_of r) rule.name ≡ true → rule.check context r ≡ pass

pub record IsAccepted (rt : Runtime) (for_write : Bool) (context : RuleContext) (r : Fields)
    : Type 0 where
  pub version : check_schema_version r ≡ pass
  pub every_rule : All (Holds for_write context r) (rules rt)
  pub writable : not (for_write && not (is_writable r)) ≡ true

pub when-pass : (b : Bool) (c : Check) → when b c ≡ pass → b ≡ true → c ≡ pass
when-pass b c h e = ground arith

pass-when : (b : Bool) (c : Check) → (b ≡ true → c ≡ pass) → when b c ≡ pass
pass-when true c h = h refl
pass-when false c h = refl

Holds-of_apply :
    (for_write : Bool) (context : RuleContext) (r : Fields) (rule : Rule)
    → apply_rule for_write context r rule ≡ pass
    → Holds for_write context r rule
unfolding apply_rule
Holds-of_apply for_write context r rule h =
    when-pass (applies for_write (schema_of r) rule.name) (rule.check context r) h

apply_of_Holds :
    (for_write : Bool) (context : RuleContext) (r : Fields) (rule : Rule)
    → Holds for_write context r rule
    → apply_rule for_write context r rule ≡ pass
unfolding apply_rule
apply_of_Holds for_write context r rule h =
    pass-when (applies for_write (schema_of r) rule.name) (rule.check context r) h

-- What validation accepts passes the version check and every rule that applies, and at write time
-- has a writable type.
pub validate_record-IsAccepted :
    (rt : Runtime) (for_write : Bool) (context : RuleContext) (r : Fields) {out : Fields}
    → validate_record rt for_write context r ≡ ok out
    → IsAccepted rt for_write context r
unfolding validate_record
validate_record-IsAccepted rt for_write context r h =
    let (version, h1) = >>-ok (check_schema_version r) _ h in
    let (passed, h2) = >>-ok (each (apply_rule for_write context r) (rules rt)) _ h1 in
    let (writable, _) = >>-ok (guard (not (for_write && not (is_writable r))) _) _ h2 in
    record {
      version = version;
      every_rule =
          All-map (rules rt) (Holds-of_apply for_write context r)
            (each-ok (apply_rule for_write context r) (rules rt) passed);
      writable = guard-ok (not (for_write && not (is_writable r))) _ writable;
    }

-- Conversely, such a record is accepted, and validation gives it back unchanged.
pub validate_record_of_IsAccepted :
    (rt : Runtime) (for_write : Bool) (context : RuleContext) (r : Fields)
    → IsAccepted rt for_write context r
    → validate_record rt for_write context r ≡ ok r
unfolding validate_record
validate_record_of_IsAccepted rt for_write context r a =
    let passed : each (apply_rule for_write context r) (rules rt) ≡ pass =
      each_of_All (apply_rule for_write context r) (rules rt)
        (All-map (rules rt) (apply_of_Holds for_write context r) a.every_rule) in
    rw (a.version, passed, a.writable)

-- What refuses a record where it is read: its schema, or a rule of `_RULES` that a row of
-- `_RULE_FROM_SCHEMA` binds to the record's own schema or an earlier one.
pub data IsRefusedBy (rt : Runtime) (context : RuleContext) (r : Fields) (e : Error) : Type 0 where
  by_version : check_schema_version r ≡ err e → IsRefusedBy rt context r e
  by_rule :
      (refusing : Rule) (bound : ℕ)
      → Memᴰ refusing (rules rt)
      → Memᴰ (refusing.name, bound) rule_from_schema
      → bound ≤ schema_of r
      → refusing.check context r ≡ err e
      → IsRefusedBy rt context r e

>>-err {ℓ} :
    {B : Type ℓ} (c : Check) (k : Result B) (e : Error)
    → (c >> k) ≡ err e
    → (c ≡ err e) ⊎ (k ≡ err e)
>>-err (ok tt) k e h = inr h
>>-err (err d) k e h = inl (let same : d ≡ e = cc in ap err same)

each-err {ℓ} :
    {A : Type ℓ} (f : A → Check) (xs : List A) (e : Error)
    → each f xs ≡ err e
    → (x : A) × Memᴰ x xs × (f x ≡ err e)
unfolding each
each-err f [] e h = cc
each-err f (x ∷ xs) e h = elim (>>-err (f x) (each f xs) e h) [
  | inl own ↦ (x, Memᴰ.head refl, own)
  | inr rest ↦ let (y, m, k) = each-err f xs e rest in (y, Memᴰ.tail m, k)
]

lookup_bound-row :
    (table : List (String × ℕ)) (name : String) (bound : ℕ)
    → lookup_bound table name ≡ some bound
    → Memᴰ (name, bound) table
unfolding lookup_bound
lookup_bound-row [] name bound h = cc
lookup_bound-row ((n, b) ∷ table) name bound h = elim (Bool-cases (str_eq n name)) [
  | inl same ↦
      let e : n ≡ name = (eq_iff n name).0 same in
      let k : b ≡ bound =
        found b bound (sym (ap (λ t. if t then some b else lookup_bound table name) same) ∙ h) in
      Memᴰ.head (sym (λ i. (e i, k i)))
  | inr differs ↦ Memᴰ.tail (
      lookup_bound-row table name bound
        (sym (ap (λ t. if t then some b else lookup_bound table name) differs) ∙ h))
]
  where
    found : (a b : ℕ) → some a ≡ some b → a ≡ b
    found a b h = cc

when-err : (b : Bool) (c : Check) (e : Error) → when b c ≡ err e → (b ≡ true) × (c ≡ err e)
when-err true c e h = (refl, h)
when-err false c e h = cc

reaches-bound :
    (found : Option ℕ) (schema : ℕ)
    → reaches found schema ≡ true
    → (bound : ℕ) × (found ≡ some bound) × (bound ≤ schema)
unfolding reaches
reaches-bound none schema h = cc
reaches-bound (some bound) schema h = (bound, refl, leb→le bound schema h)

-- Where the read path refuses a record, its schema is refused, or a rule that is bound to the record's
-- schema or an earlier one refuses it with that very error.
pub read_refusal_is_own :
    (rt : Runtime) (context : RuleContext) (r : Fields) (e : Error)
    → validate_record rt false context r ≡ err e
    → IsRefusedBy rt context r e
unfolding validate_record apply_rule applies
read_refusal_is_own rt context r e h = elim (>>-err (check_schema_version r) _ e h) [
  | inl version ↦ by_version version
  | inr h1 ↦ elim (>>-err (each (apply_rule false context r) (rules rt)) _ e h1) [
    | inl refused_by ↦
        let (refusing, m, k) = each-err (apply_rule false context r) (rules rt) e refused_by in
        let (applied, own) = when-err _ (refusing.check context r) e k in
        let (bound, row, below) = reaches-bound _ (schema_of r) applied in
        by_rule refusing bound m (lookup_bound-row rule_from_schema refusing.name bound row) below
          own
    | inr h2 ↦ absurd (cc h2)
  ]
]
