-- ===== src/Common/Results.antt =====
-- Results of code that may raise, and the messages of what it raises.
use Prim.Native.Nat.{ℕ}
use Prim.Native.String.{String}
use mathlib.Core.Path.{◌≡◌, refl}
use mathlib.Core.Bool.{Bool, true, false}
use mathlib.Core.List.{List, [], ◌∷◌}
use native.Mathlib.Omega.{arith}
use agentmarshal.Common.Lists.{All}

-- The subject of a refusal, as its f-string builds it: a fixed text, a text with a field's name, a
-- text with a value from the record, and a subject with a key, an item's number or more text.
pub data What : Type 0 where
  plain : String → What
  labelled : String → String → What
  keyed : String → List ℕ → What
  within : What → String → What
  item : What → String → ℕ → What

-- `refused w c` is `JournalRecordError(f"{w} {c}")`; `unsupported` carries the listed names.
-- `status_refused` is a `TaskStatusError` and `contract_refused` a `JournalContractError`,
-- `settings_refused` a `ProjectSettingsError`, `gate_refused` a `GateError` and
-- `lifecycle_refused` a `LifecycleError`.
-- `unicode_encode_error` is the `UnicodeEncodeError` of `str.encode`, which is none of them.
pub data Error : Type 0 where
  refused : What → String → Error
  unsupported : What → List (List ℕ) → Error
  status_refused : String → Error
  contract_refused : What → String → Error
  settings_refused : String → Error
  gate_refused : String → Error
  lifecycle_refused : String → Error
  unicode_encode_error : Error

pub data Result {ℓ} (A : Type ℓ) : Type ℓ where
  ok : A → Result A
  err : Error → Result A

abbrev pub Check : Type 0
Check = Result (Unit {0})

abbrev pub pass : Check
pass = ok tt

-- `if not test: raise ...`
abbrev pub guard : Bool → Error → Check
guard false error = err error
guard true error = pass

-- A check, then what follows it.
infixl 5 ◌>>◌
abbrev pub ◌>>◌ {ℓ} : {B : Type ℓ} → Check → Result B → Result B
err error >> next = err error
ok _ >> next = next

-- A call whose value the rest uses.
infixl 5 ◌>>=◌
abbrev pub ◌>>=◌ {ℓ κ} : {A : Type ℓ} {B : Type κ} → Result A → (A → Result B) → Result B
err error >>= next = err error
ok value >>= next = next value

-- `for x in xs: f(x)`
unfoldable pub each {ℓ} : {A : Type ℓ} → (A → Check) → List A → Check
each f [] = pass
each f (x ∷ xs) = f x >> each f xs

pub >>-ok {ℓ} :
    {B : Type ℓ} {b : B} (c : Check) (k : Result B) → (c >> k) ≡ ok b → (c ≡ pass) × (k ≡ ok b)
>>-ok (ok tt) k h = (refl, h)
>>-ok (err e) k h = cc

pub each-ok {ℓ} :
    {A : Type ℓ} (f : A → Check) (xs : List A) → each f xs ≡ pass → All (λ x. f x ≡ pass) xs
unfolding each
each-ok f [] h = tt
each-ok f (x ∷ xs) h = let (hx, hxs) = >>-ok (f x) (each f xs) h in (hx, each-ok f xs hxs)

pub each_of_All {ℓ} :
    {A : Type ℓ} (f : A → Check) (xs : List A) → All (λ x. f x ≡ pass) xs → each f xs ≡ pass
unfolding each
each_of_All f [] h = refl
each_of_All f (x ∷ xs) h = rw h.0 (each_of_All f xs h.1)

pub guard-ok : (b : Bool) (e : Error) → guard b e ≡ pass → b ≡ true
guard-ok b e h = ground arith

-- The value of a call that does not raise, where the rest does not raise either.
pub >>=-ok {ℓ κ} :
    {A : Type ℓ} {B : Type κ} (call : Result A) (next : A → Result B) {out : B}
    → (call >>= next) ≡ ok out
    → (value : A) × (call ≡ ok value) × (next value ≡ ok out)
>>=-ok (err error) next h = cc
>>=-ok (ok value) next h = (value, refl, h)
