-- ===== src/Gate/Paths/Facts.antt =====
-- src/agentmarshal/journal/gate.py: what the path of a record tells.
use mathlib.Core.Path.{subst}
use agentmarshal.Common.{
  any, is_empty, All, ok, err, Check, pass, Text, text, text_eq, contains, starts_with,
  text_eq_sound, ◌==◌, if◌then◌else◌, Bool-cases, and-eq-true, ℕ, ◌≡◌, refl, sym, ap, ◌∙◌, inl, inr,
  Bool, true, false, not, ◌&&◌, Option, none, some, List, [], ◌∷◌, ◌++◌, arith,
}
use agentmarshal.Records.Patterns.{drop_prefix}
use agentmarshal.Records.Files.{validate_task_id}
use agentmarshal.Gate.Texts.{add_to_first, split, has_infix}
use agentmarshal.Gate.Paths.{
  journal_prefix, tasks_prefix, is_record_path, is_pass, is_task_id, task_of_parts, task_below,
  record_path_task, is_append_only_evidence_path,
}

-- A path `tasks/<id>/records/<file>` of the journal.
pub record IsRecordOf (task path : Text) : Type 0 where
  pub file : Text
  pub spelled : path ≡ tasks_prefix ++ (task ++ (text "/records/" ++ file))
  pub given : is_empty file ≡ false
  pub no_deeper : contains b'/' file ≡ false
  pub one_part : contains b'/' task ≡ false
  pub valid : validate_task_id task ≡ pass

same_text : (a b : Text) → some a ≡ some b → a ≡ b
same_text a b h = cc

chosen :
    (b : Bool) (o : Option Text) (r : Text)
    → (if b then o else none) ≡ some r
    → (b ≡ true) × (o ≡ some r)
chosen true o r h = (refl, h)
chosen false o r h = cc

drop_prefix-append : (p s r : Text) → drop_prefix p s ≡ some r → s ≡ p ++ r
unfolding drop_prefix
drop_prefix-append [] s r h = same_text s r h
drop_prefix-append (c ∷ p) [] r h = cc
drop_prefix-append (c ∷ p) (d ∷ s) r h =
    let (same, rest) = chosen (c == d) (drop_prefix p s) r h in
    let e : d ≡ c = ground (arith, same) in let t = drop_prefix-append p s r rest in cc

-- `sep.join(parts)`
joined : ℕ → List Text → Text
joined sep [] = []
joined sep (part ∷ []) = part
joined sep (part ∷ next ∷ parts) = part ++ (sep ∷ joined sep (next ∷ parts))

joined-first :
    (sep c : ℕ) (parts : List Text)
    → is_empty parts ≡ false
    → joined sep (add_to_first c parts) ≡ c ∷ joined sep parts
unfolding joined is_empty
joined-first sep c [] h = cc
joined-first sep c (part ∷ []) h = refl
joined-first sep c (part ∷ next ∷ parts) h = refl

joined-next :
    (sep : ℕ) (parts : List Text)
    → is_empty parts ≡ false
    → joined sep ([] ∷ parts) ≡ sep ∷ joined sep parts
unfolding joined is_empty
joined-next sep [] h = cc
joined-next sep (part ∷ parts) h = refl

split_is_given : (sep : ℕ) (s : Text) → is_empty (split sep s) ≡ false
unfolding split is_empty
split_is_given sep [] = refl
split_is_given sep (c ∷ s) = go (c == sep) (split sep s)
  where
    go :
        (b : Bool) (rest : List Text)
        → is_empty (if b then [] ∷ rest else add_to_first c rest) ≡ false
    go true rest = refl
    go false [] = refl
    go false (part ∷ parts) = refl

joined-split : (sep : ℕ) (s : Text) → joined sep (split sep s) ≡ s
unfolding split
joined-split sep [] = unfold joined in refl
joined-split sep (c ∷ s) = elim (Bool-cases (c == sep)) [
  | inl same ↦
      let e : c ≡ sep = ground (arith, same) in
      rw (same, joined-next sep (split sep s) (split_is_given sep s), joined-split sep s, e) refl
  | inr differs ↦
      rw (differs, joined-first sep c (split sep s) (split_is_given sep s), joined-split sep s) refl
]

-- The parts have no separator.
split_has_none : (sep : ℕ) (s : Text) → All (λ part. contains sep part ≡ false) (split sep s)
unfolding split contains any
split_has_none sep [] = (refl, tt)
split_has_none sep (c ∷ s) = elim (Bool-cases (c == sep)) [
  | inl same ↦ rw same (refl, split_has_none sep s)
  | inr differs ↦ rw differs (first_free differs (split sep s) (split_has_none sep s))
]
  where
    first_free :
        (c == sep) ≡ false
        → (parts : List Text) → All (λ part. contains sep part ≡ false) parts
        → All (λ part. contains sep part ≡ false) (add_to_first c parts)
    first_free differs [] h = (rw differs refl, tt)
    first_free differs (part ∷ parts) h = (rw (differs, h.0) refl, h.1)

not_empty : (b : Bool) → not b ≡ true → b ≡ false
not_empty b h = ground (arith, h)

task_of_parts-spelled :
    (parts : List Text) (task : Text)
    → All (λ part. contains b'/' part ≡ false) parts
    → task_of_parts parts ≡ some task
    → (file : Text) × (joined b'/' parts ≡ task ++ (text "/records/" ++ file))
      × (is_empty file ≡ false)
      × (is_task_id task ≡ true)
      × (contains b'/' file ≡ false)
      × (contains b'/' task ≡ false)
unfolding task_of_parts
task_of_parts-spelled [] task free h = cc
task_of_parts-spelled (a ∷ []) task free h = cc
task_of_parts-spelled (a ∷ b ∷ []) task free h = cc
task_of_parts-spelled (a ∷ b ∷ c ∷ d ∷ parts) task free h = cc
task_of_parts-spelled (a ∷ records ∷ file ∷ []) task free h =
    let (kept, same) =
      chosen (text_eq records (text "records") && (not (is_empty file) && is_task_id a)) (some a)
        task h in
    let (r, rest) = and-eq-true (text_eq records (text "records")) _ kept in
    let (given, valid) = and-eq-true (not (is_empty file)) (is_task_id a) rest in
    let e = same_text a task same in
    (
      file,
      unfold joined in rw (e, text_eq_sound records (text "records") r) refl,
      not_empty (is_empty file) given,
      rw (← e) valid,
      free.1.1.0,
      subst (λ t. contains b'/' t ≡ false) e free.0,
    )

passed : (c : Check) → is_pass c ≡ true → c ≡ pass
passed (ok tt) h = refl
passed (err e) h = cc

has_infix-append : (p a s : Text) → has_infix p s ≡ true → has_infix p (a ++ s) ≡ true
unfolding has_infix
has_infix-append p [] s h = h
has_infix-append p (c ∷ a) s h = rw (has_infix-append p a s h) (ground arith)

records_infix : (file : Text) → has_infix (text "/records/") (text "/records/" ++ file) ≡ true
unfolding has_infix starts_with text
records_infix file = refl

is_below_journal : (s : Text) → starts_with (tasks_prefix ++ s) journal_prefix ≡ true
unfolding starts_with text
is_below_journal s = refl

is_evidence :
    (task file : Text)
    → is_append_only_evidence_path (tasks_prefix ++ (task ++ (text "/records/" ++ file))) ≡ true
unfolding is_append_only_evidence_path is_record_path
is_evidence task file =
    rw
      (
        is_below_journal (task ++ (text "/records/" ++ file)),
        has_infix-append (text "/records/") tasks_prefix (task ++ (text "/records/" ++ file)) (
            has_infix-append (text "/records/") task (text "/records/" ++ file)
              (records_infix file)),
      )
      refl

task_below-IsRecordOf :
    (path task : Text) (found : Option Text)
    → drop_prefix tasks_prefix path ≡ found
    → task_below found ≡ some task
    → IsRecordOf task path × (is_append_only_evidence_path path ≡ true)
unfolding task_below is_task_id
task_below-IsRecordOf path task none e h = cc
task_below-IsRecordOf path task (some s) e h =
    let (file, j, given, valid, no_deeper, one_part) =
      task_of_parts-spelled (split b'/' s) task (split_has_none b'/' s) h in
    let t : s ≡ task ++ (text "/records/" ++ file) = sym (joined-split b'/' s) ∙ j in
    let spelled : path ≡ tasks_prefix ++ (task ++ (text "/records/" ++ file)) =
      drop_prefix-append tasks_prefix path s e ∙ ap (λ x. tasks_prefix ++ x) t in
    (
      record {
        file = file;
        spelled = spelled;
        given = given;
        no_deeper = no_deeper;
        one_part = one_part;
        valid = passed (validate_task_id task) valid;
      },
      subst (λ p. is_append_only_evidence_path p ≡ true) (sym spelled) (is_evidence task file),
    )

-- A path that names a task's record is `tasks/<id>/records/<file>` below the journal, with a valid task
-- id and a given file, neither with a slash in it, and it is held to the checks on evidence.
pub record_path_task-IsRecordOf :
    (path task : Text)
    → record_path_task path ≡ some task
    → IsRecordOf task path × (is_append_only_evidence_path path ≡ true)
unfolding record_path_task
record_path_task-IsRecordOf path task h =
    task_below-IsRecordOf path task (drop_prefix tasks_prefix path) refl h
