-- ===== src/Gate/Base/Extended.antt =====
-- src/agentmarshal/journal/gate.py: what may be added to a task that a record on the base tree closes.
use agentmarshal.Common.{
  any, is_empty, All, All-map, Text, contains_text, starts_with, text_eq_refl, ==_iff, Bool-cases,
  ℕ, ◌≡◌, refl, sym, ap, ◌∙◌, ◌⊎◌, inl, inr, Bool, true, false, ◌&&◌, ◌||◌, some, List, [], ◌∷◌,
  ◌++◌, arith,
}
use agentmarshal.Registry.{State, named}
use agentmarshal.Runtime.{Runtime}
use agentmarshal.Ulid.Encoding.{text_lt}
use agentmarshal.Gate.Texts.{select}
use agentmarshal.Gate.Texts.Suffixes.{starts_with-append}
use agentmarshal.Gate.Texts.Sorted.{last_of-sorted}
use agentmarshal.Gate.Transcript.{Transcript, is_clear}
use agentmarshal.Gate.Paths.{record_type_from_record_path}
use agentmarshal.Gate.Base.{
  Candidate, is_added, added_records, task_dir_prefix, task_records_prefix, is_lifecycle_path,
  latest_at_base, is_closing, projected_state_of, admitted_type, is_admitted_after_terminal,
  terminal_state_at_base, say_base,
}
use agentmarshal.Gate.Base.Facts.{say_base-IsAppended}
use agentmarshal.Gate.Base.Closed.{
  Closing, by_completion, by_abandonment, closing_type, closed_state, IsLifecycleName, IsClosedBy,
  IsFollowing, closing_name, record_type-closing, closing_is_lifecycle, closing_is_closing,
  lifecycle-IsLifecycleName, follows,
}
use mathlib.Core.List.{Memᴰ, append_assoc}
use mathlib.Core.Path.{subst}

or_true : (b : Bool) → (b || true) ≡ true
or_true b = ground arith

and_false : (b : Bool) → (b && false) ≡ false
and_false b = ground arith

added_mark : (change : ℕ × Text) → is_added change ≡ true → change.0 ≡ b'A'
unfolding is_added
added_mark change h = (==_iff change.0 b'A').0 h

same_state_of : (a b : State) → some a ≡ some b → a ≡ b
same_state_of a b h = cc

select-contains :
    (test : Text → Bool) (xs : List Text) (m : Text)
    → Memᴰ m xs
    → test m ≡ true
    → contains_text m (select test xs) ≡ true
unfolding select contains_text any
select-contains test [] m d h = elim d [ ]
select-contains test (x ∷ xs) m (Memᴰ.head e) h =
    rw (subst (λ z. test z ≡ true) e h, e, text_eq_refl x) refl
select-contains test (x ∷ xs) m (Memᴰ.tail d) h =
    let rest = select-contains test xs m d h in
    elim (Bool-cases (test x)) [ inl y ↦ rw (y, rest) (or_true _) | inr n ↦ rw n rest ]

select-All :
    (test : Text → Bool) (P : Text → Type 0) (xs : List Text)
    → All (λ x. (test x ≡ false) ⊎ P x) xs
    → All P (select test xs)
unfolding select
select-All test P [] h = tt
select-All test P (x ∷ xs) h =
    let rest = select-All test P xs h.1 in
    elim h.0 [
      | inl n ↦ rw n rest
      | inr p ↦ elim (Bool-cases (test x)) [ inl y ↦ rw y (p, rest) | inr n ↦ rw n rest ]
    ]

-- The record that closes the task is the latest of its life cycle on the base.
latest-IsClosedBy :
    (k : Closing) (base_tree : List Text) (task stem : Text)
    → IsClosedBy k base_tree task stem
    → latest_at_base base_tree task ≡ some (task_records_prefix task ++ (stem ++ closing_name k))
unfolding latest_at_base
latest-IsClosedBy k base_tree task stem h =
    last_of-sorted closing_path (select of_task base_tree)
      (select-contains of_task base_tree closing_path h.present own)
      (select-All of_task (λ path. text_lt closing_path path ≡ false) base_tree
        (All-map base_tree (λ path l. judged_path path l) h.latest))
  where
    closing_path : Text
    closing_path = task_records_prefix task ++ (stem ++ closing_name k)

    of_task : Text → Bool
    of_task path = starts_with path (task_records_prefix task) && is_lifecycle_path path

    own : of_task closing_path ≡ true
    own = rw (starts_with-append (task_records_prefix task) (stem ++ closing_name k)) (
        ap is_lifecycle_path (sym (append_assoc (task_records_prefix task) stem (closing_name k)))
        ∙ closing_is_lifecycle k (task_records_prefix task ++ stem))

    judged_path :
        (path : Text)
        → (text_lt closing_path path ≡ false)
          ⊎ ((starts_with path (task_records_prefix task) ≡ false) ⊎ (¬ IsLifecycleName path))
        → (of_task path ≡ false) ⊎ (text_lt closing_path path ≡ false)
    judged_path path (inl less) = inr less
    judged_path path (inr (inl elsewhere)) = inl (rw elsewhere refl)
    judged_path path (inr (inr unnamed)) = elim (Bool-cases (is_lifecycle_path path)) [
      | inl e ↦ absurd (unnamed (lifecycle-IsLifecycleName path e))
      | inr e ↦ inl (rw e (and_false _))
    ]

terminal_state-closing :
    (k : Closing) (front : Text)
    → terminal_state_at_base (some (front ++ closing_name k)) ≡ some (closed_state k)
unfolding terminal_state_at_base
terminal_state-closing k front =
    rw (closing_is_closing k front, record_type-closing k front) (state_of k)
  where
    state_of : (k : Closing) → projected_state_of (closing_type k) ≡ some (closed_state k)
    state_of by_completion = refl
    state_of by_abandonment = refl

-- A candidate that only adds files in the task's directory, one record of it at least, and records of
-- the task alone, of types that may follow its closing.
pub record IsExtended (k : Closing) (c : Candidate) (task : Text) : Type 0 where
  pub added : All (λ change. change.0 ≡ b'A') c.changes
  pub inside : All (λ change. starts_with change.1 (task_dir_prefix task) ≡ true) c.changes
  pub some_record : is_empty (added_records c) ≡ false
  pub following : All (IsFollowing k task) (added_records c)

IsFollowing-each :
    (k : Closing) (task : Text) (s : State) (paths : List Text)
    → s ≡ closed_state k
    → All (λ path. starts_with path (task_records_prefix task) ≡ true) paths
    → All (λ path. is_admitted_after_terminal (record_type_from_record_path path) s ≡ true) paths
    → All (IsFollowing k task) paths
unfolding is_admitted_after_terminal
IsFollowing-each k task s [] e h a = tt
IsFollowing-each k task s (path ∷ paths) e h a = (
  (
    h.0,
    follows k (named (record_type_from_record_path path))
        (subst (λ z. admitted_type (named (record_type_from_record_path path)) z ≡ true) e (a.0)),
  ),
  IsFollowing-each k task s paths e h.1 a.1,
)

-- Where the latest record of a task's life cycle on the base, by its path, is named as a completion or an
-- abandonment, the gate's first check leaves the transcript clear only for a candidate that adds files
-- alone, in the task's directory, and at least one record there, each named as a session or a check, or,
-- after a completion, as a reopening.
pub say_base-IsExtended :
    (rt : Runtime) (c : Candidate) (task : Text) (state : State) (t : Transcript) (k : Closing)
    (stem : Text)
    → IsClosedBy k c.base_tree task stem
    → is_clear (say_base rt c task state t) ≡ true
    → IsExtended k c task
say_base-IsExtended rt c task state t k stem closed h =
    let latest =
      latest-IsClosedBy k c.base_tree task stem closed
      ∙ ap some (sym (append_assoc (task_records_prefix task) stem (closing_name k))) in
    let is_closed =
      ap is_closing latest ∙ closing_is_closing k (task_records_prefix task ++ stem) in
    let a = say_base-IsAppended rt c task state t is_closed h in
    let reached : some a.terminal ≡ some (closed_state k) =
      sym a.reached
      ∙ ap terminal_state_at_base latest
      ∙ terminal_state-closing k (task_records_prefix task ++ stem) in
    record {
      added = All-map c.changes (λ change g. added_mark change g) a.added;
      inside = a.inside;
      some_record = a.some_record;
      following =
          IsFollowing-each k task a.terminal (added_records c) (same_state_of _ _ reached) a.placed
            a.admitted;
    }
