-- ===== src/Gate/Base/Closed.antt =====
-- src/agentmarshal/journal/gate.py: which task is closed on the base tree, by the names of its records
-- there, and which records may follow.
use agentmarshal.Common.{
  any, is_empty, All, Text, text, contains, starts_with, leb→le, Bool-cases, ◌≡◌, refl, sym, ap,
  ◌∙◌, ◌⊎◌, inl, inr, Bool, true, false, ◌||◌, Option, none, some, List, [], ◌∷◌, ◌++◌, arith,
}
use agentmarshal.Registry.{
  RecordType, reopened, session, check, State, done_state, abandoned_state, record_types, named,
}
use agentmarshal.Ulid.Encoding.{text_lt}
use agentmarshal.Status.Projection.{admitted_after}
use agentmarshal.Gate.Texts.{after_last, drop_suffix, or_text, ends_with}
use agentmarshal.Gate.Texts.Suffixes.{
  ends_with-append, drop_suffix-append, ends_with-rest, after_last-append, after_last-separator,
}
use agentmarshal.Gate.Paths.{record_type_from_record_path}
use agentmarshal.Gate.Base.{task_records_prefix, is_lifecycle_path, is_closing, admitted_type}
use mathlib.Core.List.{Memᴰ, append_assoc}

pub data Closing : Type 0 where
  by_completion by_abandonment : Closing

abbrev pub closing_type : Closing → Text
closing_type by_completion = text "completed"
closing_type by_abandonment = text "abandoned"

abbrev pub closed_state : Closing → State
closed_state by_completion = done_state
closed_state by_abandonment = abandoned_state

-- The file of a record that opens or closes a task again, by its name.
pub data IsLifecycleName (name : Text) : Type 0 where
  of_closing :
      (k : Closing) (stem : Text)
      → name ≡ stem ++ (b'-' ∷ (closing_type k ++ text ".json"))
      → IsLifecycleName name
  of_reopening : (stem : Text) → name ≡ stem ++ text "-reopened.json" → IsLifecycleName name

-- The base tree has the record of the task's closing, and no record of the task's life cycle whose path
-- is beyond it in the order of texts.
pub record IsClosedBy (k : Closing) (base_tree : List Text) (task stem : Text) : Type 0 where
  pub present :
      Memᴰ
        (task_records_prefix task ++ (stem ++ (b'-' ∷ (closing_type k ++ text ".json"))))
        base_tree
  pub latest :
      All
        (λ path.
          (text_lt
              (task_records_prefix task ++ (stem ++ (b'-' ∷ (closing_type k ++ text ".json"))))
              path
            ≡ false)
          ⊎ ((starts_with path (task_records_prefix task) ≡ false) ⊎ (¬ IsLifecycleName path)))
        base_tree

-- The types of the records that may follow a closing.
pub data MayFollow : Closing → RecordType → Type 0 where
  a_session : {k : Closing} → MayFollow k session
  a_check : {k : Closing} → MayFollow k check
  a_reopening : MayFollow by_completion reopened

-- A record's path in the directory of the task's records, which ends in the name of such a type.
abbrev pub IsFollowing : Closing → Text → Text → Type 0
IsFollowing k task path =
    (starts_with path (task_records_prefix task) ≡ true)
    × ((t : RecordType) × (named (record_type_from_record_path path) ≡ some t) × MayFollow k t)

abbrev pub closing_name : Closing → Text
closing_name k = b'-' ∷ (closing_type k ++ text ".json")

or_true : (b : Bool) → (b || true) ≡ true
or_true b = ground arith

type_of_file :
    (b w file : Text)
    → contains b'-' w ≡ false
    → file ≡ (b ++ (b'-' ∷ w)) ++ text ".json"
    → after_last b'-' (or_text (drop_suffix (text ".json") file) file) ≡ w
unfolding or_text drop_suffix text
type_of_file b w file h e =
    ap (λ f. after_last b'-' (or_text (drop_suffix (text ".json") f) f)) e
    ∙ ap (λ o. after_last b'-' (or_text o ((b ++ (b'-' ∷ w)) ++ text ".json")))
        (drop_suffix-append (b ++ (b'-' ∷ w)) (text ".json") json_dropped)
    ∙ after_last-separator b'-' b w h
  where
    json_dropped : drop_suffix (text ".json") (text ".json") ≡ some []
    json_dropped = refl

pub record_type-closing :
    (k : Closing) (front : Text)
    → record_type_from_record_path (front ++ closing_name k) ≡ closing_type k
unfolding record_type_from_record_path contains any
record_type-closing k front =
    let (b, e) = after_last-append b'/' front (closing_name k) (no_slash k) in
    type_of_file b (closing_type k) _ (no_dash k)
      (e ∙ sym (append_assoc b (b'-' ∷ closing_type k) (text ".json")))
  where
    no_slash : (k : Closing) → contains b'/' (closing_name k) ≡ false
    no_slash by_completion = refl
    no_slash by_abandonment = refl

    no_dash : (k : Closing) → contains b'-' (closing_type k) ≡ false
    no_dash by_completion = refl
    no_dash by_abandonment = refl

pub closing_is_lifecycle :
    (k : Closing) (front : Text) → is_lifecycle_path (front ++ closing_name k) ≡ true
unfolding is_lifecycle_path
closing_is_lifecycle by_completion front =
    let own =
      ends_with-append front (closing_name by_completion) (text "-completed.json")
        (leb→le _ _ refl) in
    rw own refl
closing_is_lifecycle by_abandonment front =
    let own =
      ends_with-append front (closing_name by_abandonment) (text "-abandoned.json")
        (leb→le _ _ refl) in
    rw own (or_true _)

pub closing_is_closing :
    (k : Closing) (front : Text) → is_closing (some (front ++ closing_name k)) ≡ true
unfolding is_closing is_empty
closing_is_closing by_completion front =
    rw
      (ends_with-append front (closing_name by_completion) (text "-reopened.json")
        (leb→le _ _ refl))
      refl
closing_is_closing by_abandonment front =
    rw
      (ends_with-append front (closing_name by_abandonment) (text "-reopened.json")
        (leb→le _ _ refl))
      refl

pub lifecycle-IsLifecycleName : (path : Text) → is_lifecycle_path path ≡ true → IsLifecycleName path
unfolding is_lifecycle_path
lifecycle-IsLifecycleName path h = elim (Bool-cases (ends_with path (text "-completed.json"))) [
  | inl done ↦
      let (stem, e) = ends_with-rest path (text "-completed.json") done in
      of_closing by_completion stem e
  | inr open_still ↦ elim (Bool-cases (ends_with path (text "-abandoned.json"))) [
    | inl left ↦
        let (stem, e) = ends_with-rest path (text "-abandoned.json") left in
        of_closing by_abandonment stem e
    | inr kept ↦
        let (stem, e) =
          ends_with-rest path (text "-reopened.json") (third _ _ _ h open_still kept) in
        of_reopening stem e
  ]
]
  where
    third : (a b c : Bool) → (a || (b || c)) ≡ true → a ≡ false → b ≡ false → c ≡ true
    third a b c h x y = ground (arith, h, x, y)

pub follows :
    (k : Closing) (o : Option RecordType)
    → admitted_type o (closed_state k) ≡ true
    → (t : RecordType) × (o ≡ some t) × MayFollow k t
unfolding admitted_after record_types
follows k none h = cc
follows k (some session) h = (session, refl, a_session)
follows k (some check) h = (check, refl, a_check)
follows by_completion (some reopened) h = (reopened, refl, a_reopening)
follows by_completion (some _) h = cc
follows by_abandonment (some _) h = cc
