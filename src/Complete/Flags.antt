-- ===== src/Complete/Flags.antt =====
-- src/agentmarshal/journal/complete.py: what the flag values are split into.
use mathlib.Core.Path.{subst}
use agentmarshal.Common.{
  length, any, All, length-append, ok, guard, >>-ok, >>=-ok, Text, contains_text, starts_with,
  is_unique, text_eq_refl, leb, ◌==◌, if◌then◌else◌, Bool-cases, and-eq-true, ◌+◌, ◌≡◌, refl, sym,
  ◌⊎◌, inl, inr, Bool, true, false, not, ◌&&◌, ◌||◌, Option, none, some, List, [], ◌∷◌, ◌++◌, map,
  arith,
}
use agentmarshal.Contracts.HeaderFacts.{not-guard, older_only, not_later}
use agentmarshal.Complete.{
  FlagArgument, marked, is_longer, longest_from, longest_advisory_id_prefix, named_finding,
  split_from, split_flag_arguments,
}
use agentmarshal.Records.Patterns.{drop_text}

-- The longest id of these that the argument starts with followed by `=`.
pub record IsLongest (argument : Text) (ids : List Text) (finding_id : Text) : Type 0 where
  pub known : contains_text finding_id ids ≡ true
  pub prefix : starts_with argument (marked finding_id) ≡ true
  pub longest :
      All
        (λ other.
          (not (starts_with argument (marked other)) || leb (length other) (length finding_id))
          ≡ true)
        ids

at_most : Option Text → Text → Bool
at_most none r = true
at_most (some m) r = leb (length m) (length r)

-- The argument does not start with this id, or it is no longer than the one chosen.
fits : Text → Text → Text → Bool
fits argument r rival = not (starts_with argument (marked rival)) || leb (length rival) (length r)

same_choice : (a b : Text) → some a ≡ some b → b ≡ a
same_choice a b h = cc

-- The match that the loop starts with, or one of the ids that the argument starts with.
MatchOrigin : Text → Option Text → List Text → Text → Type 0
MatchOrigin argument m ids r =
    (m ≡ some r) ⊎ ((contains_text r ids ≡ true) × (starts_with argument (marked r) ≡ true))

-- Where the loop starts with this match, its result is that match or one of the ids.
record IsChosen (argument : Text) (m : Option Text) (ids : List Text) (r : Text) : Type 0 where
  origin : (m ≡ some r) ⊎ ((contains_text r ids ≡ true) × (starts_with argument (marked r) ≡ true))
  beats_match : at_most m r ≡ true
  beats_each : All (λ other. fits argument r other ≡ true) ids

longer_match :
    (id r : Text) (m : Option Text)
    → is_longer id m ≡ true
    → at_most (some id) r ≡ true
    → at_most m r ≡ true
unfolding at_most
longer_match id r none h k = refl
longer_match id r (some m) h k = ground (arith, h, k)

fits_replaced : (argument id r : Text) → at_most (some id) r ≡ true → fits argument r id ≡ true
unfolding at_most fits
fits_replaced argument id r h = ground (arith, h)

fits_kept :
    (argument id r : Text) (m : Option Text)
    → (starts_with argument (marked id) && is_longer id m) ≡ false
    → at_most m r ≡ true
    → fits argument r id ≡ true
unfolding at_most fits
fits_kept argument id r none h k = ground (arith, h)
fits_kept argument id r (some m) h k = ground (arith, h, k)

picked : (b : Bool) (x y z : Option Text) → b ≡ true → (if b then x else y) ≡ z → x ≡ z
picked true x y z e h = h
picked false x y z e h = cc

left_over : (b : Bool) (x y z : Option Text) → b ≡ false → (if b then x else y) ≡ z → y ≡ z
left_over true x y z e h = cc
left_over false x y z e h = h

own_match : (m : Option Text) (r : Text) → m ≡ some r → at_most m r ≡ true
unfolding at_most
own_match none r h = cc
own_match (some m) r h = rw (same_choice m r h) (ground arith)

taken_origin :
    (argument id : Text) (m : Option Text) (ids : List Text) (r : Text)
    → starts_with argument (marked id) ≡ true
    → MatchOrigin argument (some id) ids r
    → MatchOrigin argument m (id ∷ ids) r
unfolding MatchOrigin contains_text any
taken_origin argument id m ids r prefix (inl e) =
    inr (rw (same_choice id r e, text_eq_refl id) (refl, prefix))
taken_origin argument id m ids r prefix (inr (known, p)) = inr (rw known (ground arith), p)

kept_origin :
    (argument id : Text) (m : Option Text) (ids : List Text) (r : Text)
    → MatchOrigin argument m ids r
    → MatchOrigin argument m (id ∷ ids) r
unfolding MatchOrigin contains_text any
kept_origin argument id m ids r (inl e) = inl e
kept_origin argument id m ids r (inr (known, p)) = inr (rw known (ground arith), p)

longest_from-IsChosen :
    (argument : Text) (m : Option Text) (ids : List Text) (r : Text)
    → longest_from argument m ids ≡ some r
    → IsChosen argument m ids r
unfolding longest_from MatchOrigin
longest_from-IsChosen argument m [] r h = record {
  origin = inl h;
  beats_match = own_match m r h;
  beats_each = tt;
}
longest_from-IsChosen argument m (id ∷ ids) r h =
    elim (Bool-cases (starts_with argument (marked id) && is_longer id m)) [
      | inl taken ↦
          let (prefix, longer) =
            and-eq-true (starts_with argument (marked id)) (is_longer id m) taken in
          let c = longest_from-IsChosen argument (some id) ids r (picked _ _ _ _ taken h) in
          record {
            origin = taken_origin argument id m ids r prefix c.origin;
            beats_match = longer_match id r m longer c.beats_match;
            beats_each = (fits_replaced argument id r c.beats_match, c.beats_each);
          }
      | inr passed ↦
          let c = longest_from-IsChosen argument m ids r (left_over _ _ _ _ passed h) in
          record {
            origin = kept_origin argument id m ids r c.origin;
            beats_match = c.beats_match;
            beats_each = (fits_kept argument id r m passed c.beats_match, c.beats_each);
          }
    ]

-- The id that is found for an argument is one of the advisory ids, the argument starts with it followed
-- by `=`, and no longer one of them does.
pub longest_advisory_id_prefix-IsLongest :
    (argument : Text) (ids : List Text) (finding_id : Text)
    → longest_advisory_id_prefix argument ids ≡ some finding_id
    → IsLongest argument ids finding_id
unfolding longest_advisory_id_prefix MatchOrigin
longest_advisory_id_prefix-IsLongest argument ids finding_id h =
    let c = longest_from-IsChosen argument none ids finding_id h in
    let (known, prefix) = from_ids c.origin in
    record { known = known; prefix = prefix; longest = unfold fits in c.beats_each }
  where
    from_ids :
        MatchOrigin argument none ids finding_id
        → (contains_text finding_id ids ≡ true) × (starts_with argument (marked finding_id) ≡ true)
    from_ids (inl e) = cc
    from_ids (inr known) = known

-- The arguments are what the parsed ones spell, and the ids are advisory ids.
pub record IsSplit (ids : List Text) (argument : Text) (parsed : FlagArgument) : Type 0 where
  pub spelled : argument ≡ marked parsed.finding_id ++ parsed.value
  pub longest : IsLongest argument ids parsed.finding_id

-- Each argument with its parsed form, in order.
unfoldable pub AllSplit : List Text → List Text → List FlagArgument → Type 0
AllSplit ids [] [] = Unit {0}
AllSplit ids [] (p ∷ parsed) = ⊥
AllSplit ids (argument ∷ arguments) [] = ⊥
AllSplit ids (argument ∷ arguments) (p ∷ parsed) =
    IsSplit ids argument p × AllSplit ids arguments parsed

drop-prefix : (p s : Text) → starts_with s p ≡ true → s ≡ p ++ drop_text (length p) s
unfolding starts_with drop_text
drop-prefix [] s h = refl
drop-prefix (c ∷ p) [] h = cc
drop-prefix (c ∷ p) (d ∷ s) h =
    let (same, rest) = and-eq-true (d == c) (starts_with s p) h in
    let e : d ≡ c = ground (arith, same) in let t = drop-prefix p s rest in cc

same_parsed : (a b : List FlagArgument) → ok a ≡ ok b → b ≡ a
same_parsed a b h = cc

same_named : (f : Option Text) (id : Text) → named_finding f ≡ ok id → f ≡ some id
unfolding named_finding
same_named none id h = cc
same_named (some x) id h = cc

ids_of_parsed : List FlagArgument → List Text
ids_of_parsed parsed = map (λ p. p.finding_id) parsed

spelled_by :
    (argument id : Text)
    → starts_with argument (marked id) ≡ true
    → argument ≡ marked id ++ drop_text (length id + 1) argument
spelled_by argument id h =
    let n : length (marked id) ≡ length id + 1 = length-append id (b'=' ∷ []) in
    subst (λ k. argument ≡ marked id ++ drop_text k argument) n (drop-prefix (marked id) argument h)

-- What the loop has split, and that it names no id twice.
record IsSplitFrom (ids seen arguments : List Text) (parsed : List FlagArgument) : Type 0 where
  each_split : AllSplit ids arguments parsed
  new : All (λ id. contains_text id seen ≡ false) (ids_of_parsed parsed)
  unique : is_unique (ids_of_parsed parsed) ≡ true

split_from-IsSplitFrom :
    (flag : Text) (ids seen arguments : List Text) (parsed : List FlagArgument)
    → split_from flag ids seen arguments ≡ ok parsed
    → IsSplitFrom ids seen arguments parsed
unfolding split_from AllSplit ids_of_parsed is_unique
split_from-IsSplitFrom flag ids seen [] parsed h =
    subst (IsSplitFrom ids seen []) (sym (same_parsed [] parsed h))
      (record { each_split = tt; new = tt; unique = refl })
split_from-IsSplitFrom flag ids seen (argument ∷ arguments) parsed h =
    let (id, found, h1) = >>=-ok (named_finding (longest_advisory_id_prefix argument ids)) _ h in
    let (fresh, h2) = >>-ok (guard (not (contains_text id seen)) _) _ h1 in
    let (rest, later_ones, h3) = >>=-ok (split_from flag ids (id ∷ seen) arguments) _ h2 in
    let c = split_from-IsSplitFrom flag ids (id ∷ seen) arguments rest later_ones in
    let longest = longest_advisory_id_prefix-IsLongest argument ids id (same_named _ id found) in
    subst (IsSplitFrom ids seen (argument ∷ arguments)) (sym (same_parsed _ parsed h3)) (record {
      each_split = (
        record { spelled = spelled_by argument id longest.prefix; longest = longest },
        c.each_split,
      );
      new = (
        not-guard (contains_text id seen) _ fresh,
        older_only id seen (ids_of_parsed rest) c.new,
      );
      unique = rw (not_later id seen (ids_of_parsed rest) c.new) c.unique;
    })

-- Flag values that are split are, in order, each an advisory id, the longest that it can start with,
-- then `=` and its value; and no id is named twice.
pub split_flag_arguments-AllSplit :
    (flag : Text) (arguments ids : List Text) (parsed : List FlagArgument)
    → split_flag_arguments flag arguments ids ≡ ok parsed
    → AllSplit ids arguments parsed × (is_unique (map (λ p. p.finding_id) parsed) ≡ true)
unfolding split_flag_arguments ids_of_parsed
split_flag_arguments-AllSplit flag arguments ids parsed h =
    let c = split_from-IsSplitFrom flag ids [] arguments parsed h in (c.each_split, c.unique)
