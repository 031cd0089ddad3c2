-- ===== src/Registry.antt =====
-- src/agentmarshal/journal/attestation.py: the one registry of journal record types.
-- The keys of `RECORD_TYPES` are a data type; `name` gives the key's text and `named` reads it.
use agentmarshal.Common.{
  Text, text, text_eq, if◌then◌else◌, String, ◌≡◌, refl, Bool, true, false, Option, none, some,
  List, [], ◌∷◌,
}

pub data RecordType : Type 0 where
  opened review acceptance completed abandoned reopened amendment : RecordType
  session finding check agreement acknowledgement ext : RecordType

pub data State : Type 0 where
  open_state done_state abandoned_state : State

pub record RecordTypeSpec : Type 0 where
  pub predicate_type : String
  pub projects_to : Option State
  pub admitted_after_terminal : List State
  pub writable : Bool
  pub requires_recorded_by : Bool

-- The dataclass's defaults.
abbrev spec_of : String → Option State → RecordTypeSpec
spec_of uri state = record {
  predicate_type = uri;
  projects_to = state;
  admitted_after_terminal = [];
  writable = true;
  requires_recorded_by = false;
}

unfoldable pub record_types : RecordType → RecordTypeSpec
record_types opened = spec_of "https://agentmarshal.dev/attestations/opening/v1" (some open_state)
record_types review = spec_of "https://agentmarshal.dev/attestations/review/v1" none
record_types acceptance = spec_of "https://agentmarshal.dev/attestations/acceptance/v1" none
record_types completed =
    spec_of "https://agentmarshal.dev/attestations/completion/v1" (some done_state)
record_types abandoned =
    spec_of "https://agentmarshal.dev/attestations/abandonment/v1" (some abandoned_state)
record_types reopened =
    let s = spec_of "https://agentmarshal.dev/attestations/reopening/v1" (some open_state) in
    record s { admitted_after_terminal = done_state ∷ [] }
record_types amendment = spec_of "https://agentmarshal.dev/attestations/amendment/v1" none
record_types session =
    let s = spec_of "https://agentmarshal.dev/attestations/session/v1" none in
    record s { admitted_after_terminal = done_state ∷ abandoned_state ∷ [] }
record_types finding =
    let s = spec_of "https://agentmarshal.dev/attestations/finding/v1" none in
    record s { requires_recorded_by = true }
record_types check =
    let s = spec_of "https://agentmarshal.dev/attestations/check/v1" none in
    record s {
      admitted_after_terminal = done_state ∷ abandoned_state ∷ [];
      requires_recorded_by = true;
    }
record_types agreement =
    let s = spec_of "https://agentmarshal.dev/attestations/agreement/v1" none in
    record s { requires_recorded_by = true }
record_types acknowledgement =
    let s = spec_of "https://agentmarshal.dev/attestations/acknowledgement/v1" none in
    record s { requires_recorded_by = true }
record_types ext =
    let s = spec_of "https://agentmarshal.dev/attestations/ext/v1" none in
    record s { requires_recorded_by = true }

unfoldable pub name : RecordType → String
name opened = "opened"
name review = "review"
name acceptance = "acceptance"
name completed = "completed"
name abandoned = "abandoned"
name reopened = "reopened"
name amendment = "amendment"
name session = "session"
name finding = "finding"
name check = "check"
name agreement = "agreement"
name acknowledgement = "acknowledgement"
name ext = "ext"

abbrev pub registered : List RecordType
registered =
    opened ∷ review ∷ acceptance ∷ completed ∷ abandoned ∷ reopened ∷ amendment ∷ session ∷ finding
    ∷ check ∷ agreement ∷ acknowledgement ∷ ext ∷ []

named_in : List RecordType → Text → Option RecordType
named_in [] s = none
named_in (t ∷ ts) s = if text_eq (text (name t)) s then some t else named_in ts s

-- `RECORD_TYPES.get(record_type)`, as the key that is found
unfoldable pub named : Text → Option RecordType
unfolding named_in name text text_eq
named s = named_in registered s

unfoldable pub same_type : RecordType → RecordType → Bool
same_type opened opened = true
same_type review review = true
same_type acceptance acceptance = true
same_type completed completed = true
same_type abandoned abandoned = true
same_type reopened reopened = true
same_type amendment amendment = true
same_type session session = true
same_type finding finding = true
same_type check check = true
same_type agreement agreement = true
same_type acknowledgement acknowledgement = true
same_type ext ext = true
same_type _ _ = false

unfoldable pub same_state : State → State → Bool
same_state open_state open_state = true
same_state done_state done_state = true
same_state abandoned_state abandoned_state = true
same_state _ _ = false

unfoldable pub includes : List State → State → Bool
unfolding same_state
includes [] s = false
includes (t ∷ ts) s = if same_state t s then true else includes ts s

abbrev pub is_registered : Option RecordType → Bool
is_registered none = false
is_registered (some t) = true

unfoldable pub is_registered_record_type : Text → Bool
is_registered_record_type s = is_registered (named s)

-- The registry's names are read back as the types that they name.
pub named-name : (t : RecordType) → named (text (name t)) ≡ some t
unfolding named
named-name opened = refl
named-name review = refl
named-name acceptance = refl
named-name completed = refl
named-name abandoned = refl
named-name reopened = refl
named-name amendment = refl
named-name session = refl
named-name finding = refl
named-name check = refl
named-name agreement = refl
named-name acknowledgement = refl
named-name ext = refl
