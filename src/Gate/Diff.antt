-- ===== src/Gate/Diff.antt =====
-- src/agentmarshal/journal/gate.py: `_changed_with_status`, from the output of
-- `git diff --name-status -z`.
use agentmarshal.Common.{
  Error, gate_refused, Result, ok, err, ◌>>=◌, Text, ◌==◌, if◌then◌else◌, ℕ, Bool, ◌||◌, List, [],
  ◌∷◌,
}
use agentmarshal.Gate.Texts.{tokens_of}
pub mod RoundTrip

-- `status[0]`, of a token, which is not empty
abbrev pub letter : Text → ℕ
letter [] = 0
letter (c ∷ s) = c

-- `status[0] in "RC"`
unfoldable pub is_move : Text → Bool
is_move status = (letter status == b'R') || (letter status == b'C')

abbrev unparseable_rename : Error
unparseable_rename = gate_refused "unparseable rename entry in candidate diff"

abbrev unparseable_entry : Error
unparseable_entry = gate_refused "unparseable entry in candidate diff"

-- The pairs of an entry with two paths, before those of the rest.
unfoldable pub moved : Text → Text → Text → List (ℕ × Text) → List (ℕ × Text)
moved status source destination pairs =
    if letter status == b'R'
    then (b'D', source) ∷ (b'A', destination) ∷ pairs
    else (b'A', destination) ∷ pairs

-- The loop over the tokens.
unfoldable pub changed_pairs : List Text → Result (List (ℕ × Text))
unfolding is_move moved
changed_pairs [] = ok []
changed_pairs (status ∷ []) =
    if is_move status then err unparseable_rename else err unparseable_entry
changed_pairs (status ∷ path ∷ []) =
    if is_move status then err unparseable_rename else ok ((letter status, path) ∷ [])
changed_pairs (status ∷ path ∷ next ∷ tokens) =
    let one = changed_pairs (next ∷ tokens) in
    let two = changed_pairs tokens in
    if is_move status
    then (two >>= λ pairs. ok (moved status path next pairs))
    else (one >>= λ pairs. ok ((letter status, path) ∷ pairs))

unfoldable pub changed_with_status : Text → Result (List (ℕ × Text))
unfolding changed_pairs tokens_of
changed_with_status output = changed_pairs (tokens_of output)
