-- ===== src/Gate/Diff/RoundTrip.antt =====
-- src/agentmarshal/journal/gate.py: the entries of a diff, as git writes them and as they are read.
use agentmarshal.Common.{
  all, any, is_empty, ok, Text, contains, ◌==◌, and-eq-true, or-eq-false, ℕ, ◌≡◌, refl, Bool, true,
  false, not, ◌&&◌, ◌||◌, List, [], ◌∷◌, ◌++◌, arith,
}
use agentmarshal.Gate.Texts.{select, split, tokens_of}
use agentmarshal.Gate.Diff.{letter, is_move, moved, changed_pairs, changed_with_status}

-- An entry: a rename or a copy with its score, or a letter with what follows it and a path.
pub data Change : Type 0 where
  renamed : Text → Text → Text → Change
  copied : Text → Text → Text → Change
  touched : ℕ → Text → Text → Change

unfoldable pub written : Change → List Text
written (renamed score source destination) = (b'R' ∷ score) ∷ source ∷ destination ∷ []
written (copied score source destination) = (b'C' ∷ score) ∷ source ∷ destination ∷ []
written (touched c score path) = (c ∷ score) ∷ path ∷ []

-- A rename removes its source and adds its destination; a copy adds only.
unfoldable pub meant : Change → List (ℕ × Text)
meant (renamed score source destination) = (b'D', source) ∷ (b'A', destination) ∷ []
meant (copied score source destination) = (b'A', destination) ∷ []
meant (touched c score path) = (c, path) ∷ []

-- Another letter than those of a rename and a copy.
unfoldable pub is_plain : Change → Bool
is_plain (touched c score path) = not ((c == b'R') || (c == b'C'))
is_plain _ = true

unfoldable pub tokens : List Change → List Text
unfolding written
tokens [] = []
tokens (c ∷ cs) = written c ++ tokens cs

unfoldable pub meanings : List Change → List (ℕ × Text)
unfolding meant
meanings [] = []
meanings (c ∷ cs) = meant c ++ meanings cs

-- Each token, with a NUL after it.
unfoldable pub ended : List Text → Text
ended [] = []
ended (t ∷ ts) = t ++ (0 ∷ ended ts)

-- What git guarantees of a token: it is not empty and holds no NUL.
unfoldable pub is_token : Text → Bool
unfolding is_empty contains
is_token t = not (is_empty t) && not (contains 0 t)

split-token : (t s : Text) → contains 0 t ≡ false → split 0 (t ++ (0 ∷ s)) ≡ t ∷ split 0 s
unfolding split contains any
split-token [] s h = refl
split-token (c ∷ t) s h =
    let (hc, ht) = or-eq-false (c == 0) (any (λ x. x == 0) t) h in rw (hc, split-token t s ht) refl

tokens_of-ended : (ts : List Text) → all is_token ts ≡ true → tokens_of (ended ts) ≡ ts
unfolding tokens_of ended select split all is_token
tokens_of-ended [] h = unfold is_empty in refl
tokens_of-ended (t ∷ ts) h =
    let (ht, hts) = and-eq-true (is_token t) (all is_token ts) h in
    let (given, clean) = and-eq-true (not (is_empty t)) (not (contains 0 t)) ht in
    rw (split-token t (ended ts) (ground (arith, clean)), given, tokens_of-ended ts hts) refl

same_pairs : (a b : List (ℕ × Text)) → ok a ≡ ok b → b ≡ a
same_pairs a b h = cc

plain_pair :
    (status path : Text) (ts : List Text) (pairs : List (ℕ × Text))
    → is_move status ≡ false
    → changed_pairs ts ≡ ok pairs
    → changed_pairs (status ∷ path ∷ ts) ≡ ok ((letter status, path) ∷ pairs)
unfolding changed_pairs
plain_pair status path [] pairs h e = rw (h, same_pairs [] pairs e) refl
plain_pair status path (next ∷ ts) pairs h e = rw (h, e) refl

pairs_of :
    (cs : List Change) → all is_plain cs ≡ true → changed_pairs (tokens cs) ≡ ok (meanings cs)
unfolding changed_pairs tokens meanings written meant all is_plain is_move moved
pairs_of [] h = refl
pairs_of (renamed score source destination ∷ cs) h = rw (pairs_of cs h) refl
pairs_of (copied score source destination ∷ cs) h = rw (pairs_of cs h) refl
pairs_of (touched c score path ∷ cs) h =
    let (hc, hs) = and-eq-true (is_plain (touched c score path)) (all is_plain cs) h in
    plain_pair (c ∷ score) path (tokens cs) (meanings cs) (ground (arith, hc)) (pairs_of cs hs)

-- The output of git for entries of a diff, whose tokens are not empty and hold no NUL, reads back as
-- what the entries mean: a rename as the removal of its source and the addition of its destination, a
-- copy as an addition, any other as its letter and its path.
pub changed_with_status-ended :
    (cs : List Change)
    → all is_token (tokens cs) ≡ true
    → all is_plain cs ≡ true
    → changed_with_status (ended (tokens cs)) ≡ ok (meanings cs)
unfolding changed_with_status
changed_with_status-ended cs clean others =
    rw (tokens_of-ended (tokens cs) clean) (pairs_of cs others)
