-- ===== src/Ulid/Monotone.antt =====
-- src/agentmarshal/journal/records.py: the order of the identifiers that `generate_ulid` gives.
use agentmarshal.Common.{
  length, All, All-map, Text, ℕ, ◌+◌, ◌^◌, ◌≤◌, ◌<◌, ◌≡◌, refl, sym, ◌∙◌, ◌⊎◌, inl, inr, true, some,
  List, [], ◌∷◌, ◌++◌, arith,
}
use agentmarshal.Ulid.Generate.{encode_base32, Clock, generate_pair, generate_ulid}
use agentmarshal.Ulid.Encoding.{
  text_lt, text_lt-append_left, text_lt-append_same, length-encode, encode_mono,
}

-- 80 bits are 16 digits, and 10 digits hold a timestamp below 2 ^ 50.
abbrev pub IsClock : Clock → Type 0
IsClock c = c.last_randomness < 2 ^ 80

-- The identifier of the last call.
abbrev pub last_ulid : ℕ → ℕ → Text
last_ulid timestamp randomness = encode_base32 timestamp 10 ++ encode_base32 randomness 16

ulid_order :
    (t r t' r' : ℕ)
    → t' < 2 ^ 50
    → r' < 2 ^ 80
    → (t < t') ⊎ ((t ≡ t') × (r < r'))
    → text_lt (last_ulid t r) (last_ulid t' r') ≡ true
ulid_order t r t' r' ht hr (inl lt) =
    text_lt-append_left (encode_base32 t 10) (encode_base32 t' 10) _ _
      (length-encode t 10 ∙ sym (length-encode t' 10)) (encode_mono 10 t t' lt ht)
ulid_order t r t' r' ht hr (inr (e, lt)) =
    rw e (text_lt-append_same (encode_base32 t' 10) _ _ (encode_mono 16 r r' lt hr))

module _ (now draw : ℕ) (c : Clock) (fits : draw < 2 ^ 80) (v : IsClock c) where
  generate_pair-fits : (generate_pair now draw c).1 < 2 ^ 80
  unfolding generate_pair
  generate_pair-fits = ground arith

  -- The pair rises in lexicographic order.
  generate_pair-rises :
      (timestamp : ℕ)
      → c.last_timestamp ≡ some timestamp
      → (timestamp < (generate_pair now draw c).0)
        ⊎ ((timestamp ≡ (generate_pair now draw c).0)
            × (c.last_randomness < (generate_pair now draw c).1))
  unfolding generate_pair
  generate_pair-rises timestamp e = ground arith

  -- A call keeps the randomness within 80 bits.
  pub generate_ulid-IsClock : IsClock (generate_ulid now draw c).1
  unfolding generate_ulid
  generate_ulid-IsClock = generate_pair-fits

  -- The identifier of a call comes after that of the call before it, while times fit in 50 bits.
  pub next_ulid_is_later :
      (timestamp : ℕ)
      → c.last_timestamp ≡ some timestamp
      → (generate_pair now draw c).0 < 2 ^ 50
      → text_lt (last_ulid timestamp c.last_randomness) (generate_ulid now draw c).0 ≡ true
  unfolding generate_ulid
  next_ulid_is_later timestamp e fits_time =
      ulid_order timestamp c.last_randomness (generate_pair now draw c).0
        (generate_pair now draw c).1 fits_time generate_pair-fits (generate_pair-rises timestamp e)

-- The calls of `generate_ulid` with the given times and draws, and their identifiers in order.
unfoldable pub ulids : List (ℕ × ℕ) → Clock → List Text
ulids [] c = []
ulids ((now, draw) ∷ calls) c = let (u, c') = generate_ulid now draw c in u ∷ ulids calls c'

-- Each text comes before the next one.
abbrev pub Rises : Text → List Text → Type 0
Rises u [] = Unit
Rises u (v ∷ vs) = (text_lt u v ≡ true) × Rises v vs

-- Every time is below the bound and every draw fits in 80 bits.
abbrev pub IsCall : ℕ → ℕ × ℕ → Type 0
IsCall limit call = (call.0 < limit) × (call.1 < 2 ^ 80)

generate_pair-time :
    (now draw timestamp limit : ℕ) (c : Clock)
    → c.last_timestamp ≡ some timestamp
    → now < limit
    → timestamp < limit
    → (generate_pair now draw c).0 ≤ limit
unfolding generate_pair
generate_pair-time now draw timestamp limit c e hn ht = ground arith

-- However the system's clock jumps, back too, the identifiers of successive calls rise, from that
-- of the call before them on, as long as the draws fit in 80 bits and the times and the number of
-- calls stay within 50 bits.
pub ulids-Rises :
    (calls : List (ℕ × ℕ)) (timestamp randomness limit : ℕ)
    → randomness < 2 ^ 80
    → timestamp < limit
    → limit + length calls ≤ 2 ^ 50
    → All (IsCall limit) calls
    → Rises
        (last_ulid timestamp randomness)
        (ulids calls (record { last_timestamp = some timestamp; last_randomness = randomness }))
unfolding ulids generate_ulid
ulids-Rises [] timestamp randomness limit hr ht hl h = tt
ulids-Rises ((now, draw) ∷ calls) timestamp randomness limit hr ht hl h =
    let c : Clock = record { last_timestamp = some timestamp; last_randomness = randomness } in
    let (t', r') = generate_pair now draw c in
    let on_time : (generate_pair now draw c).0 ≤ limit =
      generate_pair-time now draw timestamp limit c refl h.0.0 ht in
    (
      next_ulid_is_later now draw c h.0.1 hr timestamp refl (omega arith),
      ulids-Rises calls t' r' (limit + 1) (generate_pair-fits now draw c h.0.1 hr) (omega arith)
          (omega arith) (All-map calls (λ call g. (omega arith, g.1)) h.1),
    )
