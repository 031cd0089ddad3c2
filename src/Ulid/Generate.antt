-- ===== src/Ulid/Generate.antt =====
-- src/agentmarshal/journal/records.py: `_encode_base32` and `generate_ulid`.
use agentmarshal.Common.{
  length, Text, text, ltb, if◌then◌else◌, ℕ, zero, suc, ◌+◌, ◌-◌, ◌/◌, ◌%◌, ◌^◌, Option, none, some,
  [], ◌∷◌, ◌++◌,
}
use agentmarshal.Records.Patterns.{crockford_base32}

-- `_CROCKFORD_BASE32[digit]`, for a digit below 32
unfoldable pub nth_character : Text → ℕ → ℕ
nth_character [] n = 0
nth_character (c ∷ s) zero = c
nth_character (c ∷ s) (suc n) = nth_character s n

unfoldable pub base32_digit : ℕ → ℕ
unfolding nth_character text
base32_digit n = nth_character crockford_base32 n

-- The loop fills the characters from the last index down; `value & 31` is `value % 32` and
-- `value >>= 5` is `value / 32`.
unfoldable pub encode_from : ℕ → ℕ → Text → Text
encode_from zero value characters = characters
encode_from (suc index) value characters =
    encode_from index (value / 32) (base32_digit (value % 32) ∷ characters)

unfoldable pub encode_base32 : ℕ → ℕ → Text
unfolding encode_from
encode_base32 value length = encode_from length value []

-- `_last_timestamp` and `_last_randomness`. The source starts the first at -1, which is below every
-- time: here `none`.
pub record Clock : Type 0 where
  pub last_timestamp : Option ℕ
  pub last_randomness : ℕ

abbrev pub start : Clock
start = record { last_timestamp = none; last_randomness = 0 }

abbrev pub ulid_random_mask : ℕ
ulid_random_mask = 2 ^ 80 - 1

-- The pair that a call takes, with `time.time_ns() // 1_000_000` and the two draws of
-- `secrets.randbits(80)` given; at most one of the draws is made.
next_pair : ℕ → ℕ → Option ℕ → ℕ → ℕ × ℕ
next_pair now draw none randomness = (now, draw)
next_pair now draw (some timestamp) randomness =
    if ltb timestamp now
    then (now, draw)
    else if ltb ulid_random_mask (randomness + 1)
    then (timestamp + 1, draw)
    else (timestamp, randomness + 1)

unfoldable pub generate_pair : ℕ → ℕ → Clock → ℕ × ℕ
unfolding next_pair
generate_pair now draw c = next_pair now draw c.last_timestamp c.last_randomness

unfoldable pub generate_ulid : ℕ → ℕ → Clock → Text × Clock
generate_ulid now draw c =
    let (timestamp, randomness) = generate_pair now draw c in
    (
      encode_base32 timestamp 10 ++ encode_base32 randomness 16,
      record { last_timestamp = some timestamp; last_randomness = randomness },
    )
