-- ===== src/Ulid/WellFormed.antt =====
-- src/agentmarshal/journal/records.py: `generate_ulid` against `_is_ulid`.
use agentmarshal.Common.{
  length, all, any, length-append, every_below, every_below-at, Text, text, contains, ℕ, zero, suc,
  ◌/◌, ◌%◌, ◌^◌, ◌<◌, ◌≡◌, refl, Bool, true, [], ◌∷◌, ◌++◌, arith,
}
use agentmarshal.Records.Patterns.{crockford_base32, first_in, is_ulid}
use agentmarshal.Ulid.Generate.{base32_digit, Clock, generate_pair, generate_ulid}
use agentmarshal.Ulid.Encoding.{digits32, encode_base32-digits32, length-digits32}

in_alphabet : ℕ → Bool
in_alphabet c = contains c crockford_base32

alphabet_table : every_below 32 (λ x. in_alphabet (base32_digit x)) ≡ true
unfolding every_below base32_digit in_alphabet contains any text
alphabet_table = refl

first_table : every_below 8 (λ x. contains (base32_digit x) (text "01234567")) ≡ true
unfolding every_below base32_digit contains any text
first_table = refl

all-append :
    (p : ℕ → Bool) (xs ys : Text) → all p xs ≡ true → all p ys ≡ true → all p (xs ++ ys) ≡ true
unfolding all
all-append p [] ys h k = k
all-append p (x ∷ xs) ys h k = ground (arith, all-append p xs ys)

digits32-in_alphabet : (n value : ℕ) → all in_alphabet (digits32 n value) ≡ true
unfolding digits32 all
digits32-in_alphabet zero value = refl
digits32-in_alphabet (suc n) value =
    all-append in_alphabet (digits32 n (value / 32)) _ (digits32-in_alphabet n (value / 32)) (
      ground (
        arith,
        every_below-at 32 (λ x. in_alphabet (base32_digit x)) (value % 32) alphabet_table
            (omega arith),
      ))

-- The first of ten digits is below 8 when the number is below 2 ^ 48.
first_digit :
    (value : ℕ) (tail : Text)
    → value < 2 ^ 48
    → first_in (digits32 10 value ++ tail) (text "01234567") ≡ true
unfolding digits32 first_in
first_digit value tail h =
    every_below-at 8 (λ x. contains (base32_digit x) (text "01234567")) _ first_table (omega arith)

digits-is_ulid : (t r : ℕ) → t < 2 ^ 48 → is_ulid (digits32 10 t ++ digits32 16 r) ≡ true
unfolding is_ulid
digits-is_ulid t r h =
    let long : length (digits32 10 t ++ digits32 16 r) ≡ 26 = omega (
      arith,
      length-append (digits32 10 t) (digits32 16 r),
      length-digits32 10 t,
      length-digits32 16 r,
    ) in
    let known : all in_alphabet (digits32 10 t ++ digits32 16 r) ≡ true =
      all-append in_alphabet (digits32 10 t) (digits32 16 r) (digits32-in_alphabet 10 t)
        (digits32-in_alphabet 16 r) in
    rw (long, first_digit t (digits32 16 r) h) (unfold in_alphabet in known)

-- A generated identifier is a ULID while its time fits in 48 bits.
pub generate_ulid-is_ulid :
    (now draw : ℕ) (c : Clock)
    → (generate_pair now draw c).0 < 2 ^ 48
    → is_ulid (generate_ulid now draw c).0 ≡ true
unfolding generate_ulid
generate_ulid-is_ulid now draw c h =
    let (t, r) = generate_pair now draw c in
    rw (encode_base32-digits32 t 10, encode_base32-digits32 r 16) (digits-is_ulid t r h)
