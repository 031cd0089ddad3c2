-- ===== src/Ulid/Encoding.antt =====
-- src/agentmarshal/journal/records.py: `_encode_base32` against the digits of a number.
use native.Mathlib.Nat.{pow-suc}
use mathlib.Core.List.{append_assoc, append-nil}
use agentmarshal.Common.{
  length, length-append, every_below, every_below-at, Text, ltb, ◌==◌, ltb→lt, Bool-cases, ℕ, zero,
  suc, ◌/◌, ◌%◌, ◌^◌, ◌<◌, ◌≡◌, refl, sym, ◌∙◌, inl, inr, Bool, true, false, ◌&&◌, ◌||◌, [], ◌∷◌,
  ◌++◌, arith,
}
use agentmarshal.Ulid.Generate.{base32_digit, encode_from, encode_base32}

-- The digits of a number in base 32, most significant first: what the loop computes.
unfoldable pub digits32 : ℕ → ℕ → Text
digits32 zero value = []
digits32 (suc n) value = digits32 n (value / 32) ++ base32_digit (value % 32) ∷ []

encode_from-digits32 :
    (n value : ℕ) (tail : Text) → encode_from n value tail ≡ digits32 n value ++ tail
unfolding encode_from digits32
encode_from-digits32 zero value tail = refl
encode_from-digits32 (suc n) value tail =
    encode_from-digits32 n (value / 32) (base32_digit (value % 32) ∷ tail)
    ∙ sym (append_assoc (digits32 n (value / 32)) (base32_digit (value % 32) ∷ []) tail)

pub encode_base32-digits32 : (value n : ℕ) → encode_base32 value n ≡ digits32 n value
unfolding encode_base32
encode_base32-digits32 value n = encode_from-digits32 n value [] ∙ append-nil (digits32 n value)

-- The order of texts by code points, which is Python's order of strings.
unfoldable pub text_lt : Text → Text → Bool
text_lt [] [] = false
text_lt [] (y ∷ ys) = true
text_lt (x ∷ xs) [] = false
text_lt (x ∷ xs) (y ∷ ys) = ltb x y || ((x == y) && text_lt xs ys)

pub text_lt-append_left :
    (xs ys us vs : Text)
    → length xs ≡ length ys
    → text_lt xs ys ≡ true
    → text_lt (xs ++ us) (ys ++ vs) ≡ true
unfolding text_lt
text_lt-append_left [] [] us vs e h = cc
text_lt-append_left [] (y ∷ ys) us vs e h = absurd (omega arith)
text_lt-append_left (x ∷ xs) [] us vs e h = cc
text_lt-append_left (x ∷ xs) (y ∷ ys) us vs e h = ground (arith, text_lt-append_left xs ys us vs)

pub text_lt-append_same :
    (xs us vs : Text) → text_lt us vs ≡ true → text_lt (xs ++ us) (xs ++ vs) ≡ true
unfolding text_lt
text_lt-append_same [] us vs h = h
text_lt-append_same (x ∷ xs) us vs h = ground (arith, text_lt-append_same xs us vs h)

pub length-digits32 : (n value : ℕ) → length (digits32 n value) ≡ n
unfolding digits32
length-digits32 zero value = refl
length-digits32 (suc n) value = omega (
  arith,
  length-append (digits32 n (value / 32)) (base32_digit (value % 32) ∷ []),
  length-digits32 n (value / 32),
)

alphabet_rises : every_below 31 (λ x. ltb (base32_digit x) (base32_digit (suc x))) ≡ true
unfolding every_below base32_digit
alphabet_rises = refl

digit_step : (x : ℕ) → x < 31 → base32_digit x < base32_digit (suc x)
digit_step x h = ltb→lt _ _ (every_below-at 31 _ x alphabet_rises h)

-- The alphabet is in the order of the code points.
base32_digit_mono : (x y : ℕ) → x < y → y < 32 → base32_digit x < base32_digit y
base32_digit_mono x zero h lt = absurd (omega arith)
base32_digit_mono x (suc y) h lt = elim (Bool-cases (ltb x y)) [
  | inl below ↦
      omega
        (arith, base32_digit_mono x y (ltb→lt x y below) (omega arith), digit_step y (omega arith))
  | inr last ↦ let e : x ≡ y = ground arith in rw e (digit_step y (omega arith))
]

last_digit_lt :
    (x y : ℕ) → x < y → y < 32 → text_lt (base32_digit x ∷ []) (base32_digit y ∷ []) ≡ true
unfolding text_lt
last_digit_lt x y h lt = ground (arith, base32_digit_mono x y h lt)

-- Of two numbers that fit in `n` digits, the smaller has the smaller text.
pub digits32_mono : (n a b : ℕ) → a < b → b < 32 ^ n → text_lt (digits32 n a) (digits32 n b) ≡ true
unfolding digits32
digits32_mono zero a b h lt = absurd (omega arith)
digits32_mono (suc n) a b h lt =
    let fits : b / 32 < 32 ^ n = omega (arith, pow-suc 32 n) in
    elim (Bool-cases (ltb (a / 32) (b / 32))) [
      | inl below ↦
          text_lt-append_left (digits32 n (a / 32)) (digits32 n (b / 32)) _ _
            (length-digits32 n (a / 32) ∙ sym (length-digits32 n (b / 32)))
            (digits32_mono n (a / 32) (b / 32) (ltb→lt _ _ below) fits)
      | inr same ↦
          let e : a / 32 ≡ b / 32 = ground arith in
          rw e (
            text_lt-append_same (digits32 n (b / 32)) _ _
              (last_digit_lt (a % 32) (b % 32) (omega arith) (omega arith)))
    ]

-- The same of what the loop writes.
pub length-encode : (value n : ℕ) → length (encode_base32 value n) ≡ n
length-encode value n = rw encode_base32-digits32 (length-digits32 n value)

pub encode_mono :
    (n a b : ℕ) → a < b → b < 32 ^ n → text_lt (encode_base32 a n) (encode_base32 b n) ≡ true
encode_mono n a b h lt = simp encode_base32-digits32 (digits32_mono n a b h lt)
