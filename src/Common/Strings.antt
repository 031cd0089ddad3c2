-- ===== src/Common/Strings.antt =====
-- Python's `str` as its list of code points, lone surrogates included.
use Prim.Native.Nat.{ℕ}
use Prim.Native.String.{String}
use Prim.Native.Char.{code}
use mathlib.Core.Path.{◌≡◌, refl}
use mathlib.Core.Bool.{Bool, true, false, not, ◌&&◌}
use mathlib.Core.List.{List, [], ◌∷◌}
use native.Mathlib.Omega.{arith}
use agentmarshal.Common.Tests.{◌==◌}
use agentmarshal.Common.Lists.{all, any}

abbrev pub Text : Type 0
Text = List ℕ

codes : String → Text
codes String.[] = []
codes (String.◌∷◌ c s) = code c ∷ codes s

-- A literal of the source.
unfoldable pub text : String → Text
unfolding codes
text s = codes s

unfoldable pub text_eq : Text → Text → Bool
text_eq [] [] = true
text_eq [] (y ∷ ys) = false
text_eq (x ∷ xs) [] = false
text_eq (x ∷ xs) (y ∷ ys) = (x == y) && text_eq xs ys

-- `character in string`, `value in (…)`
unfoldable pub contains : ℕ → Text → Bool
contains c s = any (λ x. x == c) s

unfoldable pub contains_text : Text → List Text → Bool
contains_text s xs = any (λ x. text_eq x s) xs

unfoldable pub starts_with : Text → Text → Bool
starts_with s [] = true
starts_with [] (p ∷ ps) = false
starts_with (c ∷ s) (p ∷ ps) = (c == p) && starts_with s ps

-- `len(set(xs)) == len(xs)`
unfoldable pub is_unique : List Text → Bool
is_unique [] = true
is_unique (x ∷ xs) = not (contains_text x xs) && is_unique xs

-- `not (set(xs) & set(ys))`
unfoldable pub is_disjoint : List Text → List Text → Bool
is_disjoint xs ys = all (λ x. not (contains_text x ys)) xs

pub text_eq_refl : (s : Text) → text_eq s s ≡ true
unfolding text_eq
text_eq_refl [] = refl
text_eq_refl (x ∷ xs) = ground (arith, text_eq_refl xs)

pub text_eq_sound : (s t : Text) → text_eq s t ≡ true → s ≡ t
unfolding text_eq
text_eq_sound [] [] h = refl
text_eq_sound [] (y ∷ ys) h = cc
text_eq_sound (x ∷ xs) [] h = cc
text_eq_sound (x ∷ xs) (y ∷ ys) h = ground (arith, text_eq_sound xs ys)
