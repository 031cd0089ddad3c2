-- ===== src/Json.antt =====
-- JSON values as `json.loads` gives them, and the dictionary operations the journal uses.
-- A record of the journal is a `Fields`: `Mapping[str, object]`, in insertion order.
pub mod Dict
use agentmarshal.Common.{
  ℕ, zero, suc, String, Bool, true, false, Option, none, some, List, [], ◌∷◌, Text, text, text_eq,
  if◌then◌else◌,
}

-- `negsuc n` is -(n + 1).
pub data ℤ : Type 0 where
  pos : ℕ → ℤ
  negsuc : ℕ → ℤ

-- A float is kept as its literal: no rule reads its value.
mutual
  pub data Json : Type 0 where
    null : Json
    bool : Bool → Json
    int : ℤ → Json
    float : Text → Json
    str : Text → Json
    arr : Items → Json
    obj : Fields → Json

  pub data Items : Type 0 where
    nil : Items
    cons : Json → Items → Items

  pub data Fields : Type 0 where
    end : Fields
    field : Text → Json → Fields → Fields

unfoldable pub elements : Items → List Json
elements nil = []
elements (cons x xs) = x ∷ elements xs

-- `record.keys()`
unfoldable pub keys : Fields → List Text
keys end = []
keys (field k v r) = k ∷ keys r

-- `record.values()`
unfoldable pub values : Fields → List Json
values end = []
values (field k v r) = v ∷ values r

-- `record.get(k)`, by a key that is a text
unfoldable pub get : Fields → Text → Option Json
get end k = none
get (field j v r) k = if text_eq j k then some v else get r k

-- `record[k] = v`: an old entry is replaced in its place, a new one is appended
unfoldable pub put : Fields → Text → Json → Fields
put end k v = field k v end
put (field j w r) k v = if text_eq j k then field j v r else field j w (put r k v)

abbrev pub is_some : Option Json → Bool
is_some none = false
is_some (some v) = true

-- `record.get("k")` and `"k" in record`, by a literal
infixl 80 ◌!◌
unfoldable pub ◌!◌ : Fields → String → Option Json
unfolding get text
r ! k = get r (text k)

unfoldable pub has : Fields → String → Bool
unfolding ◌!◌
has r k = is_some (r ! k)

-- The text of a value that an earlier rule has shown to be one.
unfoldable pub text_of : Option Json → Text
text_of (some (str s)) = s
text_of _ = []

unfoldable pub list_of : Option Json → List Json
unfolding elements
list_of (some (arr xs)) = elements xs
list_of _ = []

unfoldable pub fields_of : Option Json → Fields
fields_of (some (obj f)) = f
fields_of _ = end

-- `isinstance(value, str)` and the like
unfoldable pub is_str : Option Json → Bool
is_str (some (str s)) = true
is_str _ = false

unfoldable pub is_list : Option Json → Bool
is_list (some (arr xs)) = true
is_list _ = false

unfoldable pub is_dict : Option Json → Bool
is_dict (some (obj f)) = true
is_dict _ = false
