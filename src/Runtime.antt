-- ===== src/Runtime.antt =====
-- What the journal calls of Python's standard library: `unicodedata.category`, `str.isspace` (which
-- `str.strip` and `\s` go by), `datetime.fromisoformat`, `json.dumps` in the canonical form,
-- `json.loads` and `hashlib.sha256`. Every definition that uses one takes this record.
use agentmarshal.Common.{ℕ, Bool, Option, List, Text}
use agentmarshal.Json.{ℤ, Json}

-- The general categories Cc, Cs, Zl and Zp that the forgeable-text rule names; all others are `other`.
pub data Category : Type 0 where
  control surrogate line_separator paragraph_separator other : Category

-- A parsed `datetime`: its offset from UTC (`none` if it is naive) and its instant.
pub record DateTime : Type 0 where
  pub offset : Option ℤ
  pub instant : ℕ

pub record Runtime : Type 0 where
  pub category : ℕ → Category
  pub is_space : ℕ → Bool
  pub from_iso_format : Text → Option DateTime
  pub canonical_dumps : Json → Option (List ℕ)
  pub json_loads : Text → Option Json
  pub sha256 : List ℕ → Text
