-- ===== src/Json/Dict.antt =====
-- The laws of `get` and `put`.
use agentmarshal.Common.{
  ◌≡◌, refl, some, Text, text_eq, text_eq_refl, text_eq_sound, arith, if◌then◌else◌,
}
use agentmarshal.Json.{Json, Fields, end, field, get, put}

-- After `d[k] = v`, a lookup of `k` gives `v`, and one of another key what it gave before.
pub get-put :
    (d : Fields) (k j : Text) (v : Json)
    → get (put d k v) j ≡ (if text_eq k j then some v else get d j)
unfolding get put
get-put end k j v = refl
get-put (field i w d) k j v = ground (
  arith,
  get-put d k j v,
  text_eq_sound i k,
  text_eq_refl k,
  text_eq_sound i j,
  text_eq_sound k j,
  text_eq_refl i,
  text_eq_refl j,
)
