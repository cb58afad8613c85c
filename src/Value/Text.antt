-- ===== src/Value/Text.antt =====
-- fmt.Sprintf("%v", v), and the parts of the Go runtime that are not written out here: floating
-- point and encoding/json.
use synap_sdk_go.Prelude.{
  ℕ, Bool, true, false, ◌||◌, ◌&&◌, Option, ℤ, List, [], ◌∷◌, ◌++◌, ltb, ◌==◌, if◌then◌else◌, map,
}
use synap_sdk_go.Bytes.{Bytes, codes}
use synap_sdk_go.Bytes.Decimal.{format_nat, format_int}
use package.synap_sdk_go.Value.{
  Value, Values, Entries, nil, bool, int, int64, uint64, sized, float64, str, bytes, arr, dict,
  no_values, item, no_entries, entry,
}

-- Floats are bit patterns; json.Marshal fails on none.
pub record Runtime : Type 0 where
  -- float64(n)
  pub float_of_int : ℤ → ℕ
  -- int64(f)
  pub int_of_float : ℕ → ℤ
  -- f > 0
  pub float_positive : ℕ → Bool
  -- f != 0
  pub float_nonzero : ℕ → Bool
  -- fmt.Sprintf("%v", f)
  pub float_text : ℕ → Bytes
  -- strconv.FormatFloat(f, 'f', -1, 64)
  pub format_float : ℕ → Bytes
  -- strconv.ParseFloat(s, 64)
  pub parse_float : Bytes → Option ℕ
  -- uint64(d.Seconds()) of a duration in nanoseconds
  pub whole_seconds : ℕ → ℕ
  -- uint64(f)
  pub uint64_of_float : ℕ → ℕ
  -- json.Marshal(v)
  pub marshal : Value → Option Bytes

-- s < t, bytewise
unfoldable pub bytes_lt : Bytes → Bytes → Bool
bytes_lt [] [] = false
bytes_lt [] (b ∷ t) = true
bytes_lt (a ∷ s) [] = false
bytes_lt (a ∷ s) (b ∷ t) = ltb a b || (a == b && bytes_lt s t)

-- fmt prints a map in the order of its keys.
insert_sorted : Bytes → Bytes → List (Bytes × Bytes) → List (Bytes × Bytes)
insert_sorted k v [] = (k, v) ∷ []
insert_sorted k v ((j, w) ∷ m) =
    if bytes_lt k j then (k, v) ∷ (j, w) ∷ m else (j, w) ∷ insert_sorted k v m

pairs_text : List (Bytes × Bytes) → Bytes
pairs_text [] = []
pairs_text ((k, v) ∷ []) = k ++ b':' ∷ v
pairs_text ((k, v) ∷ p ∷ m) = k ++ b':' ∷ (v ++ b' ' ∷ pairs_text (p ∷ m))

spaced : List Bytes → Bytes
spaced [] = []
spaced (s ∷ []) = s
spaced (s ∷ t ∷ r) = s ++ b' ' ∷ spaced (t ∷ r)

-- strconv.FormatBool(b)
unfoldable pub bool_text : Bool → Bytes
bool_text true = codes "true"
bool_text false = codes "false"

module _ (rt : Runtime) where
  mutual
    unfolding bytes_lt insert_sorted pairs_text spaced bool_text format_nat format_int

    text : Value → Bytes
    text nil = codes "<nil>"
    text (bool b) = bool_text b
    text (int n) = format_int n
    text (int64 n) = format_int n
    text (uint64 n) = format_nat n
    text (sized k n) = format_int n
    text (float64 f) = rt.float_text f
    text (str s) = s
    text (bytes s) = b'[' ∷ (spaced (map format_nat s) ++ b']' ∷ [])
    text (arr vs) = b'[' ∷ (spaced (texts_of vs) ++ b']' ∷ [])
    text (dict m) = codes "map[" ++ (pairs_text (sorted_texts m) ++ b']' ∷ [])

    texts_of : Values → List Bytes
    texts_of no_values = []
    texts_of (item v vs) = text v ∷ texts_of vs

    sorted_texts : Entries → List (Bytes × Bytes)
    sorted_texts no_entries = []
    sorted_texts (entry k v m) = insert_sorted k (text v) (sorted_texts m)

  unfoldable pub sprint : Value → Bytes
  unfolding text
  sprint v = text v
