-- ===== src/Command/Payload.antt =====
-- How mapCommandToWire of client.go reads a payload map: its closures getStr, getFloat and
-- getStrSlice, and counterAmount.
use synap_sdk_go.Prelude.{ℕ, ◌-◌, ◌%◌, Option, none, some, List, [], ◌∷◌, ℤ, pos, negsuc, map}
use synap_sdk_go.Bytes.{Bytes, codes}
use synap_sdk_go.Value.{Value, Entries, nil, int, int64, float64, str, arr, dict, to_list}
use synap_sdk_go.Value.Maps.{lookup}
use synap_sdk_go.Value.Text.{Runtime, sprint}

module _ (rt : Runtime) where
  -- A value that is a string is taken as it is, any other is printed.
  unfoldable pub string_of : Value → Bytes
  string_of (str s) = s
  string_of v = sprint rt v

  abbrev string_or_empty : Option Value → Bytes
  string_or_empty none = []
  string_or_empty (some v) = string_of v

  unfoldable pub get_str : Entries → Bytes → Bytes
  unfolding lookup string_of
  get_str payload key = string_or_empty (lookup key payload)

  -- The pattern of the float 0 is 0.
  abbrev float_or_zero : Option Value → ℕ
  float_or_zero (some (float64 f)) = f
  float_or_zero (some (int n)) = rt.float_of_int n
  float_or_zero _ = 0

  unfoldable pub get_float : Entries → Bytes → ℕ
  unfolding lookup
  get_float payload key = float_or_zero (lookup key payload)

  -- int(getFloat(key))
  unfoldable pub get_int : Entries → Bytes → Value
  unfolding get_float
  get_int payload key = int (rt.int_of_float (get_float payload key))

  abbrev strings_of : Option Value → List Bytes
  strings_of (some (arr vs)) = map (sprint rt) (to_list vs)
  strings_of _ = []

  unfoldable pub get_str_slice : Entries → Bytes → List Bytes
  unfolding lookup
  get_str_slice payload key = strings_of (lookup key payload)

  abbrev marshalled : Value → Option Bytes → Value
  marshalled v none = str (sprint rt v)
  marshalled v (some json) = str json

  abbrev amount_of : Option Value → Option Value
  amount_of none = none
  amount_of (some nil) = none
  amount_of (some (int n)) = some (int64 n)
  amount_of (some (int64 n)) = some (int64 n)
  amount_of (some v) = some (marshalled v (rt.marshal v))

  unfoldable pub counter_amount : Entries → Option Value
  unfolding lookup
  counter_amount payload = amount_of (lookup (codes "amount") payload)

  -- byte(f): the low eight bits of the integer part.
  unfoldable pub low_byte : ℤ → ℕ
  low_byte (pos n) = n % 256
  low_byte (negsuc n) = 255 - n % 256

  unfoldable pub byte_of : Value → ℕ
  byte_of (float64 f) = low_byte (rt.int_of_float f)
  byte_of v = 0

  abbrev queue_payload : Option Value → List Value
  queue_payload none = []
  queue_payload (some (arr vs)) = str (map byte_of (to_list vs)) ∷ []
  queue_payload (some v) = str (sprint rt v) ∷ []

  -- The payload argument of queue.publish.
  unfoldable pub get_queue_payload : Entries → List Value
  unfolding lookup low_byte byte_of
  get_queue_payload payload = queue_payload (lookup (codes "payload") payload)

  abbrev value_or_nil : Option Value → Value
  value_or_nil none = nil
  value_or_nil (some v) = v

  -- The key and the value of one element of kv.mset's pairs; what is no map is passed over.
  pair_args : Value → List Value → List Value
  unfolding lookup
  pair_args (dict m) rest =
      str (sprint rt (value_or_nil (lookup (codes "key") m)))
      ∷ str (sprint rt (value_or_nil (lookup (codes "value") m)))
      ∷ rest
  pair_args v rest = rest

  pairs_args : List Value → List Value
  pairs_args [] = []
  pairs_args (p ∷ ps) = pair_args p (pairs_args ps)

  abbrev pairs_of : Option Value → List Value
  pairs_of (some (arr vs)) = pairs_args (to_list vs)
  pairs_of _ = []

  unfoldable pub get_pairs : Entries → List Value
  unfolding lookup pair_args pairs_args
  get_pairs payload = pairs_of (lookup (codes "pairs") payload)
