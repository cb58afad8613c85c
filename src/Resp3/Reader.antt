-- ===== src/Resp3/Reader.antt =====
-- readResponse of transport_resp3.go with readLine and readFull. The connection is the list of the
-- bytes that it will still deliver; reading on behind their end is an error.
pub mod Total
use synap_sdk_go.Prelude.{
  ℕ, zero, suc, ◌+◌, ◌-◌, ◌^◌, ◌<◌, ◌≡◌, Bool, true, false, ◌||◌, ◌&&◌, Option, none, some, List,
  [], ◌∷◌, String, ◌++◌, ltb, leb, ◌==◌, if◌then◌else◌, ℤ, pos, negsuc, length, take, drop,
}
use synap_sdk_go.Bytes.{Bytes, codes}
use synap_sdk_go.Bytes.Decimal.{parse_int}
use synap_sdk_go.Value.{
  Value, Values, Entries, nil, bool, int64, float64, str, arr, dict, no_values, item, no_entries,
}
use synap_sdk_go.Value.Maps.{insert}
use synap_sdk_go.Value.Text.{Runtime, sprint}
use synap_sdk_go.Errors.{Error, synap, wrapped, server_error}
use package.synap_sdk_go.Resp3.Outcome.{
  Outcome, value, error, panic, out_of_fuel, Reader, continue, ◌>>=◌, pure, fail, failed, crash,
}

-- The bytes up to and with the first '\n', and those behind it.
unfoldable pub until_lf : Bytes → Option (Bytes × Bytes)
until_lf [] = none
until_lf (c ∷ s) =
    if c == 10
    then some (c ∷ [], s)
    else elim (until_lf s) [ none ↦ none | some (line, rest) ↦ some (c ∷ line, rest) ]

abbrev keep : ℕ → Bytes → Bytes
keep c [] = if c == 13 || c == 10 then [] else c ∷ []
keep c (d ∷ s) = c ∷ d ∷ s

-- strings.TrimRight(line, "\r\n")
unfoldable pub trim_right : Bytes → Bytes
trim_right [] = []
trim_right (c ∷ s) = keep c (trim_right s)

-- What ReadString('\n') and the trimming make of the line, or of none.
abbrev pub line_of : Option (Bytes × Bytes) → Outcome Bytes × Bytes
line_of none = (error (wrapped (codes "RESP3: read line")), [])
line_of (some (line, rest)) = (value (trim_right line), rest)

unfoldable pub read_line : Reader Bytes
unfolding until_lf trim_right
read_line s = line_of (until_lf s)

-- Exactly n bytes, under the error text of the caller.
unfoldable pub read_full : String → ℕ → Reader Bytes
read_full text n s =
    if ltb (length s) n then (error (wrapped (codes text)), []) else (value (take n s), drop n s)

-- data[:length] of a block with its line break, make([]byte, length+2) in int arithmetic.
unfoldable pub read_block : String → ℕ → Reader Bytes
unfolding read_full
read_block text n =
    if ltb (n + 2) (2 ^ 63) then (do data' ← read_full text (n + 2); pure (take n data')) else crash

-- A block whose length has no special case for -1: make([]byte, 1) is filled, data[:-1] panics.
unfoldable pub read_counted : String → ℤ → Reader Bytes
unfolding read_block read_full
read_counted text (pos n) = read_block text n
read_counted text (negsuc zero) = do data' ← read_full text 1; crash
read_counted text (negsuc (suc n)) = crash

unfoldable pub read_bulk : ℤ → Reader Value
unfolding read_block
read_bulk (pos n) = do data' ← read_block "RESP3: read bulk data" n; pure (str data')
read_bulk (negsuc zero) = pure nil
read_bulk (negsuc (suc n)) = crash

-- The format hint of a verbatim string, and the value behind it.
unfoldable pub strip_format : Bytes → Bytes
strip_format (a ∷ b ∷ c ∷ d ∷ e ∷ s) = if d == b':' then e ∷ s else a ∷ b ∷ c ∷ d ∷ e ∷ s
strip_format s = s

unfoldable pub read_blob_error : ℤ → Reader Value
unfolding read_counted
read_blob_error n = do
  msg ← read_counted "RESP3: read blob error" n
  fail (synap (server_error msg))

unfoldable pub read_verbatim : ℤ → Reader Value
unfolding read_counted strip_format
read_verbatim n = do
  body ← read_counted "RESP3: read verbatim string" n
  pure (str (strip_format body))

-- The cases of the switch on the first byte of a line.
pub data TypeByte : Type 0 where
  simple failure integer bulk_string array map set boolean double big_number : TypeByte
  blob_error verbatim null unknown : TypeByte

unfoldable pub type_byte : ℕ → TypeByte
type_byte c =
    if c == b'+'
    then simple
    else if c == b'-'
    then failure
    else if c == b':'
    then integer
    else if c == b'$'
    then bulk_string
    else if c == b'*'
    then array
    else if c == b'%'
    then map
    else if c == b'~'
    then set
    else if c == b'#'
    then boolean
    else if c == b','
    then double
    else if c == b'('
    then big_number
    else if c == b'!'
    then blob_error
    else if c == b'='
    then verbatim
    else if c == b'_'
    then null
    else unknown

-- The loop of an array or set; `read` is the recursive call.
unfoldable pub repeat : Reader Value → ℕ → Reader Values
repeat read zero s = (value no_values, s)
repeat read (suc n) s =
    let (r, s') = read s in
    continue r s' λ v s''. let (q, t) = repeat read n s'' in continue q t λ vs. pure (item v vs)

unfoldable pub read_elements : Reader Value → ℤ → Reader Value
unfolding repeat
read_elements read (pos n) = do vs ← repeat read n; pure (arr vs)
read_elements read (negsuc zero) = pure nil
read_elements read (negsuc (suc n)) = crash

abbrev pub or_fail {ℓ κ} : {A : Type ℓ} {B : Type κ} → String → Option A → (A → Reader B) → Reader B
or_fail text none k = failed text
or_fail text (some a) k = k a

abbrev pub number_or {ℓ} : {B : Type ℓ} → String → Bytes → (ℤ → Reader B) → Reader B
number_or text payload k = or_fail text (parse_int payload) k

unfoldable pub read_boolean : Bytes → Reader Value
read_boolean (c ∷ []) =
    if c == b't'
    then pure (bool true)
    else if c == b'f'
    then pure (bool false)
    else failed "RESP3: invalid boolean"
read_boolean payload = failed "RESP3: invalid boolean"

module _ (rt : Runtime) where
  -- The loop of a map: a key that comes again is overwritten.
  unfoldable pub repeat_pairs : Reader Value → ℕ → Entries → Reader Entries
  repeat_pairs read zero m s = (value m, s)
  repeat_pairs read (suc n) m s =
      let (r, s') = read s in
      continue r s' λ k s''.
        let (q, t) = read s'' in continue q t λ v. repeat_pairs read n (insert (sprint rt k) v m)

  -- A negative size is a hint that make ignores for a map, and the loop makes no round.
  unfoldable pub read_map : Reader Value → ℤ → Reader Value
  unfolding repeat_pairs
  read_map read (pos n) = do m ← repeat_pairs read n no_entries; pure (dict m)
  read_map read (negsuc zero) = pure nil
  read_map read (negsuc (suc n)) = pure (dict no_entries)

  unfoldable pub read_double : Bytes → Reader Value
  read_double payload =
      or_fail "RESP3: invalid double" (rt.parse_float payload) (λ f. pure (float64 f))

  -- The switch on the type byte; `read` is the recursive call.
  unfoldable pub read_typed : Reader Value → TypeByte → Bytes → Reader Value
  unfolding parse_int read_blob_error read_verbatim read_bulk read_elements read_map read_boolean
      read_double
  read_typed read simple payload = pure (str payload)
  read_typed read failure payload = fail (synap (server_error payload))
  read_typed read integer payload = number_or "RESP3: invalid integer" payload (λ n. pure (int64 n))
  read_typed read bulk_string payload = number_or "RESP3: invalid bulk length" payload read_bulk
  read_typed read array payload =
      number_or "RESP3: invalid array length" payload (read_elements read)
  read_typed read map payload = number_or "RESP3: invalid map length" payload (read_map read)
  read_typed read set payload = number_or "RESP3: invalid set length" payload (read_elements read)
  read_typed read boolean payload = read_boolean payload
  read_typed read double payload = read_double payload
  read_typed read big_number payload = pure (str payload)
  read_typed read blob_error payload =
      number_or "RESP3: invalid blob error length" payload read_blob_error
  read_typed read verbatim payload =
      number_or "RESP3: invalid verbatim length" payload read_verbatim
  read_typed read null payload = pure nil
  read_typed read unknown payload = failed "RESP3: unknown type byte"

  abbrev pub read_tagged : Reader Value → Bytes → Reader Value
  read_tagged read [] = failed "RESP3: empty line"
  read_tagged read (c ∷ payload) = read_typed read (type_byte c) payload

  -- The fuel bounds the nesting of arrays, maps and sets.
  unfoldable pub read_response : ℕ → Reader Value
  unfolding read_line read_typed type_byte
  read_response zero s = (out_of_fuel, s)
  read_response (suc fuel) s =
      let (r, s') = read_line s in continue r s' (read_tagged (read_response fuel))

  -- Each level of nesting takes a byte at least, so this fuel is enough.
  unfoldable pub read_reply : Reader Value
  unfolding read_response
  read_reply s = read_response (suc (length s)) s
