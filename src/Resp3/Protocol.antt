-- ===== src/Resp3/Protocol.antt =====
-- What a RESP3 server says, independently of the reader: its replies, their bytes on the wire, the
-- values that they mean, and the bytes that a reader which stops at the first error leaves behind.
pub mod Lines
pub mod Steps
pub mod Typed
pub mod Sound
pub mod Whole
pub mod Commands
use synap_sdk_go.Prelude.{
  ℕ, zero, suc, ◌+◌, ◌^◌, ◌<◌, ◌≡◌, ◌≢◌, Bool, true, false, some, [], ◌∷◌, ◌++◌, ℤ, pos, InInt64,
  length, All,
}
use Prim.Native.Nat.{max}
use synap_sdk_go.Bytes.{Bytes}
use synap_sdk_go.Bytes.Decimal.{format_nat, format_int}
use synap_sdk_go.Value.{
  Value, Values, Entries, nil, bool, int64, float64, str, arr, dict, no_values, item, no_entries,
}
use synap_sdk_go.Value.Maps.{insert}
use synap_sdk_go.Value.Text.{Runtime, sprint}
use synap_sdk_go.Errors.{Result, ok, err, synap, server_error, ◌>>=◌}
use package.synap_sdk_go.Resp3.Frame.{crlf}

-- `double` has the text and the float that it stands for, `verbatim` the format and the text.
mutual
  pub data Reply : Type 0 where
    simple failure big_number bulk_string blob_error : Bytes → Reply
    integer : ℤ → Reply
    null_bulk null_array null : Reply
    array set : Replies → Reply
    map : Pairs → Reply
    boolean : Bool → Reply
    double : Bytes → ℕ → Reply
    verbatim : Bytes → Bytes → Reply

  pub data Replies : Type 0 where
    no_replies : Replies
    reply : Reply → Replies → Replies

  pub data Pairs : Type 0 where
    no_pairs : Pairs
    pair : Reply → Reply → Pairs → Pairs

abbrev pub count : Replies → ℕ
count no_replies = 0
count (reply r rs) = suc (count rs)

abbrev pub count_pairs : Pairs → ℕ
count_pairs no_pairs = 0
count_pairs (pair k r ps) = suc (count_pairs ps)

-- A counted block and a line, in front of what follows them.
abbrev pub block : ℕ → Bytes → Bytes → Bytes
block c s rest = c ∷ (format_nat (length s) ++ crlf (s ++ crlf rest))

abbrev pub line : ℕ → Bytes → Bytes → Bytes
line c s rest = c ∷ (s ++ crlf rest)

abbrev pub letter : Bool → ℕ
letter true = b't'
letter false = b'f'

-- The bytes of a reply, in front of what follows it.
unfoldable mutual
  pub encode : Reply → Bytes → Bytes
  encode (simple s) rest = line b'+' s rest
  encode (failure s) rest = line b'-' s rest
  encode (big_number s) rest = line b'(' s rest
  encode (bulk_string s) rest = block b'$' s rest
  encode (blob_error s) rest = block b'!' s rest
  encode (integer z) rest = line b':' (format_int z) rest
  encode null_bulk rest = line b'$' (b'-' ∷ b'1' ∷ []) rest
  encode null_array rest = line b'*' (b'-' ∷ b'1' ∷ []) rest
  encode null rest = line b'_' [] rest
  encode (array rs) rest = line b'*' (format_nat (count rs)) (encode_items rs rest)
  encode (set rs) rest = line b'~' (format_nat (count rs)) (encode_items rs rest)
  encode (map ps) rest = line b'%' (format_nat (count_pairs ps)) (encode_pairs ps rest)
  encode (boolean b) rest = line b'#' (letter b ∷ []) rest
  encode (double s f) rest = line b',' s rest
  encode (verbatim format s) rest = block b'=' (format ++ b':' ∷ s) rest

  pub encode_items : Replies → Bytes → Bytes
  encode_items no_replies rest = rest
  encode_items (reply r rs) rest = encode r (encode_items rs rest)

  pub encode_pairs : Pairs → Bytes → Bytes
  encode_pairs no_pairs rest = rest
  encode_pairs (pair k r ps) rest = encode k (encode r (encode_pairs ps rest))

-- The value of a reply, or its first error.
module _ (rt : Runtime) where
  unfoldable mutual
    pub meaning : Reply → Result Value
    meaning (simple s) = ok (str s)
    meaning (failure s) = err (synap (server_error s))
    meaning (big_number s) = ok (str s)
    meaning (bulk_string s) = ok (str s)
    meaning (blob_error s) = err (synap (server_error s))
    meaning (integer z) = ok (int64 z)
    meaning null_bulk = ok nil
    meaning null_array = ok nil
    meaning null = ok nil
    meaning (array rs) = meaning_items rs >>= λ vs. ok (arr vs)
    meaning (set rs) = meaning_items rs >>= λ vs. ok (arr vs)
    meaning (map ps) = meaning_pairs ps no_entries >>= λ m. ok (dict m)
    meaning (boolean b) = ok (bool b)
    meaning (double s f) = ok (float64 f)
    meaning (verbatim format s) = ok (str s)

    pub meaning_items : Replies → Result Values
    meaning_items no_replies = ok no_values
    meaning_items (reply r rs) = meaning r >>= λ v. meaning_items rs >>= λ vs. ok (item v vs)

    -- A key that comes again is overwritten.
    pub meaning_pairs : Pairs → Entries → Result Entries
    meaning_pairs no_pairs m = ok m
    meaning_pairs (pair k r ps) m =
        meaning k >>= λ x. meaning r >>= λ v. meaning_pairs ps (insert (sprint rt x) v m)

  abbrev unless_error : Result Value → Bytes → Bytes → Bytes
  unless_error (ok v) behind stopped = behind
  unless_error (err e) behind stopped = stopped

  -- What is left of the input by a reader that stops at the first error.
  unfoldable mutual
    pub unread : Reply → Bytes → Bytes
    unread (array rs) rest = unread_items rs rest
    unread (set rs) rest = unread_items rs rest
    unread (map ps) rest = unread_pairs ps rest
    unread _ rest = rest

    pub unread_items : Replies → Bytes → Bytes
    unread_items no_replies rest = rest
    unread_items (reply r rs) rest =
        unless_error (meaning r) (unread_items rs rest) (unread r (encode_items rs rest))

    pub unread_pairs : Pairs → Bytes → Bytes
    unread_pairs no_pairs rest = rest
    unread_pairs (pair k r ps) rest =
        unless_error (meaning k)
          (unless_error (meaning r) (unread_pairs ps rest) (unread r (encode_pairs ps rest)))
          (unread k (encode r (encode_pairs ps rest)))

-- How deep arrays, sets and maps are nested.
unfoldable mutual
  pub depth : Reply → ℕ
  depth (array rs) = suc (depth_items rs)
  depth (set rs) = suc (depth_items rs)
  depth (map ps) = suc (depth_pairs ps)
  depth _ = 0

  pub depth_items : Replies → ℕ
  depth_items no_replies = 0
  depth_items (reply r rs) = max (depth r) (depth_items rs)

  pub depth_pairs : Pairs → ℕ
  depth_pairs no_pairs = 0
  depth_pairs (pair k r ps) = max (depth k) (max (depth r) (depth_pairs ps))

-- A text without line breaks, which a line can carry.
abbrev pub IsLine : Bytes → Type 0
IsLine s = All (λ c. (c ≢ 13) × (c ≢ 10)) s

-- A block that fits, with its line break, into an int.
abbrev pub FitsBlock : Bytes → Type 0
FitsBlock s = length s + 2 < 2 ^ 63

module _ (rt : Runtime) where
  abbrev mutual
    pub WellFormed : Reply → Type 0
    WellFormed (simple s) = IsLine s
    WellFormed (failure s) = IsLine s
    WellFormed (big_number s) = IsLine s
    WellFormed (bulk_string s) = FitsBlock s
    WellFormed (blob_error s) = FitsBlock s
    WellFormed (integer z) = InInt64 z
    WellFormed null_bulk = Unit
    WellFormed null_array = Unit
    WellFormed null = Unit
    WellFormed (array rs) = (count rs < 2 ^ 63) × WellFormedItems rs
    WellFormed (set rs) = (count rs < 2 ^ 63) × WellFormedItems rs
    WellFormed (map ps) = (count_pairs ps < 2 ^ 63) × WellFormedPairs ps
    WellFormed (boolean b) = Unit
    WellFormed (double s f) = IsLine s × (rt.parse_float s ≡ some f)
    WellFormed (verbatim format s) = (length format ≡ 3) × (s ≢ []) × FitsBlock (format ++ b':' ∷ s)

    pub WellFormedItems : Replies → Type 0
    WellFormedItems no_replies = Unit
    WellFormedItems (reply r rs) = WellFormed r × WellFormedItems rs

    pub WellFormedPairs : Pairs → Type 0
    WellFormedPairs no_pairs = Unit
    WellFormedPairs (pair k r ps) = WellFormed k × WellFormed r × WellFormedPairs ps
