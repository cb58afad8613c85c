-- ===== src/Resp3/Protocol/Whole.antt =====
-- The reader with its own fuel, on whole replies: what it returns and where it stands afterwards.
use synap_sdk_go.Prelude.{ℕ, suc, ◌+◌, ◌≤◌, ◌≡◌, ◌∷◌, ◌++◌, arith, length, length-append}
use synap_sdk_go.Bytes.{Bytes}
use synap_sdk_go.Bytes.Decimal.{format_nat, format_int}
use synap_sdk_go.Value.{Value}
use synap_sdk_go.Value.Text.{Runtime}
use synap_sdk_go.Errors.{ok, synap, server_error}
use package.synap_sdk_go.Resp3.Outcome.{value, error, of_result}
use package.synap_sdk_go.Resp3.Frame.{crlf}
use package.synap_sdk_go.Resp3.Reader.{read_reply}
use package.synap_sdk_go.Resp3.Protocol.{
  Reply, Replies, Pairs, simple, failure, big_number, bulk_string, blob_error, integer, null_bulk,
  null_array, null, array, set, map, boolean, double, verbatim, no_replies, reply, no_pairs, pair,
  count, count_pairs, encode, encode_items, encode_pairs, meaning, unread, depth, depth_items,
  depth_pairs, WellFormed, line, block,
}
use package.synap_sdk_go.Resp3.Protocol.Steps.{unread-ok}
use package.synap_sdk_go.Resp3.Protocol.Sound.{read_response-encode}

length-line : (c : ℕ) (s rest : Bytes) → suc (length rest) ≤ length (line c s rest)
length-line c s rest = omega (arith, length-append s (crlf rest))

length-block : (c : ℕ) (s rest : Bytes) → suc (length rest) ≤ length (block c s rest)
length-block c s rest = omega (
  arith,
  length-append s (crlf rest),
  length-append (format_nat (length s)) (crlf (s ++ crlf rest)),
)

-- Every level of nesting has a byte of its own.
mutual
  unfolding encode depth

  depth-le-length : (r : Reply) (rest : Bytes) → depth r + length rest ≤ length (encode r rest)
  depth-le-length (simple s) rest = omega (arith, length-line b'+' s rest)
  depth-le-length (failure s) rest = omega (arith, length-line b'-' s rest)
  depth-le-length (big_number s) rest = omega (arith, length-line b'(' s rest)
  depth-le-length (bulk_string s) rest = omega (arith, length-block b'$' s rest)
  depth-le-length (blob_error s) rest = omega (arith, length-block b'!' s rest)
  depth-le-length (integer z) rest = omega (arith, length-line b':' (format_int z) rest)
  depth-le-length null_bulk rest = omega arith
  depth-le-length null_array rest = omega arith
  depth-le-length null rest = omega arith
  depth-le-length (array rs) rest = omega (
    arith,
    depth_items-le rs rest,
    length-line b'*' (format_nat (count rs)) (encode_items rs rest),
  )
  depth-le-length (set rs) rest = omega (
    arith,
    depth_items-le rs rest,
    length-line b'~' (format_nat (count rs)) (encode_items rs rest),
  )
  depth-le-length (map ps) rest = omega (
    arith,
    depth_pairs-le ps rest,
    length-line b'%' (format_nat (count_pairs ps)) (encode_pairs ps rest),
  )
  depth-le-length (boolean b) rest = omega arith
  depth-le-length (double s f) rest = omega (arith, length-line b',' s rest)
  depth-le-length (verbatim format s) rest =
      omega (arith, length-block b'=' (format ++ b':' ∷ s) rest)

  depth_items-le :
      (rs : Replies) (rest : Bytes) → depth_items rs + length rest ≤ length (encode_items rs rest)
  depth_items-le no_replies rest = omega arith
  depth_items-le (reply r rs) rest =
      omega (arith, depth-le-length r (encode_items rs rest), depth_items-le rs rest)

  depth_pairs-le :
      (ps : Pairs) (rest : Bytes) → depth_pairs ps + length rest ≤ length (encode_pairs ps rest)
  depth_pairs-le no_pairs rest = omega arith
  depth_pairs-le (pair k r ps) rest = omega (
    arith,
    depth-le-length k (encode r (encode_pairs ps rest)),
    depth-le-length r (encode_pairs ps rest),
    depth_pairs-le ps rest,
  )

module _ (rt : Runtime) where
  -- On the bytes of any well-formed reply and what follows it, the reader returns the reply's value,
  -- or its first error; it stands behind the reply, or behind that error.
  pub read_reply-encode :
      (r : Reply) (rest : Bytes)
      → WellFormed rt r
      → read_reply rt (encode r rest) ≡ (of_result (meaning rt r), unread rt r rest)
  unfolding read_reply
  read_reply-encode r rest h =
      read_response-encode rt r (suc (length (encode r rest))) rest
        (omega (arith, depth-le-length r rest)) h

  -- A reply without errors is read to its end and no further, so that the next reply is read next.
  pub read_reply-ok :
      (r : Reply) (v : Value) (rest : Bytes)
      → WellFormed rt r
      → meaning rt r ≡ ok v
      → read_reply rt (encode r rest) ≡ (value v, rest)
  read_reply-ok r v rest h e = rw (read_reply-encode r rest h, e, unread-ok rt r v rest e)

  -- If the first element of an array is an error, the reader returns that error and leaves the
  -- array's other elements unread.
  pub read_reply-nested_error :
      (msg : Bytes) (rs : Replies) (rest : Bytes)
      → WellFormed rt (array (reply (failure msg) rs))
      → read_reply rt (encode (array (reply (failure msg) rs)) rest)
        ≡ (error (synap (server_error msg)), encode_items rs rest)
  unfolding meaning unread
  read_reply-nested_error msg rs rest h = read_reply-encode (array (reply (failure msg) rs)) rest h
