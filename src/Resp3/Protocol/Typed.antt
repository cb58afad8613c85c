-- ===== src/Resp3/Protocol/Typed.antt =====
-- What the reader makes of each type byte that a server writes.
use synap_sdk_go.Prelude.{ℕ, ◌^◌, ◌<◌, ◌≡◌, ◌≢◌, refl, [], ◌∷◌, ◌++◌, arith, length}
use synap_sdk_go.Bytes.{Bytes}
use synap_sdk_go.Bytes.Decimal.{format_nat}
use synap_sdk_go.Value.{Value, Values, Entries, str, arr, dict, no_entries}
use synap_sdk_go.Value.Text.{Runtime}
use synap_sdk_go.Errors.{Result, ok, err, synap, server_error, ◌>>=◌}
use package.synap_sdk_go.Resp3.Outcome.{value, error, Reader, of_result}
use package.synap_sdk_go.Resp3.Frame.{crlf}
use package.synap_sdk_go.Resp3.Reader.{TypeByte, read_typed, repeat, repeat_pairs, strip_format}
use package.synap_sdk_go.Resp3.Protocol.{FitsBlock}
use package.synap_sdk_go.Resp3.Protocol.Lines.{parse_int-format_nat, read_block-crlf}

module _ (rt : Runtime) (read : Reader Value) (rest : Bytes) where
  pub typed-bulk :
      (s : Bytes)
      → FitsBlock s
      → read_typed rt read TypeByte.bulk_string (format_nat (length s)) (s ++ crlf rest)
        ≡ (value (str s), rest)
  unfolding read_typed
  typed-bulk s h = rw (
    parse_int-format_nat (length s) (omega arith),
    read_block-crlf "RESP3: read bulk data" s rest h,
  )

  pub typed-blob_error :
      (s : Bytes)
      → FitsBlock s
      → read_typed rt read TypeByte.blob_error (format_nat (length s)) (s ++ crlf rest)
        ≡ (error (synap (server_error s)), rest)
  unfolding read_typed
  typed-blob_error s h = rw (
    parse_int-format_nat (length s) (omega arith),
    read_block-crlf "RESP3: read blob error" s rest h,
  )

  -- A format of three bytes and its colon are dropped in front of a text that is not empty.
  strip_format-format :
      (format s : Bytes) → length format ≡ 3 → s ≢ [] → strip_format (format ++ b':' ∷ s) ≡ s
  unfolding strip_format
  strip_format-format (a ∷ b ∷ c ∷ []) [] h k = absurd (k refl)
  strip_format-format (a ∷ b ∷ c ∷ []) (d ∷ s) h k = refl
  strip_format-format [] s h k = absurd (omega arith)
  strip_format-format (a ∷ []) s h k = absurd (omega arith)
  strip_format-format (a ∷ b ∷ []) s h k = absurd (omega arith)
  strip_format-format (a ∷ b ∷ c ∷ d ∷ format) s h k = absurd (omega arith)

  pub typed-verbatim :
      (format s : Bytes)
      → length format ≡ 3
      → s ≢ []
      → FitsBlock (format ++ b':' ∷ s)
      → let body = format ++ b':' ∷ s in
        read_typed rt read TypeByte.verbatim (format_nat (length body)) (body ++ crlf rest)
        ≡ (value (str s), rest)
  unfolding read_typed
  typed-verbatim format s h k fits = rw (
    parse_int-format_nat (length (format ++ b':' ∷ s)) (omega arith),
    read_block-crlf "RESP3: read verbatim string" (format ++ b':' ∷ s) rest fits,
    strip_format-format format s h k,
  )

  pub typed-array :
      (n : ℕ) (q : Result Values) (t s : Bytes)
      → n < 2 ^ 63
      → repeat read n s ≡ (of_result q, t)
      → read_typed rt read TypeByte.array (format_nat n) s
        ≡ (of_result (q >>= λ vs. ok (arr vs)), t)
  unfolding read_typed
  typed-array n (ok vs) t s h p = rw (parse_int-format_nat n h, p)
  typed-array n (err e) t s h p = rw (parse_int-format_nat n h, p)

  pub typed-set :
      (n : ℕ) (q : Result Values) (t s : Bytes)
      → n < 2 ^ 63
      → repeat read n s ≡ (of_result q, t)
      → read_typed rt read TypeByte.set (format_nat n) s ≡ (of_result (q >>= λ vs. ok (arr vs)), t)
  unfolding read_typed
  typed-set n (ok vs) t s h p = rw (parse_int-format_nat n h, p)
  typed-set n (err e) t s h p = rw (parse_int-format_nat n h, p)

  pub typed-map :
      (n : ℕ) (q : Result Entries) (t s : Bytes)
      → n < 2 ^ 63
      → repeat_pairs rt read n no_entries s ≡ (of_result q, t)
      → read_typed rt read TypeByte.map (format_nat n) s ≡ (of_result (q >>= λ m. ok (dict m)), t)
  unfolding read_typed
  typed-map n (ok m) t s h p = rw (parse_int-format_nat n h, p)
  typed-map n (err e) t s h p = rw (parse_int-format_nat n h, p)
