-- ===== src/Resp3/Protocol/Sound.antt =====
-- The reader against the server: on the bytes of a reply it returns what the reply means.
use synap_sdk_go.Prelude.{
  ℕ, zero, suc, ◌≤◌, ◌<◌, ◌≡◌, ◌≢◌, refl, true, false, [], ◌∷◌, ◌++◌, arith, ◌∙◌, ap, length,
}
use synap_sdk_go.Bytes.{Bytes}
use synap_sdk_go.Bytes.Decimal.{format_nat, format_int, parse_int, parse_int-format_int}
use synap_sdk_go.Value.{Value, Values, Entries, item, no_entries}
use synap_sdk_go.Value.Maps.{insert}
use synap_sdk_go.Value.Text.{Runtime, sprint}
use synap_sdk_go.Errors.{Error, Result, ok, err, ◌>>=◌}
use package.synap_sdk_go.Resp3.Outcome.{error, of_result}
use package.synap_sdk_go.Resp3.Frame.{crlf}
use package.synap_sdk_go.Resp3.Reader.{
  read_typed, type_byte, read_response, repeat, repeat_pairs, read_boolean, read_double,
}
use package.synap_sdk_go.Resp3.Protocol.{
  Reply, Replies, Pairs, simple, failure, big_number, bulk_string, blob_error, integer, null_bulk,
  null_array, null, array, set, map, boolean, double, verbatim, no_replies, reply, no_pairs, pair,
  count, count_pairs, encode, encode_items, encode_pairs, meaning, meaning_items, meaning_pairs,
  unread, unread_items, unread_pairs, depth, depth_items, depth_pairs, WellFormed, WellFormedItems,
  WellFormedPairs, line,
}
use package.synap_sdk_go.Resp3.Protocol.Lines.{format_nat-IsLine, format_int-IsLine}
use package.synap_sdk_go.Resp3.Protocol.Steps.{
  unread-ok, read_response-line, repeat-value, repeat-error, repeat_pairs-value,
  repeat_pairs-key_error, repeat_pairs-error,
}
use package.synap_sdk_go.Resp3.Protocol.Typed.{
  typed-bulk, typed-blob_error, typed-verbatim, typed-array, typed-set, typed-map,
}

module _ (rt : Runtime) where
  -- A counted line.
  read_response-count :
      (fuel c n : ℕ) (rest : Bytes)
      → (c ≢ 13) × (c ≢ 10)
      → read_response rt (suc fuel) (line c (format_nat n) rest)
        ≡ read_typed rt (read_response rt fuel) (type_byte c) (format_nat n) rest
  read_response-count fuel c n rest h =
      read_response-line rt fuel c (format_nat n) rest (h, format_nat-IsLine n)

  read-item :
      (fuel n : ℕ) (s s' t : Bytes) (o : Result Value) (q : Result Values)
      → let read = read_response rt fuel in
        read s ≡ (of_result o, s')
        → ((v : Value) → o ≡ ok v → repeat read n s' ≡ (of_result q, t))
        → ((e : Error) → o ≡ err e → s' ≡ t)
        → repeat read (suc n) s ≡ (of_result (o >>= λ v. q >>= λ vs. ok (item v vs)), t)
  read-item fuel n s s' t (ok v) q p h k = repeat-value rt _ n s s' t v q p (h v refl)
  read-item fuel n s s' t (err e) q p h k =
      repeat-error rt _ n s s' e p ∙ ap (λ (x : Bytes). (error e, x)) (k e refl)

  read-pair :
      (fuel n : ℕ) (m : Entries) (s s' s'' t : Bytes) (o p : Result Value)
      (q : Value → Value → Result Entries)
      → let read = read_response rt fuel in
        read s ≡ (of_result o, s')
        → ((k : Value) → o ≡ ok k → read s' ≡ (of_result p, s''))
        → ((k v : Value)
            → o ≡ ok k
            → p ≡ ok v
            → repeat_pairs rt read n (insert (sprint rt k) v m) s'' ≡ (of_result (q k v), t))
        → ((e : Error) → o ≡ err e → s' ≡ t)
        → ((k : Value) (e : Error) → o ≡ ok k → p ≡ err e → s'' ≡ t)
        → repeat_pairs rt read (suc n) m s ≡ (of_result (o >>= λ k. p >>= q k), t)
  read-pair fuel n m s s' s'' t (ok k) (ok v) q a b c d e =
      repeat_pairs-value rt _ n s s' s'' k v m a (b k refl) ∙ c k v refl refl
  read-pair fuel n m s s' s'' t (ok k) (err x) q a b c d e =
      repeat_pairs-error rt _ n s s' s'' k x m a (b k refl)
      ∙ ap (λ (y : Bytes). (error x, y)) (e k x refl refl)
  read-pair fuel n m s s' s'' t (err x) p q a b c d e =
      repeat_pairs-key_error rt _ n s s' x m a ∙ ap (λ (y : Bytes). (error x, y)) (d x refl)

mutual
  unfolding encode meaning unread depth type_byte read_typed repeat repeat_pairs read_boolean
      read_double parse_int

  reads :
      (rt : Runtime) (r : Reply) (fuel : ℕ) (rest : Bytes)
      → depth r ≤ fuel
      → WellFormed rt r
      → read_response rt (suc fuel) (encode r rest) ≡ (of_result (meaning rt r), unread rt r rest)
  reads rt (simple s) fuel rest d h =
      read_response-line rt fuel b'+' s rest ((omega arith, omega arith), h)
  reads rt (failure s) fuel rest d h =
      read_response-line rt fuel b'-' s rest ((omega arith, omega arith), h)
  reads rt (big_number s) fuel rest d h =
      read_response-line rt fuel b'(' s rest ((omega arith, omega arith), h)
  reads rt (bulk_string s) fuel rest d h =
      read_response-count rt fuel b'$' (length s) (s ++ crlf rest) (omega arith, omega arith)
      ∙ typed-bulk rt (read_response rt fuel) rest s h
  reads rt (blob_error s) fuel rest d h =
      read_response-count rt fuel b'!' (length s) (s ++ crlf rest) (omega arith, omega arith)
      ∙ typed-blob_error rt (read_response rt fuel) rest s h
  reads rt (integer z) fuel rest d h =
      read_response-line rt fuel b':' (format_int z) rest
        ((omega arith, omega arith), format_int-IsLine z)
      ∙ (rw (parse_int-format_int z h))
  reads rt null_bulk fuel rest d h =
      read_response-line rt fuel b'$' (b'-' ∷ b'1' ∷ []) rest (omega arith)
  reads rt null_array fuel rest d h =
      read_response-line rt fuel b'*' (b'-' ∷ b'1' ∷ []) rest (omega arith)
  reads rt null fuel rest d h = read_response-line rt fuel b'_' [] rest (omega arith)
  reads rt (array rs) zero rest d h = absurd (omega arith)
  reads rt (array rs) (suc fuel) rest d h =
      read_response-count rt (suc fuel) b'*' (count rs) (encode_items rs rest)
        (omega arith, omega arith)
      ∙ typed-array rt (read_response rt (suc fuel)) rest (count rs) (meaning_items rt rs)
          (unread_items rt rs rest) (encode_items rs rest) h.0
          (reads_items rt rs fuel rest (omega arith) h.1)
  reads rt (set rs) zero rest d h = absurd (omega arith)
  reads rt (set rs) (suc fuel) rest d h =
      read_response-count rt (suc fuel) b'~' (count rs) (encode_items rs rest)
        (omega arith, omega arith)
      ∙ typed-set rt (read_response rt (suc fuel)) rest (count rs) (meaning_items rt rs)
          (unread_items rt rs rest) (encode_items rs rest) h.0
          (reads_items rt rs fuel rest (omega arith) h.1)
  reads rt (map ps) zero rest d h = absurd (omega arith)
  reads rt (map ps) (suc fuel) rest d h =
      read_response-count rt (suc fuel) b'%' (count_pairs ps) (encode_pairs ps rest)
        (omega arith, omega arith)
      ∙ typed-map rt (read_response rt (suc fuel)) rest (count_pairs ps)
          (meaning_pairs rt ps no_entries) (unread_pairs rt ps rest) (encode_pairs ps rest) h.0
          (reads_pairs rt ps fuel rest no_entries (omega arith) h.1)
  reads rt (boolean true) fuel rest d h =
      read_response-line rt fuel b'#' (b't' ∷ []) rest (omega arith)
  reads rt (boolean false) fuel rest d h =
      read_response-line rt fuel b'#' (b'f' ∷ []) rest (omega arith)
  reads rt (double s f) fuel rest d h =
      read_response-line rt fuel b',' s rest ((omega arith, omega arith), h.0) ∙ (rw h.1)
  reads rt (verbatim format s) fuel rest d h =
      read_response-count rt fuel b'=' (length (format ++ b':' ∷ s))
        ((format ++ b':' ∷ s) ++ crlf rest) (omega arith, omega arith)
      ∙ typed-verbatim rt (read_response rt fuel) rest format s h.0 h.1 h.2

  reads_items :
      (rt : Runtime) (rs : Replies) (fuel : ℕ) (rest : Bytes)
      → depth_items rs ≤ fuel
      → WellFormedItems rt rs
      → repeat (read_response rt (suc fuel)) (count rs) (encode_items rs rest)
        ≡ (of_result (meaning_items rt rs), unread_items rt rs rest)
  reads_items rt no_replies fuel rest d h = refl
  reads_items rt (reply r rs) fuel rest d h =
      read-item rt (suc fuel) (count rs) _ _ _ (meaning rt r) (meaning_items rt rs)
        (reads rt r fuel (encode_items rs rest) (omega arith) h.0)
        (λ v e. rw (e, unread-ok rt r v _ e) (reads_items rt rs fuel rest (omega arith) h.1))
        (λ x e. rw e)

  reads_pairs :
      (rt : Runtime) (ps : Pairs) (fuel : ℕ) (rest : Bytes) (m : Entries)
      → depth_pairs ps ≤ fuel
      → WellFormedPairs rt ps
      → repeat_pairs rt (read_response rt (suc fuel)) (count_pairs ps) m (encode_pairs ps rest)
        ≡ (of_result (meaning_pairs rt ps m), unread_pairs rt ps rest)
  reads_pairs rt no_pairs fuel rest m d h = refl
  reads_pairs rt (pair k r ps) fuel rest m d h =
      read-pair rt (suc fuel) (count_pairs ps) m _ _ (unread rt r (encode_pairs ps rest)) _
        (meaning rt k) (meaning rt r) (λ x v. meaning_pairs rt ps (insert (sprint rt x) v m))
        (reads rt k fuel (encode r (encode_pairs ps rest)) (omega arith) h.0)
        (λ x e.
          rw (unread-ok rt k x _ e) (reads rt r fuel (encode_pairs ps rest) (omega arith) h.1))
        (λ x v e e'.
          rw (e, e', unread-ok rt r v _ e')
            (reads_pairs rt ps fuel rest (insert (sprint rt x) v m) (omega arith) h.2))
        (λ x e. rw e) (λ x y e e'. rw (e, e'))

-- On the bytes of any well-formed reply, with fuel above its nesting, the reader returns the reply's
-- value, or its first error; it leaves what follows the reply, or what follows that error.
pub read_response-encode :
    (rt : Runtime) (r : Reply) (fuel : ℕ) (rest : Bytes)
    → depth r < fuel
    → WellFormed rt r
    → read_response rt fuel (encode r rest) ≡ (of_result (meaning rt r), unread rt r rest)
read_response-encode rt r zero rest d h = absurd (omega arith)
read_response-encode rt r (suc fuel) rest d h = reads rt r fuel rest (omega arith) h
