-- ===== src/Resp3/Reader/Total.antt =====
-- readResponse ends on every input: no reply is nested deeper than its bytes are many.
use synap_sdk_go.Prelude.{
  ℕ, zero, suc, ◌+◌, ◌^◌, ◌≤◌, ◌<◌, ◌≢◌, refl, Bool, true, false, Option, none, some, [], ◌∷◌,
  String, arith, ltb, ◌==◌, if◌then◌else◌, ℤ, pos, negsuc, length, drop, Bool-cases, inl, inr,
}
use synap_sdk_go.Bytes.{Bytes}
use synap_sdk_go.Bytes.Decimal.{parse_int}
use synap_sdk_go.Value.{Value, Entries, float64, str, int64}
use synap_sdk_go.Value.Text.{Runtime}
use synap_sdk_go.Errors.{Error, synap, server_error}
use package.synap_sdk_go.Resp3.Outcome.{
  Outcome, value, error, panic, out_of_fuel, Reader, continue, ◌>>=◌, pure, fail, crash,
}
use package.synap_sdk_go.Resp3.Reader.{
  until_lf, read_line, read_full, read_block, read_counted, read_bulk, read_blob_error,
  read_verbatim, repeat, read_elements, repeat_pairs, read_map, read_boolean, read_double,
  read_typed, read_tagged, read_response, read_reply, number_or, or_fail, strip_format, TypeByte,
  type_byte, simple, failure, integer, bulk_string, array, map, set, boolean, double, big_number,
  blob_error, verbatim, null, unknown, line_of, trim_right,
}

-- On inputs shorter than n the fuel does not run out, and no byte is made up.
pub record Ends {A : Type 0} (n : ℕ) (m : Reader A) : Type 0 where
  pub at : (s : Bytes) → length s < n → ((m s).0 ≢ out_of_fuel) × (length (m s).1 ≤ length s)

module _ {A : Type 0} {n : ℕ} where
  Ends-pure : (a : A) → Ends n (pure a)
  Ends-pure a = record { at = λ s h. (cc, omega arith) }

  Ends-fail : (e : Error) → Ends n (fail {A = A} e)
  Ends-fail e = record { at = λ s h. (cc, omega arith) }

  Ends-crash : Ends n (crash {A = A})
  Ends-crash = record { at = λ s h. (cc, omega arith) }

  Ends-if : (b : Bool) (x y : Reader A) → Ends n x → Ends n y → Ends n (if b then x else y)
  Ends-if true x y hx hy = hx
  Ends-if false x y hx hy = hy

module _ {A B : Type 0} {n : ℕ} where
  continue-Ends :
      (r : Outcome A) (s' : Bytes) (f : A → Reader B) (k : ℕ)
      → ((a : A) → Ends n (f a))
      → r ≢ out_of_fuel
      → length s' ≤ k
      → k < n
      → ((continue r s' f).0 ≢ out_of_fuel) × (length (continue r s' f).1 ≤ k)
  continue-Ends (value a) s' f k hf hr hs hk =
      let (x, y) = (hf a).at s' (omega arith) in (x, omega arith)
  continue-Ends (error e) s' f k hf hr hs hk = (cc, hs)
  continue-Ends panic s' f k hf hr hs hk = (cc, hs)
  continue-Ends out_of_fuel s' f k hf hr hs hk = absurd (hr refl)

  Ends-bind :
      (m : Reader A) (f : A → Reader B) → Ends n m → ((a : A) → Ends n (f a)) → Ends n (m >>= f)
  Ends-bind m f hm hf = record {
    at = λ s h. let (x, y) = hm.at s h in continue-Ends (m s).0 (m s).1 f (length s) hf x y h;
  }

length-drop-le : (n : ℕ) (s : Bytes) → length (drop n s) ≤ length s
length-drop-le zero s = omega arith
length-drop-le (suc n) [] = omega arith
length-drop-le (suc n) (c ∷ s) = omega (arith, length-drop-le n s)

-- What is behind a line is shorter than the input.
abbrev Shorter : Bytes → Option (Bytes × Bytes) → Type 0
Shorter s none = Unit
Shorter s (some (line, rest)) = length rest < length s

until_lf-Shorter : (s : Bytes) → Shorter s (until_lf s)
unfolding until_lf
until_lf-Shorter [] = tt
until_lf-Shorter (c ∷ s) = step (until_lf s) (until_lf-Shorter s)
  where
    step :
        (o : Option (Bytes × Bytes))
        → Shorter s o
        → Shorter (c ∷ s) (
            if c == 10
            then some (c ∷ [], s)
            else elim o [ none ↦ none | some (line, rest) ↦ some (c ∷ line, rest) ])
    step none h = elim (Bool-cases (c == 10)) [ inl e ↦ rw e (omega arith) | inr e ↦ rw e tt ]
    step (some (line, rest)) h = elim (Bool-cases (c == 10)) [
      | inl e ↦ rw e (omega arith)
      | inr e ↦ rw e (omega arith)
    ]

module _ (n : ℕ) where
  Ends-read_full : (text : String) (k : ℕ) → Ends n (read_full text k)
  unfolding read_full
  Ends-read_full text k = record {
    at = λ s h. elim (Bool-cases (ltb (length s) k)) [
      | inl e ↦ rw e (cc, omega arith)
      | inr e ↦ rw e (cc, length-drop-le k s)
    ];
  }

  Ends-read_block : (text : String) (k : ℕ) → Ends n (read_block text k)
  unfolding read_block
  Ends-read_block text k =
      Ends-if (ltb (k + 2) (2 ^ 63)) _ _
        (Ends-bind _ _ (Ends-read_full text (k + 2)) (λ a. Ends-pure _)) Ends-crash

  Ends-read_counted : (text : String) (z : ℤ) → Ends n (read_counted text z)
  unfolding read_counted
  Ends-read_counted text (pos k) = Ends-read_block text k
  Ends-read_counted text (negsuc zero) = Ends-bind _ _ (Ends-read_full text 1) (λ a. Ends-crash)
  Ends-read_counted text (negsuc (suc k)) = Ends-crash

  Ends-read_bulk : (z : ℤ) → Ends n (read_bulk z)
  unfolding read_bulk
  Ends-read_bulk (pos k) =
      Ends-bind (read_block "RESP3: read bulk data" k) (λ d. pure (str d))
        (Ends-read_block "RESP3: read bulk data" k) (λ d. Ends-pure (str d))
  Ends-read_bulk (negsuc zero) = Ends-pure _
  Ends-read_bulk (negsuc (suc k)) = Ends-crash

  Ends-read_blob_error : (z : ℤ) → Ends n (read_blob_error z)
  unfolding read_blob_error
  Ends-read_blob_error z =
      Ends-bind (read_counted "RESP3: read blob error" z) _
        (Ends-read_counted "RESP3: read blob error" z) (λ d. Ends-fail (synap (server_error d)))

  Ends-read_verbatim : (z : ℤ) → Ends n (read_verbatim z)
  unfolding read_verbatim
  Ends-read_verbatim z =
      Ends-bind (read_counted "RESP3: read verbatim string" z) _
        (Ends-read_counted "RESP3: read verbatim string" z) (λ d. Ends-pure (str (strip_format d)))

  Ends-or_fail :
      {A B : Type 0} (text : String) (o : Option A) (k : A → Reader B)
      → ((a : A) → Ends n (k a))
      → Ends n (or_fail text o k)
  Ends-or_fail text none k h = Ends-fail _
  Ends-or_fail text (some a) k h = h a

  Ends-number_or :
      (text : String) (payload : Bytes) (k : ℤ → Reader Value)
      → ((z : ℤ) → Ends n (k z))
      → Ends n (number_or text payload k)
  Ends-number_or text payload k h = Ends-or_fail text (parse_int payload) k h

  Ends-read_boolean : (payload : Bytes) → Ends n (read_boolean payload)
  unfolding read_boolean
  Ends-read_boolean [] = Ends-fail _
  Ends-read_boolean (c ∷ []) =
      Ends-if (c == b't') _ _ (Ends-pure _) (Ends-if (c == b'f') _ _ (Ends-pure _) (Ends-fail _))
  Ends-read_boolean (c ∷ d ∷ s) = Ends-fail _

module _ (n : ℕ) (read : Reader Value) (ends : Ends n read) where
  Ends-repeat : (k : ℕ) → Ends n (repeat read k)
  unfolding repeat
  Ends-repeat zero = Ends-pure _
  Ends-repeat (suc k) =
      Ends-bind read _ ends (λ v. Ends-bind (repeat read k) _ (Ends-repeat k) (λ vs. Ends-pure _))

  Ends-read_elements : (z : ℤ) → Ends n (read_elements read z)
  unfolding read_elements
  Ends-read_elements (pos k) = Ends-bind _ _ (Ends-repeat k) (λ vs. Ends-pure _)
  Ends-read_elements (negsuc zero) = Ends-pure _
  Ends-read_elements (negsuc (suc k)) = Ends-crash

  module _ (rt : Runtime) where
    Ends-repeat_pairs : (k : ℕ) (m : Entries) → Ends n (repeat_pairs rt read k m)
    unfolding repeat_pairs
    Ends-repeat_pairs zero m = Ends-pure _
    Ends-repeat_pairs (suc k) m =
        Ends-bind read _ ends (λ x. Ends-bind read _ ends (λ v. Ends-repeat_pairs k _))

    Ends-read_map : (z : ℤ) → Ends n (read_map rt read z)
    unfolding read_map
    Ends-read_map (pos k) = Ends-bind _ _ (Ends-repeat_pairs k _) (λ m. Ends-pure _)
    Ends-read_map (negsuc zero) = Ends-pure _
    Ends-read_map (negsuc (suc k)) = Ends-pure _

    Ends-read_double : (payload : Bytes) → Ends n (read_double rt payload)
    unfolding read_double
    Ends-read_double payload =
        Ends-or_fail n "RESP3: invalid double" (rt.parse_float payload) (λ f. pure (float64 f))
          (λ f. Ends-pure _)

    Ends-read_typed : (k : TypeByte) (payload : Bytes) → Ends n (read_typed rt read k payload)
    unfolding read_typed
    Ends-read_typed simple payload = Ends-pure _
    Ends-read_typed failure payload = Ends-fail _
    Ends-read_typed integer payload =
        Ends-number_or n "RESP3: invalid integer" payload _ (λ z. Ends-pure (int64 z))
    Ends-read_typed bulk_string payload =
        Ends-number_or n "RESP3: invalid bulk length" payload _ (Ends-read_bulk n)
    Ends-read_typed array payload =
        Ends-number_or n "RESP3: invalid array length" payload _ Ends-read_elements
    Ends-read_typed map payload =
        Ends-number_or n "RESP3: invalid map length" payload _ Ends-read_map
    Ends-read_typed set payload =
        Ends-number_or n "RESP3: invalid set length" payload _ Ends-read_elements
    Ends-read_typed boolean payload = Ends-read_boolean n payload
    Ends-read_typed double payload = Ends-read_double payload
    Ends-read_typed big_number payload = Ends-pure _
    Ends-read_typed blob_error payload =
        Ends-number_or n "RESP3: invalid blob error length" payload _ (Ends-read_blob_error n)
    Ends-read_typed verbatim payload =
        Ends-number_or n "RESP3: invalid verbatim length" payload _ (Ends-read_verbatim n)
    Ends-read_typed null payload = Ends-pure _
    Ends-read_typed unknown payload = Ends-fail _

    Ends-read_tagged : (line : Bytes) → Ends n (read_tagged rt read line)
    Ends-read_tagged [] = Ends-fail _
    Ends-read_tagged (c ∷ payload) = Ends-read_typed (type_byte c) payload

-- Reading a line ends, and what goes on behind it has less input.
line-Ends :
    (rt : Runtime) (fuel : ℕ) (read : Reader Value)
    → Ends fuel read
    → Ends (suc fuel) (read_line >>= read_tagged rt read)
unfolding read_line
line-Ends rt fuel read ends = record { at = λ s h. by_line s h (until_lf s) (until_lf-Shorter s) }
  where
    by_line :
        (s : Bytes)
        → length s < suc fuel
        → (o : Option (Bytes × Bytes)) → Shorter s o
        → ((continue (line_of o).0 (line_of o).1 (read_tagged rt read)).0 ≢ out_of_fuel)
          × (length (continue (line_of o).0 (line_of o).1 (read_tagged rt read)).1 ≤ length s)
    by_line s h none _ = (cc, omega arith)
    by_line s h (some (line, rest)) shorter =
        let (x, y) = (Ends-read_tagged fuel read ends rt (trim_right line)).at rest (omega arith) in
        (x, omega arith)

pub read_response-Ends : (rt : Runtime) (fuel : ℕ) → Ends fuel (read_response rt fuel)
unfolding read_response
read_response-Ends rt zero = record { at = λ s h. absurd (omega arith) }
read_response-Ends rt (suc fuel) =
    line-Ends rt fuel (read_response rt fuel) (read_response-Ends rt fuel)

-- The fuel of `read_reply` never runs out: every input gives a value, an error or a panic.
pub read_reply-ne-out_of_fuel : (rt : Runtime) (s : Bytes) → (read_reply rt s).0 ≢ out_of_fuel
unfolding read_reply
read_reply-ne-out_of_fuel rt s = ((read_response-Ends rt (suc (length s))).at s (omega arith)).0
