-- ===== src/Bytes/Decimal.antt =====
-- strconv on base ten: FormatInt, Itoa, ParseInt and Atoi (int is 64 bits wide).
use synap_sdk_go.Prelude.{
  ℕ, zero, suc, ◌+◌, ◌-◌, ◌*◌, ◌/◌, ◌%◌, ◌^◌, ◌≤◌, ◌<◌, ◌≡◌, ◌≢◌, refl, Bool, ◌&&◌, Option, none,
  some, List, [], ◌∷◌, arith, ltb, leb, ◌==◌, if◌then◌else◌, ℤ, pos, negsuc, InInt64, All, inl, inr,
  Bool-cases,
}

digits : ℕ → ℕ → List ℕ → List ℕ
digits zero n acc = acc
digits (suc f) n acc =
    let rest = digits f (n / 10) ((b'0' + n % 10) ∷ acc) in
    if ltb n 10 then (b'0' + n % 10) ∷ acc else rest

-- A number below its fuel is printed whole, since a round divides it by ten.
unfoldable pub format_nat : ℕ → List ℕ
unfolding digits
format_nat n = digits (suc n) n []

unfoldable pub format_int : ℤ → List ℕ
unfolding format_nat
format_int (pos n) = format_nat n
format_int (negsuc n) = b'-' ∷ format_nat (suc n)

abbrev pub is_digit : ℕ → Bool
is_digit c = leb b'0' c && leb c b'9'

scan : List ℕ → ℕ → Option ℕ
scan [] n = some n
scan (c ∷ s) n = if is_digit c then scan s (n * 10 + (c - b'0')) else none

unfoldable pub parse_nat : List ℕ → Option ℕ
unfolding scan
parse_nat [] = none
parse_nat (c ∷ s) = scan (c ∷ s) 0

-- The range checks of ParseInt(s, 10, 64).
abbrev pub in_range_pos : Option ℕ → Option ℤ
in_range_pos none = none
in_range_pos (some n) = if ltb n (2 ^ 63) then some (pos n) else none

abbrev pub in_range_neg : Option ℕ → Option ℤ
in_range_neg none = none
in_range_neg (some zero) = some (pos 0)
in_range_neg (some (suc n)) = if ltb n (2 ^ 63) then some (negsuc n) else none

unfoldable pub parse_int : List ℕ → Option ℤ
unfolding parse_nat
parse_int [] = none
parse_int (c ∷ s) =
    if c == b'-'
    then in_range_neg (parse_nat s)
    else if c == b'+'
    then in_range_pos (parse_nat s)
    else in_range_pos (parse_nat (c ∷ s))

abbrev pub IsDigit : ℕ → Type 0
IsDigit c = (b'0' ≤ c) × (c ≤ b'9')

digits-IsDigit : (f n : ℕ) (acc : List ℕ) → All IsDigit acc → All IsDigit (digits f n acc)
unfolding digits
digits-IsDigit zero n acc h = h
digits-IsDigit (suc f) n acc h = elim (Bool-cases (ltb n 10)) [
  | inl e ↦ rw e (omega arith, h)
  | inr e ↦ rw e (digits-IsDigit f (n / 10) ((b'0' + n % 10) ∷ acc) (omega arith, h))
]

pub format_nat-IsDigit : (n : ℕ) → All IsDigit (format_nat n)
unfolding format_nat
format_nat-IsDigit n = digits-IsDigit (suc n) n [] tt

digits-ne-nil : (f n : ℕ) (acc : List ℕ) → acc ≢ [] → digits f n acc ≢ []
unfolding digits
digits-ne-nil zero n acc h = h
digits-ne-nil (suc f) n acc h = elim (Bool-cases (ltb n 10)) [
  | inl e ↦ rw e (cc)
  | inr e ↦ rw e (digits-ne-nil f (n / 10) ((b'0' + n % 10) ∷ acc) (cc))
]

format_nat-ne-nil : (n : ℕ) → format_nat n ≢ []
unfolding format_nat
format_nat-ne-nil n = elim (Bool-cases (ltb n 10)) [
  | inl e ↦ rw e (cc)
  | inr e ↦ rw e (digits-ne-nil n (n / 10) ((b'0' + n % 10) ∷ []) (cc))
]

scan-digits : (f n : ℕ) (acc : List ℕ) → n < f → scan (digits f n acc) 0 ≡ scan acc n
unfolding digits scan
scan-digits zero n acc h = absurd (omega arith)
scan-digits (suc f) n acc h = ground (arith, scan-digits f (n / 10) ((b'0' + n % 10) ∷ acc))

parse_nat-scan : (s : List ℕ) → s ≢ [] → parse_nat s ≡ scan s 0
unfolding parse_nat
parse_nat-scan [] h = absurd (h refl)
parse_nat-scan (c ∷ s) h = refl

pub parse_nat-format_nat : (n : ℕ) → parse_nat (format_nat n) ≡ some n
parse_nat-format_nat n =
    rw (parse_nat-scan (format_nat n) (format_nat-ne-nil n))
      (unfold format_nat scan in scan-digits (suc n) n [] (omega arith))

-- A text of digits has no sign.
parse_int-parse_nat : (s : List ℕ) → All IsDigit s → parse_int s ≡ in_range_pos (parse_nat s)
unfolding parse_int
parse_int-parse_nat [] h = refl
parse_int-parse_nat (c ∷ s) h = ground arith

-- Every int64 is read back from its print.
pub parse_int-format_int : (z : ℤ) → InInt64 z → parse_int (format_int z) ≡ some z
parse_int-format_int (pos n) h =
    unfold format_int in
    rw (parse_int-parse_nat (format_nat n) (format_nat-IsDigit n), parse_nat-format_nat n)
      (ground arith)
parse_int-format_int (negsuc n) h =
    unfold format_int parse_int in rw (parse_nat-format_nat (suc n)) (ground arith)
