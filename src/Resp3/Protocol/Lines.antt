-- ===== src/Resp3/Protocol/Lines.antt =====
-- The reader's lines and blocks against those that a server writes.
use synap_sdk_go.Prelude.{
  ℕ, suc, ◌+◌, ◌^◌, ◌<◌, ◌≡◌, refl, true, false, some, [], ◌∷◌, ◌++◌, arith, ltb, ℤ, pos, negsuc,
  length, length-append, take, drop, take-length-append, All, String,
}
use synap_sdk_go.Bytes.{Bytes}
use synap_sdk_go.Bytes.Decimal.{
  format_nat, format_int, parse_int, parse_int-format_int, IsDigit, format_nat-IsDigit,
}
use package.synap_sdk_go.Resp3.Outcome.{value}
use package.synap_sdk_go.Resp3.Frame.{crlf}
use package.synap_sdk_go.Resp3.Reader.{until_lf, trim_right, read_line, read_full, read_block}
use package.synap_sdk_go.Resp3.Protocol.{IsLine, FitsBlock}

until_lf-crlf : (s rest : Bytes) → IsLine s → until_lf (s ++ crlf rest) ≡ some (s ++ crlf [], rest)
unfolding until_lf
until_lf-crlf [] rest h = refl
until_lf-crlf (c ∷ s) rest (h, hs) = ground (arith, until_lf-crlf s rest hs)

trim_right-crlf : (s : Bytes) → IsLine s → trim_right (s ++ crlf []) ≡ s
unfolding trim_right
trim_right-crlf [] h = refl
trim_right-crlf (c ∷ []) h = ground arith
trim_right-crlf (c ∷ d ∷ s) (h, hs) = rw (trim_right-crlf (d ∷ s) hs)

-- A line without line breaks is read as it is.
pub read_line-crlf : (s rest : Bytes) → IsLine s → read_line (s ++ crlf rest) ≡ (value s, rest)
unfolding read_line
read_line-crlf s rest h = rw (until_lf-crlf s rest h, trim_right-crlf s h)

digit-IsLine : (s : Bytes) → All IsDigit s → IsLine s
digit-IsLine [] h = tt
digit-IsLine (c ∷ s) (h, hs) = ((omega arith, omega arith), digit-IsLine s hs)

pub format_nat-IsLine : (n : ℕ) → IsLine (format_nat n)
format_nat-IsLine n = digit-IsLine (format_nat n) (format_nat-IsDigit n)

pub format_int-IsLine : (z : ℤ) → IsLine (format_int z)
unfolding format_int
format_int-IsLine (pos n) = format_nat-IsLine n
format_int-IsLine (negsuc n) = ((omega arith, omega arith), format_nat-IsLine (suc n))

pub parse_int-format_nat : (n : ℕ) → n < 2 ^ 63 → parse_int (format_nat n) ≡ some (pos n)
unfolding format_int
parse_int-format_nat n h = parse_int-format_int (pos n) h

take-crlf : (s rest : Bytes) → take (suc (suc (length s))) (s ++ crlf rest) ≡ s ++ crlf []
take-crlf [] rest = refl
take-crlf (c ∷ s) rest = rw (take-crlf s rest)

drop-crlf : (s rest : Bytes) → drop (suc (suc (length s))) (s ++ crlf rest) ≡ rest
drop-crlf [] rest = refl
drop-crlf (c ∷ s) rest = drop-crlf s rest

length-crlf : (s rest : Bytes) → length (s ++ crlf rest) ≡ suc (suc (length s + length rest))
length-crlf s rest = omega (arith, length-append s (crlf rest))

add_two : (n : ℕ) → n + 2 ≡ suc (suc n)
add_two n = omega arith

not_short : (s rest : Bytes) → ltb (length (s ++ crlf rest)) (suc (suc (length s))) ≡ false
not_short s rest = ground (arith, length-crlf s rest)

read_full-crlf :
    (text : String) (s rest : Bytes)
    → read_full text (suc (suc (length s))) (s ++ crlf rest) ≡ (value (s ++ crlf []), rest)
unfolding read_full
read_full-crlf text s rest = rw (not_short s rest, take-crlf s rest, drop-crlf s rest)

fits : (s : Bytes) → FitsBlock s → ltb (suc (suc (length s))) (2 ^ 63) ≡ true
fits s h = ground arith

-- A block with its line break is read as it is, whatever bytes it holds.
pub read_block-crlf :
    (text : String) (s rest : Bytes)
    → FitsBlock s
    → read_block text (length s) (s ++ crlf rest) ≡ (value s, rest)
unfolding read_block
read_block-crlf text s rest h =
    rw (add_two (length s), fits s h, read_full-crlf text s rest, take-length-append s (crlf []))
