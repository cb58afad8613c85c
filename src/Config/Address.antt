-- ===== src/Config/Address.antt =====
-- NewConfig on the URL of a host and a port.
use native.Mathlib.Omega.{arith}
use synap_sdk_go.Prelude.{
  ℕ, zero, suc, ◌^◌, ◌<◌, ◌≡◌, ◌≢◌, refl, ap, false, ◌&&◌, none, some, [], ◌∷◌, ◌++◌, leb, All,
  All-append, All-imp, pos,
}
use synap_sdk_go.Bytes.{Bytes, codes}
use synap_sdk_go.Bytes.Decimal.{
  format_nat, format_nat-IsDigit, IsDigit, parse_int, parse_int-format_int, format_int,
}
use synap_sdk_go.Command.{synap_rpc, resp3}
use package.synap_sdk_go.Config.{
  before_slash, split_last_colon, skip_blanks, leading_digits, signed_digits, scan_port, or_default,
  parse_host_port, new_config,
}

-- What may stand behind an authority: nothing, or a path.
abbrev pub IsPath : Bytes → Type 0
IsPath [] = Unit
IsPath (c ∷ s) = c ≡ b'/'

before_slash-path : (path : Bytes) → IsPath path → before_slash path ≡ []
unfolding before_slash
before_slash-path [] h = refl
before_slash-path (c ∷ s) h = ground arith

before_slash-append :
    (s path : Bytes) → All (λ c. c ≢ b'/') s → IsPath path → before_slash (s ++ path) ≡ s
unfolding before_slash
before_slash-append [] path h p = before_slash-path path p
before_slash-append (c ∷ s) path h p = ground (arith, before_slash-append s path h.1 p, h.0)

split_last_colon-none : (s : Bytes) → All (λ c. c ≢ b':') s → split_last_colon s ≡ none
unfolding split_last_colon
split_last_colon-none [] h = refl
split_last_colon-none (c ∷ s) h = rw (split_last_colon-none s h.1) (ground (arith, h.0))

split_last_colon-append :
    (host port : Bytes)
    → All (λ c. c ≢ b':') port
    → split_last_colon (host ++ b':' ∷ port) ≡ some (host, port)
unfolding split_last_colon
split_last_colon-append [] port h = rw (split_last_colon-none port h)
split_last_colon-append (c ∷ host) port h = rw (split_last_colon-append host port h)

leading_digits-digits : (s : Bytes) → All IsDigit s → leading_digits s ≡ s
unfolding leading_digits
leading_digits-digits [] h = refl
leading_digits-digits (c ∷ s) h = ground (arith, leading_digits-digits s h.1)

skip_blanks-digits : (s : Bytes) → All IsDigit s → skip_blanks s ≡ s
unfolding skip_blanks
skip_blanks-digits [] h = refl
skip_blanks-digits (c ∷ s) h = ground arith

signed_digits-digits : (s : Bytes) → All IsDigit s → signed_digits s ≡ s
unfolding signed_digits
signed_digits-digits [] h = refl
signed_digits-digits (c ∷ s) h = ground (arith, leading_digits-digits (c ∷ s) h)

parse_int-format_nat : (n : ℕ) → n < 2 ^ 63 → parse_int (format_nat n) ≡ some (pos n)
unfolding format_int
parse_int-format_nat n h = parse_int-format_int (pos n) h

scan_port-format_nat : (n : ℕ) → n < 2 ^ 63 → scan_port (format_nat n) ≡ pos n
unfolding scan_port
scan_port-format_nat n h = rw (
  skip_blanks-digits (format_nat n) (format_nat-IsDigit n),
  signed_digits-digits (format_nat n) (format_nat-IsDigit n),
  parse_int-format_nat n h,
)

digits-ne :
    (k : ℕ) → leb b'0' k && leb k b'9' ≡ false → (s : Bytes) → All IsDigit s → All (λ c. c ≢ k) s
digits-ne k h s d = All-imp IsDigit (λ c. c ≢ k) (λ c q e. ground arith) s d

or_default-pos : (default n : ℕ) → 0 < n → or_default default (pos n) ≡ pos n
or_default-pos default zero h = absurd (omega arith)
or_default-pos default (suc n) h = refl

-- host:port/path
abbrev pub authority : Bytes → ℕ → Bytes → Bytes
authority host port path = (host ++ b':' ∷ format_nat port) ++ path

parse_host_port-authority :
    (host path : Bytes) (port default : ℕ)
    → All (λ c. c ≢ b'/') host
    → IsPath path
    → 0 < port
    → port < 2 ^ 63
    → parse_host_port (authority host port path) default ≡ (host, pos port)
unfolding parse_host_port
parse_host_port-authority host path port default h p lo hi = rw (
  before_slash-append (host ++ b':' ∷ format_nat port) path
      (All-append (λ c. c ≢ b'/') host (b':' ∷ format_nat port) h
        (λ e. omega arith, digits-ne b'/' refl (format_nat port) (format_nat-IsDigit port)))
      p,
  split_last_colon-append host (format_nat port)
      (digits-ne b':' refl (format_nat port) (format_nat-IsDigit port)),
  scan_port-format_nat port hi,
  or_default-pos default port lo,
)

-- NewConfig takes scheme, host and port out of a URL scheme://host:port with any path behind it, for
-- synap:// and for resp3://, where no slash is in the host and the port is positive and fits an int.
-- The host may hold colons.
pub new_config-address :
    (host path : Bytes) (port : ℕ)
    → All (λ c. c ≢ b'/') host
    → IsPath path
    → 0 < port
    → port < 2 ^ 63
    → (let c = new_config (codes "synap://" ++ authority host port path) in
        (c.transport ≡ synap_rpc) × (c.host ≡ host) × (c.port ≡ pos port))
      × (let c = new_config (codes "resp3://" ++ authority host port path) in
          (c.transport ≡ resp3) × (c.host ≡ host) × (c.port ≡ pos port))
unfolding new_config
new_config-address host path port h p lo hi = (
  (refl, ap (λ a. a.0) (parsed 15501), ap (λ a. a.1) (parsed 15501)),
  (refl, ap (λ a. a.0) (parsed 6379), ap (λ a. a.1) (parsed 6379)),
)
  where
    parsed : (default : ℕ) → parse_host_port (authority host port path) default ≡ (host, pos port)
    parsed default = parse_host_port-authority host path port default h p lo hi
