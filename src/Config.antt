-- ===== src/Config.antt =====
-- Config of client.go: NewConfig, parseHostPort, WithAuth, WithBasicAuth, WithTimeout, and NewClient.
pub mod Address
pub mod Auth
use synap_sdk_go.Prelude.{
  ℕ, Bool, Option, none, some, List, [], ◌∷◌, ◌++◌, ◌==◌, ◌||◌, ◌&&◌, leb, if◌then◌else◌, ℤ, pos,
  negsuc, zero, suc, drop, length, String,
}
use synap_sdk_go.Bytes.{Bytes, codes, has_prefix}
use synap_sdk_go.Bytes.Decimal.{is_digit, parse_int}
use synap_sdk_go.Command.{TransportMode, http, synap_rpc, resp3}
use synap_sdk_go.Client.Http.{Client}
use synap_sdk_go.Rpc.Values.{Thunder}
use synap_sdk_go.Rpc.Transport.{Session, new_transport, with_credentials}

-- Durations are in nanoseconds.
pub record Config : Type 0 where
  pub base_url : Bytes
  pub host : Bytes
  pub port : ℤ
  pub transport : TransportMode
  pub auth_token : Bytes
  pub username : Bytes
  pub password : Bytes
  pub timeout : ℤ

-- authority[:strings.Index(authority, "/")], or all of it
unfoldable pub before_slash : Bytes → Bytes
before_slash [] = []
before_slash (c ∷ s) = if c == b'/' then [] else c ∷ before_slash s

abbrev pub split_more : ℕ → Bytes → Option (Bytes × Bytes) → Option (Bytes × Bytes)
split_more c s (some (front, back)) = some (c ∷ front, back)
split_more c s none = if c == b':' then some ([], s) else none

-- The text in front of the last colon and that behind it, if there is one.
unfoldable pub split_last_colon : Bytes → Option (Bytes × Bytes)
split_last_colon [] = none
split_last_colon (c ∷ s) = split_more c s (split_last_colon s)

-- fmt.Sscanf(s, "%d", &port) with port 0 before: blanks are skipped, a sign and the digits behind it
-- are read, and port stays 0 where there is no int64. Of the blanks only those of ASCII are modelled;
-- a line break is an error.
abbrev is_blank : ℕ → Bool
is_blank c = c == 32 || c == 9 || c == 11 || c == 12 || c == 13

skip_blanks : Bytes → Bytes
skip_blanks [] = []
skip_blanks (c ∷ s) = let rest = skip_blanks s in if is_blank c then rest else c ∷ s

unfoldable pub leading_digits : Bytes → Bytes
leading_digits [] = []
leading_digits (c ∷ s) = if is_digit c then c ∷ leading_digits s else []

signed_digits : Bytes → Bytes
unfolding leading_digits
signed_digits [] = []
signed_digits (c ∷ s) =
    if c == b'-' || c == b'+' then c ∷ leading_digits s else leading_digits (c ∷ s)

abbrev or_zero : Option ℤ → ℤ
or_zero none = pos 0
or_zero (some n) = n

unfoldable pub scan_port : Bytes → ℤ
unfolding skip_blanks signed_digits parse_int
scan_port s = or_zero (parse_int (signed_digits (skip_blanks s)))

abbrev or_default : ℕ → ℤ → ℤ
or_default default (pos zero) = pos default
or_default default port = port

abbrev host_port : ℕ → Bytes → Option (Bytes × Bytes) → Bytes × ℤ
unfolding scan_port
host_port default authority none = (authority, pos default)
host_port default authority (some (host, port)) = (host, or_default default (scan_port port))

unfoldable pub parse_host_port : Bytes → ℕ → Bytes × ℤ
unfolding before_slash split_last_colon host_port
parse_host_port authority default =
    let authority' = before_slash authority in
    host_port default authority' (split_last_colon authority')

abbrev default_config : Bytes → Config
default_config url = record {
  base_url = url;
  host = [];
  port = pos 0;
  transport = http;
  auth_token = [];
  username = [];
  password = [];
  timeout = pos 30000000000;
}

abbrev addressed : TransportMode → Bytes × ℤ → Config → Config
addressed transport (host, port) cfg = record cfg {
  transport = transport;
  host = host;
  port = port;
}

-- strings.TrimPrefix, where the prefix is there
abbrev behind : String → Bytes → Bytes
behind scheme url = drop (length (codes scheme)) url

unfoldable pub new_config : Bytes → Config
unfolding has_prefix parse_host_port
new_config url =
    if has_prefix url (codes "synap://")
    then addressed synap_rpc (parse_host_port (behind "synap://" url) 15501) (default_config url)
    else if has_prefix url (codes "resp3://")
    then addressed resp3 (parse_host_port (behind "resp3://" url) 6379) (default_config url)
    else default_config url

unfoldable pub with_auth : Bytes → Config → Config
with_auth token c = record c { auth_token = token; username = []; password = [] }

unfoldable pub with_basic_auth : (username password : Bytes) → Config → Config
with_basic_auth username password c = record c {
  username = username;
  password = password;
  auth_token = [];
}

unfoldable pub with_timeout : ℤ → Config → Config
with_timeout d c = record c { timeout = d }

-- The endpoint of HTTP, which a client on a native transport has too.
abbrev endpoint_of : TransportMode → Config → Bytes
endpoint_of http c = c.base_url ++ codes "/api/v1/command"
endpoint_of native c = codes "http://" ++ (c.host ++ codes ":15500/api/v1/command")

unfoldable pub new_client : Config → Client
new_client c = record {
  transport = c.transport;
  endpoint = endpoint_of c.transport c;
  auth_token = c.auth_token;
  username = c.username;
  password = c.password;
  tx_client_id = [];
}

-- The SynapRPC transport that NewClient makes for synap://.
unfoldable pub new_rpc : (T : Thunder) → Config → Session T
unfolding new_transport with_credentials
new_rpc T c =
    with_credentials T c.auth_token c.username c.password (new_transport T c.host c.port c.timeout)
