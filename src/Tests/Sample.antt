-- ===== src/Tests/Sample.antt =====
-- A runtime whose floats are integers, and commands to run.
use synap_sdk_go.Prelude.{
  ℕ, ◌+◌, ◌*◌, ◌/◌, ◌%◌, ◌&&◌, Option, none, some, [], ◌∷◌, ltb, ◌==◌, if◌then◌else◌, ℤ, pos,
  negsuc, true, List,
}
use synap_sdk_go.Bytes.{Bytes, codes}
use synap_sdk_go.Bytes.Decimal.{format_nat, parse_nat}
use synap_sdk_go.Value.{Value, Entries, str, float64, entry, no_entries}
use synap_sdk_go.Value.Text.{Runtime}
use synap_sdk_go.Errors.{Result, err, wrapped}
use synap_sdk_go.Resp3.Outcome.{error}
use synap_sdk_go.Command.{synap_rpc}
use synap_sdk_go.Response.Shapes.{Shape, El}
use synap_sdk_go.Client.Calls.{Call}
use synap_sdk_go.Client.Http.{World, Client}

-- Even patterns stand for the natural numbers, odd ones for the negative integers.
abbrev pub pattern_of : ℤ → ℕ
pattern_of (pos n) = n * 2
pattern_of (negsuc n) = n * 2 + 1

abbrev pub integer_of : ℕ → ℤ
integer_of f = if f % 2 == 0 then pos (f / 2) else negsuc (f / 2)

abbrev pub no_json : Value → Option Bytes
no_json v = none

abbrev pub parse_float : Bytes → Option ℕ
unfolding parse_nat
parse_float s = elim (parse_nat s) [ none ↦ none | some n ↦ some (n * 2) ]

abbrev pub integers : Runtime
integers = record {
  float_of_int = pattern_of;
  int_of_float = integer_of;
  float_positive = λ f. f % 2 == 0 && ltb 0 f;
  float_nonzero = λ f. ltb 0 f;
  float_text = format_nat;
  format_float = format_nat;
  parse_float = parse_float;
  uint64_of_float = λ f. f / 2;
  whole_seconds = λ d. d / 1000000000;
  marshal = no_json;
}

-- The payload of a kv.set, as it is and inside a transaction.
abbrev pub set_payload : Entries
set_payload = entry (codes "key") (str (codes "k")) (
    entry (codes "value") (str (222 ∷ 173 ∷ 13 ∷ 10 ∷ []))
      (entry (codes "ttl") (float64 120) no_entries))

abbrev pub queued_payload : Entries
queued_payload = entry (codes "client_id") (str (codes "tx1")) set_payload

abbrev no_unmarshal : (s : Shape) → Bytes → Result (El s)
no_unmarshal s raw = err (wrapped [])

abbrev no_answer : {S A B : Type 0} → A → Call S B
no_answer a s = (error (wrapped []), s)

-- A world with nothing but a server.
abbrev pub world_of : {S : Type 0} → (Bytes → List Value → Call S Value) → World S
world_of serve = record {
  rt = integers;
  json = record {
    unmarshal = no_unmarshal;
    unmarshal_map = λ raw. no_entries;
    envelope = λ raw. none;
    marshal_payload = λ p. none;
    marshal_command = λ command id payload. none;
    unmarshal_fields = λ raw. none;
    marshal_fields = λ m. none;
    marshal_text = λ s. none;
  };
  base64 = λ s. s;
  rpc = serve;
  resp3 = serve;
  is_url = λ url. true;
  post = no_answer;
  random = no_answer tt;
}

abbrev pub plain : Client
plain = record {
  transport = synap_rpc;
  endpoint = [];
  auth_token = [];
  username = [];
  password = [];
  tx_client_id = [];
}
