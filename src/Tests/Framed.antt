-- ===== src/Tests/Framed.antt =====
-- KVStore over RESP3, with an encoding in place of JSON.
use synap_sdk_go.Prelude.{
  ◌≡◌, refl, ℕ, suc, Option, none, some, [], ◌∷◌, ◌++◌, pos, length, take, drop, zero,
  take-length-append, drop-length-append, arith,
}
use synap_sdk_go.Bytes.{Bytes, codes, bytes_eq}
use synap_sdk_go.Bytes.Decimal.{format_nat}
use synap_sdk_go.Value.{Value, Entries, nil, str, entry, no_entries}
use synap_sdk_go.Value.Text.{Runtime}
use synap_sdk_go.Errors.{Result, ok, err, wrapped}
use synap_sdk_go.Command.{resp3}
use synap_sdk_go.Payload.{Reflected, struct, field, string, no_fields}
use synap_sdk_go.Response.{is_null}
use synap_sdk_go.Response.Shapes.{Shape, El}
use synap_sdk_go.Rpc.Utf8.{is_utf8}
use synap_sdk_go.Resp3.Outcome.{value}
use synap_sdk_go.Resp3.Frame.{frame}
use synap_sdk_go.Resp3.Protocol.{bulk_string, null_bulk, simple, encode, meaning}
use synap_sdk_go.Resp3.Connection.{Conn, sent, Transport, execute}
use synap_sdk_go.Resp3.Connection.Session.{live}
use synap_sdk_go.Client.Http.{World, Client}
use synap_sdk_go.Managers.KvStore.{kv_set, kv_get}
use synap_sdk_go.Managers.Keys.Framed.{KeepsText, kv-framed}
use package.synap_sdk_go.Tests.Sample.{integers, world_of, plain}

abbrev encoded : Value → Option Bytes
encoded nil = some (codes "null")
encoded (str t) = some (b'"' ∷ t)
encoded v = some (codes "{}")

abbrev payload_bytes : Reflected → Option Bytes
payload_bytes (struct (field name omit (string key) no_fields)) = some (0 ∷ key)
payload_bytes (struct (field name omit (string key) (field name' omit' (string t) fs))) =
    some (1 ∷ length key ∷ key ++ t)
payload_bytes p = none

abbrev payload_map : Bytes → Entries
payload_map (zero ∷ key) = entry (codes "key") (str key) no_entries
payload_map (suc n ∷ k ∷ text) =
    entry (codes "key") (str (take k text))
      (entry (codes "value") (str (drop k text)) (entry (codes "ttl") nil no_entries))
payload_map raw = no_entries

abbrev decoded : (s : Shape) → Bytes → Result (El s)
decoded Shape.string (q ∷ t) = ok t
decoded s raw = err (wrapped [])

abbrev texts : Runtime
texts = record integers { marshal = encoded }

never : ℕ → Option Conn
never n = none

abbrev blank : World Transport
blank = world_of (λ cmd args s. (value nil, s))

abbrev world : World Transport
world = record blank {
  rt = texts;
  json = record blank.json {
    unmarshal = decoded;
    unmarshal_map = payload_map;
    marshal_payload = payload_bytes;
  };
  resp3 = execute texts never;
}

world-KeepsText : KeepsText world
unfolding is_null bytes_eq
world-KeepsText = record {
  asks = λ key h. (_, refl, refl);
  stores = λ key t h k. (_, refl, rw (take-length-append key t, drop-length-append key t));
  answers = λ t h. (_, refl, refl, refl);
  null_text = refl;
  object = (_, refl);
}

abbrev client : Client
client = record plain { transport = resp3 }

kv-framed_example :
    (kv_get world client (codes "k") (live 1 (encode (bulk_string (codes "a\r\n")) []) 0 [])
      ≡ (value (codes "a\r\n"), live 0 [] 0 (sent (frame (codes "GET" ∷ codes "k" ∷ [])) ∷ [])))
    × (kv_get world client (codes "k") (live 1 (encode null_bulk []) 0 [])
        ≡ (value [], live 0 [] 0 (sent (frame (codes "GET" ∷ codes "k" ∷ [])) ∷ [])))
    × (kv_set world client
          (codes "k")
          (codes "a\r\n")
          (pos 0)
          (live 1 (encode (simple (codes "OK")) []) 0 [])
        ≡ (
          value tt,
          live 0 [] 0 (sent (frame (codes "SET" ∷ codes "k" ∷ codes "a\r\n" ∷ [])) ∷ []),
        ))
unfolding is_utf8 meaning
kv-framed_example =
    kv-framed world never refl world-KeepsText client refl refl refl (codes "k") (codes "a\r\n")
      (simple (codes "OK")) (str (codes "OK")) 0 0 [] [] refl refl (omega arith)
      ((omega arith, omega arith), ((omega arith, omega arith), tt)) refl

get_frame : frame (codes "GET" ∷ codes "k" ∷ []) ≡ codes "*2\r\n$3\r\nGET\r\n$1\r\nk\r\n"
unfolding frame format_nat
get_frame = refl
