-- ===== src/Managers/Keys/Framed.antt =====
-- Set and Get of KVStore over RESP3, down to the bytes on the connection.
use synap_sdk_go.Prelude.{◌≡◌, refl, inl, ℕ, suc, true, false, Option, some, List, [], ◌∷◌, pos}
use synap_sdk_go.Bytes.{Bytes, codes, bytes_eq}
use synap_sdk_go.Value.{Value, nil, bool, str, dict, entry, no_entries}
use synap_sdk_go.Value.Maps.{lookup}
use synap_sdk_go.Value.Text.{sprint}
use synap_sdk_go.Errors.{ok}
use synap_sdk_go.Command.{resp3}
use synap_sdk_go.Payload.{Fields, no_fields, nil_pointer, struct}
use synap_sdk_go.Response.{json, decode, is_null}
use synap_sdk_go.Response.Shapes.{Shape}
use synap_sdk_go.Rpc.Utf8.{is_utf8}
use synap_sdk_go.Resp3.Outcome.{value}
use synap_sdk_go.Resp3.Frame.{frame, build_multibulk}
use synap_sdk_go.Resp3.Protocol.{
  Reply, bulk_string, null_bulk, encode, meaning, WellFormed, FitsBlock,
}
use synap_sdk_go.Resp3.Connection.{Conn, Event, sent, Transport, execute}
use synap_sdk_go.Resp3.Connection.Session.{live, execute-flat}
use synap_sdk_go.Client.{send_command}
use synap_sdk_go.Client.Http.{World, Client}
use package.synap_sdk_go.Managers.{with_text, with_field}
use package.synap_sdk_go.Managers.KvStore.{kv_set, kv_get}

abbrev pub get_payload : Bytes → Fields
get_payload key = with_text "key" key no_fields

abbrev pub set_payload : Bytes → Bytes → Fields
set_payload key t =
    with_text "key" key (with_text "value" t (with_field "ttl" nil_pointer no_fields))

-- Of encoding/json: text that is valid UTF-8 comes back, nil is null, and an object can be encoded.
pub record KeepsText {S : Type 0} (w : World S) : Type 0 where
  pub asks :
      (key : Bytes)
      → is_utf8 key ≡ true
      → (raw : Bytes) × (w.json.marshal_payload (struct (get_payload key)) ≡ some raw)
        × (w.json.unmarshal_map raw ≡ entry (codes "key") (str key) no_entries)
  pub stores :
      (key t : Bytes)
      → is_utf8 key ≡ true
      → is_utf8 t ≡ true
      → (raw : Bytes) × (w.json.marshal_payload (struct (set_payload key t)) ≡ some raw)
        × (w.json.unmarshal_map raw
            ≡ entry
                (codes "key")
                (str key)
                (entry (codes "value") (str t) (entry (codes "ttl") nil no_entries)))
  pub answers :
      (t : Bytes)
      → is_utf8 t ≡ true
      → (raw : Bytes) × (w.rt.marshal (str t) ≡ some raw)
        × (is_null (json raw) ≡ false)
        × (w.json.unmarshal Shape.string raw ≡ ok t)
  pub null_text : w.rt.marshal nil ≡ some (codes "null")
  pub object :
      (raw : Bytes) × (w.rt.marshal (dict (entry (codes "success") (bool true) no_entries))
        ≡ some raw)

module _ (w : World Transport) (dial : ℕ → Option Conn) (over : w.resp3 ≡ execute w.rt dial)
    (law : KeepsText w) (c : Client) (mode : c.transport ≡ resp3) (plain : c.tx_client_id ≡ [])
    (zero_text : w.rt.float_positive 0 ≡ false) where
  -- One command on the connection, and the reply that comes next.
  answered :
      (cmd : Bytes) (args : List Value) (r : Reply) (v : Value) (n d : ℕ) (rest : Bytes)
      (log : List Event)
      → WellFormed w.rt r
      → meaning w.rt r ≡ ok v
      → w.resp3 cmd args (live (suc n) (encode r rest) d log)
        ≡ (value v, live n rest d (sent (build_multibulk w.rt cmd args) ∷ log))
  answered cmd args r v n d rest log h e =
      rw (over, execute-flat w.rt dial cmd args n d r rest log h (inl (v, e)), e)

  get-answered :
      (key : Bytes) (v : Value) (answer : Bytes) (s u : Transport)
      → is_utf8 key ≡ true
      → w.resp3 (codes "GET") (str key ∷ []) s ≡ (value v, u)
      → w.rt.marshal v ≡ some answer
      → send_command w c (codes "kv.get") (struct (get_payload key)) s ≡ (value (json answer), u)
  unfolding send_command lookup
  get-answered key v answer s u hk e m =
      let (raw, marshals, back) = law.asks key hk in rw (mode, marshals, back, plain, e, m)

  set-answered :
      (key t : Bytes) (v : Value) (s u : Transport)
      → is_utf8 key ≡ true
      → is_utf8 t ≡ true
      → w.resp3 (codes "SET") (str key ∷ str t ∷ []) s ≡ (value v, u)
      → kv_set w c key t (pos 0) s ≡ (value tt, u)
  unfolding kv_set send_command lookup
  set-answered key t v s u hk ht e =
      let (raw, marshals, back) = law.stores key t hk ht in
      let (answer, m) = law.object in rw (mode, marshals, back, plain, zero_text, e, m)

  -- Over RESP3, on a connection that delivers a well-formed reply, Get of a client outside of
  -- transactions writes exactly the frame of GET and the key, and returns a bulk string byte for byte,
  -- or the empty string for a null; and Set without a time to live writes exactly the frame of SET,
  -- the key and the value, and succeeds on any reply that is a value. Nothing else is written, dialled
  -- or closed, and what stands behind the reply is left unread. Key and value are valid UTF-8, which
  -- encoding/json is taken to bring back, and zero is taken not to be positive.
  pub kv-framed :
      (key t : Bytes) (r : Reply) (v : Value) (n d : ℕ) (rest : Bytes) (log : List Event)
      → is_utf8 key ≡ true
      → is_utf8 t ≡ true
      → FitsBlock t
      → WellFormed w.rt r
      → meaning w.rt r ≡ ok v
      → (kv_get w c key (live (suc n) (encode (bulk_string t) rest) d log)
          ≡ (value t, live n rest d (sent (frame (codes "GET" ∷ key ∷ [])) ∷ log)))
        × (kv_get w c key (live (suc n) (encode null_bulk rest) d log)
            ≡ (value [], live n rest d (sent (frame (codes "GET" ∷ key ∷ [])) ∷ log)))
        × (kv_set w c key t (pos 0) (live (suc n) (encode r rest) d log)
            ≡ (value tt, live n rest d (sent (frame (codes "SET" ∷ key ∷ t ∷ [])) ∷ log)))
  unfolding kv_get decode is_null build_multibulk sprint meaning bytes_eq
  kv-framed key t r v n d rest log hk ht fits wf e =
      let (raw, m, filled, back) = law.answers t ht in
      (
        rw (
          get-answered key (str t) raw _ _ hk
              (answered (codes "GET") (str key ∷ []) (bulk_string t) (str t) n d rest log fits refl)
              m,
          filled,
          back,
        ),
        rw (
            get-answered key nil (codes "null") _ _ hk
              (answered (codes "GET") (str key ∷ []) null_bulk nil n d rest log tt refl)
              law.null_text),
        set-answered key t v _ _ hk ht
            (answered (codes "SET") (str key ∷ str t ∷ []) r v n d rest log wf e),
      )
