-- ===== src/Managers/Rpc.antt =====
-- What the methods of the managers do over SynapRPC.
use synap_sdk_go.Prelude.{◌≡◌, refl, [], ◌∷◌, String, ◌∙◌, false, Option, none, some, pos}
use synap_sdk_go.Bytes.{Bytes, codes}
use synap_sdk_go.Value.{Value, nil, str}
use synap_sdk_go.Value.Maps.{lookup}
use synap_sdk_go.Value.Text.{sprint}
use synap_sdk_go.Errors.{ok}
use synap_sdk_go.Command.{synap_rpc}
use synap_sdk_go.Command.Wire.{Wire, wire}
use synap_sdk_go.Command.Route.{is_queueable, map_command_to_wire}
use synap_sdk_go.Command.Reply.{map_response_from_wire}
use synap_sdk_go.Payload.{Fields, struct, payload_to_map, no_fields}
use synap_sdk_go.Response.{Response, decode}
use synap_sdk_go.Response.Shapes.{Shape, El}
use synap_sdk_go.Resp3.Outcome.{value}
use synap_sdk_go.Client.{tagged, send_command, normalize_ints}
use synap_sdk_go.Client.Calls.{Call, ◌>>=◌, pure, bind_assoc, bind_ext}
use synap_sdk_go.Client.Http.{World, Client}
use package.synap_sdk_go.Managers.{ask, or_invalid, one, with_text, with_texts}
use package.synap_sdk_go.Managers.HashManager.{hash_set, hash_get, hash_del, text_or_empty}

-- A command as a client of a transaction, or of none, sends it.
abbrev pub scoped : Bytes → Wire → Wire
scoped [] sent = sent
scoped (b ∷ id) sent = wire "TXQUEUE" (str (b ∷ id) ∷ str sent.cmd ∷ sent.args)

-- What the server answers for a field.
abbrev pub reply_of : Option Bytes → Value
reply_of none = nil
reply_of (some t) = str t

module _ {S : Type 0} (w : World S) (c : Client) (rpc : c.transport ≡ synap_rpc) where
  abbrev pub answer : String → Value → Response
  unfolding map_response_from_wire normalize_ints
  answer command v = Response.value (map_response_from_wire w.rt (codes command) (normalize_ints v))

  unfoldable pub IsSentAs : String → Fields → Wire → Type 0
  unfolding map_command_to_wire tagged payload_to_map
  IsSentAs command payload sent =
      map_command_to_wire w.rt (codes command)
        (tagged c.tx_client_id (payload_to_map w.rt (struct payload))) synap_rpc
      ≡ ok sent

  pub send_command-sent :
      (command : String) (payload : Fields) (sent : Wire)
      → IsSentAs command payload sent
      → (s : S)
      → send_command w c (codes command) (struct payload) s
        ≡ (w.rpc sent.cmd sent.args >>= λ v. pure (answer command v)) s
  unfolding send_command IsSentAs
  send_command-sent command payload sent h s = rw (rpc, h)

  ask-sent :
      (command : String) (payload : Fields) (shape : Shape) (sent : Wire)
      → IsSentAs command payload sent
      → (s : S)
      → ask w c command payload shape s
        ≡ (w.rpc sent.cmd sent.args >>= λ v.
              or_invalid w command (decode w.rt w.json shape (answer command v)))
            s
  unfolding ask
  ask-sent command payload shape sent h s = rw (send_command-sent command payload sent h s) (
      bind_assoc (w.rpc sent.cmd sent.args) (λ v. pure (answer command v))
        (λ raw. or_invalid w command (decode w.rt w.json shape raw)) s)

  pub ask_then-sent :
      {A : Type 0} (command : String) (payload : Fields) (shape : Shape) (sent : Wire)
      (k : El shape → Call S A)
      → IsSentAs command payload sent
      → (s : S)
      → (ask w c command payload shape >>= k) s
        ≡ (w.rpc sent.cmd sent.args >>= λ v.
              or_invalid w command (decode w.rt w.json shape (answer command v)) >>= k)
            s
  ask_then-sent command payload shape sent k h s = rw (ask-sent command payload shape sent h s) (
      bind_assoc (w.rpc sent.cmd sent.args)
        (λ v. or_invalid w command (decode w.rt w.json shape (answer command v))) k s)

  abbrev hash_set_payload : Bytes → Bytes → Bytes → Fields
  hash_set_payload key name text =
      with_text "key" key (with_text "field" name (with_text "value" text no_fields))

  hash_set_wire :
      (id key name text : Bytes)
      → c.tx_client_id ≡ id
      → IsSentAs "hash.set"
          (hash_set_payload key name text)
          (scoped id (wire "HSET" (str key ∷ str name ∷ str text ∷ [])))
  unfolding IsSentAs is_queueable sprint
  hash_set_wire [] key name text h = rw h
  hash_set_wire (b ∷ id) key name text h = rw h

  hash_set-false :
      (key name text : Bytes) (s : S)
      → hash_set w c key name text s
        ≡ (let sent = scoped c.tx_client_id (wire "HSET" (str key ∷ str name ∷ str text ∷ [])) in
              w.rpc sent.cmd sent.args >>= λ v. pure false)
            s
  unfolding hash_set decode lookup
  hash_set-false key name text s =
      ask_then-sent "hash.set" (hash_set_payload key name text) (one "success" Shape.bool)
        (scoped c.tx_client_id (wire "HSET" (str key ∷ str name ∷ str text ∷ []))) (λ r. pure r.0)
        (hash_set_wire c.tx_client_id key name text refl) s
      ∙ bind_ext
          (let sent = scoped c.tx_client_id (wire "HSET" (str key ∷ str name ∷ str text ∷ [])) in
            w.rpc sent.cmd sent.args)
          (λ v.
            or_invalid w "hash.set"
              (decode w.rt w.json (one "success" Shape.bool) (answer "hash.set" v))
            >>= λ r. pure r.0)
          (λ v. pure false) (λ v t. refl) s

  abbrev hash_del_payload : Bytes → Bytes → Fields
  hash_del_payload key name =
      with_text "key" key (with_text "field" name (with_texts "fields" (name ∷ []) no_fields))

  hash_del_wire :
      (id key name : Bytes)
      → c.tx_client_id ≡ id
      → IsSentAs "hash.del"
          (hash_del_payload key name)
          (scoped id (wire "HDEL" (str key ∷ str name ∷ [])))
  unfolding IsSentAs is_queueable sprint
  hash_del_wire [] key name h = rw h
  hash_del_wire (b ∷ id) key name h = rw h

  hash_del-zero :
      (key name : Bytes) (s : S)
      → hash_del w c key name s
        ≡ (let sent = scoped c.tx_client_id (wire "HDEL" (str key ∷ str name ∷ [])) in
              w.rpc sent.cmd sent.args >>= λ v. pure (pos 0))
            s
  unfolding hash_del decode lookup
  hash_del-zero key name s =
      ask_then-sent "hash.del" (hash_del_payload key name) (one "deleted" Shape.int)
        (scoped c.tx_client_id (wire "HDEL" (str key ∷ str name ∷ []))) (λ r. pure r.0)
        (hash_del_wire c.tx_client_id key name refl) s
      ∙ bind_ext
          (let sent = scoped c.tx_client_id (wire "HDEL" (str key ∷ str name ∷ [])) in
            w.rpc sent.cmd sent.args)
          (λ v.
            or_invalid w "hash.del"
              (decode w.rt w.json (one "deleted" Shape.int) (answer "hash.del" v))
            >>= λ r. pure r.0)
          (λ v. pure (pos 0)) (λ v t. refl) s

  -- Over SynapRPC HashManager.Set executes exactly one command, HSET of the very bytes of key,
  -- field and value, and Del one HDEL of those of key and field, or TXQUEUE of it inside a
  -- transaction; and whatever value comes back, Set returns false and Del 0: the replies are mapped
  -- to the fields `created` and `removed`, and the methods read `success` and `deleted`.
  pub hash_writes-misread :
      (key name text : Bytes) (s : S)
      → (hash_set w c key name text s
          ≡ (let sent = scoped c.tx_client_id (wire "HSET" (str key ∷ str name ∷ str text ∷ [])) in
                w.rpc sent.cmd sent.args >>= λ v. pure false)
              s)
        × (hash_del w c key name s
            ≡ (let sent = scoped c.tx_client_id (wire "HDEL" (str key ∷ str name ∷ [])) in
                  w.rpc sent.cmd sent.args >>= λ v. pure (pos 0))
                s)
  hash_writes-misread key name text s = (hash_set-false key name text s, hash_del-zero key name s)

  hash_get_wire :
      (key name : Bytes)
      → c.tx_client_id ≡ []
      → IsSentAs "hash.get"
          (with_text "key" key (with_text "field" name no_fields))
          (wire "HGET" (str key ∷ str name ∷ []))
  unfolding IsSentAs
  hash_get_wire key name h = rw h

  abbrev field_read : Value → Call S Bytes
  unfolding decode answer
  field_read v =
      or_invalid w "hash.get"
        (decode w.rt w.json (one "value" (Shape.ptr Shape.string)) (answer "hash.get" v))
      >>= λ r. pure (text_or_empty r.0)

  hash_get-sent :
      (key name : Bytes) (s : S)
      → c.tx_client_id ≡ []
      → hash_get w c key name s ≡ (w.rpc (codes "HGET") (str key ∷ str name ∷ []) >>= field_read) s
  unfolding hash_get field_read
  hash_get-sent key name s h =
      ask_then-sent "hash.get" (with_text "key" key (with_text "field" name no_fields))
        (one "value" (Shape.ptr Shape.string)) (wire "HGET" (str key ∷ str name ∷ []))
        (λ r. pure (text_or_empty r.0)) (hash_get_wire key name h) s

  field_read-reply_of :
      (found : Option Bytes) (t : S)
      → field_read (reply_of found) t ≡ (value (text_or_empty found), t)
  unfolding field_read lookup
  field_read-reply_of none t = refl
  field_read-reply_of (some x) t = refl

  -- If the server answers HGET of the very bytes of key and field by a string or by nil, then over
  -- SynapRPC HashManager.Get of a client outside of transactions returns that string byte for byte,
  -- or the empty one for nil, and executes nothing else.
  hash_get-stored :
      (key name : Bytes) (found : Option Bytes) (s t : S)
      → c.tx_client_id ≡ []
      → w.rpc (codes "HGET") (str key ∷ str name ∷ []) s ≡ (value (reply_of found), t)
      → hash_get w c key name s ≡ (value (text_or_empty found), t)
  hash_get-stored key name found s t h e =
      hash_get-sent key name s h ∙ rw e (field_read-reply_of found t)
