-- ===== src/Managers/Settles.antt =====
-- The calls of a client over SynapRPC end like Execute of its transport: by a value or an error.
use synap_sdk_go.Prelude.{◌≡◌, refl, if◌then◌else◌, Bool, true, false, ℤ, ℕ, String, List, []}
use synap_sdk_go.Bytes.{Bytes, codes}
use synap_sdk_go.Value.{Value}
use synap_sdk_go.Errors.{Result, ok, err}
use synap_sdk_go.Payload.{Reflected, Fields, struct, payload_to_map, no_fields}
use synap_sdk_go.Response.{Response, decode, is_null}
use synap_sdk_go.Response.Shapes.{Shape, El}
use synap_sdk_go.Resp3.Outcome.{Outcome, value, error}
use synap_sdk_go.Command.{synap_rpc}
use synap_sdk_go.Command.Route.{map_command_to_wire}
use synap_sdk_go.Client.{send_command, tagged}
use synap_sdk_go.Client.Calls.{Call, continue, ◌>>=◌, pure, of}
use synap_sdk_go.Client.Http.{World, Client}
use package.synap_sdk_go.Managers.{ask, tell, or_invalid, one, with_text}
use package.synap_sdk_go.Managers.KvStore.{kv_set, kv_get, kv_exists, kv_incr, text_of_reply}
use package.synap_sdk_go.Managers.PubSubManager.{pubsub_publish}

-- A value or an error.
unfoldable pub is_settled : {A : Type 0} → Outcome A → Bool
is_settled (value a) = true
is_settled (error e) = true
is_settled Outcome.panic = false
is_settled Outcome.out_of_fuel = false

abbrev pub Settles : {S A : Type 0} → Call S A → Type 0
Settles {S = S} m = (s : S) → is_settled (m s).0 ≡ true

module _ {S : Type 0} where
  continue-settled :
      {A B : Type 0} (o : Outcome A) (u : S) (k : A → Call S B)
      → is_settled o ≡ true
      → ((a : A) → Settles (k a))
      → is_settled (continue o u k).0 ≡ true
  unfolding is_settled
  continue-settled (value a) u k h f = f a u
  continue-settled (error e) u k h f = refl
  continue-settled Outcome.panic u k h f = cc
  continue-settled Outcome.out_of_fuel u k h f = cc

  pub bind-Settles :
      {A B : Type 0} (m : Call S A) (k : A → Call S B)
      → Settles m
      → ((a : A) → Settles (k a))
      → Settles (m >>= k)
  bind-Settles m k h f s = continue-settled (m s).0 (m s).1 k (h s) f

  pure-Settles : {A : Type 0} (a : A) → Settles {S = S} (pure a)
  unfolding is_settled
  pure-Settles a s = refl

  of-Settles : {A : Type 0} (r : Result A) → Settles {S = S} (of r)
  unfolding is_settled
  of-Settles (ok a) s = refl
  of-Settles (err e) s = refl

  if-Settles :
      {A : Type 0} (b : Bool) (m n : Call S A)
      → Settles m
      → Settles n
      → Settles (if b then m else n)
  if-Settles true m n h k = h
  if-Settles false m n h k = k

  module _ (w : World S) where
    or_invalid-Settles :
        {A : Type 0} (command : String) (r : Result A) → Settles (or_invalid w command r)
    unfolding is_settled
    or_invalid-Settles command (ok a) s = refl
    or_invalid-Settles command (err e) s = refl

    module _ (c : Client) (rpc : c.transport ≡ synap_rpc)
        (ends : (cmd : Bytes) (args : List Value) → Settles (w.rpc cmd args)) where
      send_command-Settles :
          (command : Bytes) (payload : Reflected) → Settles (send_command w c command payload)
      unfolding send_command
      send_command-Settles command payload s = rw rpc (
          bind-Settles
            (of (
              map_command_to_wire w.rt command (tagged c.tx_client_id (payload_to_map w.rt payload))
                synap_rpc))
            _ (of-Settles _)
            (λ sent.
              bind-Settles (w.rpc sent.cmd sent.args) _ (ends sent.cmd sent.args)
                (λ v. pure-Settles _))
            s)

      ask-Settles :
          (command : String) (payload : Fields) (shape : Shape)
          → Settles (ask w c command payload shape)
      unfolding ask
      ask-Settles command payload shape =
          bind-Settles (send_command w c (codes command) (struct payload)) _
            (send_command-Settles (codes command) (struct payload))
            (λ raw. or_invalid-Settles command (decode w.rt w.json shape raw))

      ask_then-Settles :
          {A : Type 0} (command : String) (payload : Fields) (shape : Shape) (k : El shape → A)
          → Settles (ask w c command payload shape >>= λ r. pure (k r))
      ask_then-Settles command payload shape k =
          bind-Settles (ask w c command payload shape) _ (ask-Settles command payload shape)
            (λ r. pure-Settles (k r))

      pub kv_set-Settles : (key text : Bytes) (ttl : ℤ) → Settles (kv_set w c key text ttl)
      unfolding kv_set tell
      kv_set-Settles key text ttl =
          bind-Settles (send_command w c (codes "kv.set") _) _ (send_command-Settles _ _)
            (λ raw. pure-Settles tt)

      text_of_reply-Settles : (raw : Response) → Settles (text_of_reply w c raw)
      unfolding text_of_reply
      text_of_reply-Settles raw =
          if-Settles (is_null raw) (pure []) _ (pure-Settles [])
            (or_invalid-Settles "kv.get" (decode w.rt w.json Shape.string raw))

      pub kv_get-Settles : (key : Bytes) → Settles (kv_get w c key)
      unfolding kv_get
      kv_get-Settles key =
          bind-Settles (send_command w c (codes "kv.get") (struct (with_text "key" key no_fields)))
            _ (send_command-Settles (codes "kv.get") _) (λ raw. text_of_reply-Settles raw)

      pub kv_exists-Settles : (key : Bytes) → Settles (kv_exists w c key)
      unfolding kv_exists
      kv_exists-Settles key = ask_then-Settles "kv.exists" _ (one "exists" Shape.bool) (λ r. r.0)

      pub kv_incr-Settles : (key : Bytes) → Settles (kv_incr w c key)
      unfolding kv_incr
      kv_incr-Settles key = ask_then-Settles "kv.incr" _ (one "value" Shape.int) (λ r. r.0)

      pub pubsub_publish-Settles :
          (topic : Bytes) (payload : Reflected) (priority : ℕ)
          → Settles (pubsub_publish w c topic payload priority)
      unfolding pubsub_publish
      pubsub_publish-Settles topic payload priority =
          ask_then-Settles "pubsub.publish" _ (one "subscribers_matched" Shape.int) (λ r. r.0)
