-- ===== src/Rpc/Push.antt =====
-- SubscribePush and WatchPush of transport_rpc.go: a client of their own, what they send on it, what
-- the hook makes of a frame, and the cancel that they return.
pub mod Opening
use synap_sdk_go.Prelude.{ℕ, Option, none, some, List, [], ◌∷◌, ◌||◌, if◌then◌else◌, map}
use synap_sdk_go.Bytes.{Bytes, codes, bytes_eq, is_empty}
use synap_sdk_go.Value.{Value, Entries, str, dict}
use synap_sdk_go.Value.Maps.{lookup}
use synap_sdk_go.Value.Text.{Runtime}
use synap_sdk_go.Resp3.Outcome.{Outcome, value, error}
use synap_sdk_go.Client.Calls.{Call, ◌>>=◌, pure}
use package.synap_sdk_go.Rpc.Values.{Thunder, View, from_wire}
use package.synap_sdk_go.Rpc.Transport.{Session, Network, hooked, dial, call, close_client}

-- What is returned: the id that the server gave, and the client that cancel closes.
pub record Subscription : Type 0 where
  pub subscriber_id : Bytes
  pub client : ℕ

abbrev frame_map : Option Value → Option Entries
frame_map (some (dict m)) = some m
frame_map v = none

abbrev text_field : Option Value → Option Bytes
text_field (some (str s)) = some s
text_field v = none

abbrev opened : {A B : Type 0} → Option A → (A → Option B) → Option B
opened none f = none
opened (some a) f = f a

module _ (T : Thunder) where
  -- MapGet and AsStr of the acknowledgement; no id where there is none.
  abbrev id_view : View T.W → Bytes
  id_view (View.string s) = s
  id_view v = []

  abbrev subscriber_of : Option T.W → Bytes
  subscriber_of none = []
  subscriber_of (some w) = id_view (T.view w)

  -- The frames that reach onMessage: maps.
  unfoldable pub pushed_frame : Runtime → T.W → Option Entries
  unfolding from_wire
  pushed_frame rt w = frame_map (from_wire rt T w)

  -- The envelopes that reach onEvent: a JSON object in the field `payload`.
  unfoldable pub pushed_envelope : Runtime → (Bytes → Option Entries) → T.W → Option Entries
  unfolding pushed_frame lookup
  pushed_envelope rt unmarshal w =
      opened (pushed_frame rt w)
        (λ frame. opened (text_field (lookup (codes "payload") frame)) unmarshal)

  -- c.OnPush
  abbrev pub hook : ℕ → Call (Session T) Unit
  hook n t = (value tt, record t { log = hooked n ∷ t.log })

  module _ (net : Network T) (map_get : T.W → Bytes → Option T.W) where
    -- The client is closed where the call fails.
    abbrev or_close : ℕ → Outcome T.W × Session T → Outcome T.W × Session T
    or_close n (error e, t) = (error e, close_client T n t)
    or_close n r = r

    abbrev subscribe_call : ℕ → Bytes → List T.W → Call (Session T) T.W
    subscribe_call n cmd args t = or_close n (call T net n cmd args t)

    abbrev pub subscription : ℕ → T.W → Subscription
    subscription n ack = record {
      subscriber_id = subscriber_of (map_get ack (codes "subscriber_id"));
      client = n;
    }

    -- The common part of both: dial, register the hook, and only then send the command.
    unfoldable pub open_push : Bytes → List T.W → Call (Session T) Subscription
    unfolding dial call
    open_push cmd args = do
      n ← dial T net
      registered ← hook n
      ack ← subscribe_call n cmd args
      pure (subscription n ack)

    unfoldable pub subscribe_push : List Bytes → Call (Session T) Subscription
    unfolding open_push
    subscribe_push topics = open_push (codes "SUBSCRIBE") (map T.string topics)

    abbrev pub watch_args : Bytes → Bytes → List T.W
    unfolding bytes_eq
    watch_args pattern mode =
        if is_empty mode || bytes_eq mode (codes "value")
        then T.string pattern ∷ []
        else T.string pattern ∷ T.string mode ∷ []

    unfoldable pub watch_push : Bytes → Bytes → Call (Session T) Subscription
    unfolding open_push watch_args
    watch_push pattern mode = open_push (codes "KV.WATCH") (watch_args pattern mode)

    -- cancel of SubscribePush
    unfoldable pub cancel_subscribe : Subscription → Session T → Session T
    cancel_subscribe sub t = close_client T sub.client t

    -- cancel of WatchPush: KV.UNWATCH first, whose answer is ignored.
    abbrev unwatch : Bytes → ℕ → Session T → Session T
    unfolding call
    unwatch [] n t = t
    unwatch (b ∷ id) n t = (call T net n (codes "KV.UNWATCH") (T.string (b ∷ id) ∷ []) t).1

    unfoldable pub cancel_watch : Subscription → Session T → Session T
    unfolding unwatch
    cancel_watch sub t = close_client T sub.client (unwatch sub.subscriber_id sub.client t)
