-- ===== src/Subscriptions/Observe.antt =====
-- Observe of pubsub.go and Watch of kv.go: what they refuse, the subscription that they open, what
-- the hook makes of a frame, and the stop that they return.
use synap_sdk_go.Prelude.{ℕ, Bool, false, true, Option, none, some, List, [], ℤ, pos, String, ◌∷◌}
use synap_sdk_go.Bytes.{Bytes, codes}
use synap_sdk_go.Value.{Value, Entries, bool, int64, float64, str}
use synap_sdk_go.Value.Maps.{lookup}
use synap_sdk_go.Value.Text.{Runtime}
use synap_sdk_go.Errors.{synap, server_error}
use synap_sdk_go.Command.{TransportMode, synap_rpc}
use synap_sdk_go.Client.Calls.{Call, ◌>>=◌, pure, fail}
use synap_sdk_go.Rpc.Values.{Thunder}
use synap_sdk_go.Rpc.Transport.{Session, Network}
use synap_sdk_go.Rpc.Push.{
  Subscription, pushed_frame, pushed_envelope, subscribe_push, watch_push, cancel_subscribe,
  cancel_watch,
}
use package.synap_sdk_go.Subscriptions.{Stream, new_stream, offer, shutdown}

pub record PushMessage : Type 0 where
  pub topic : Bytes
  pub payload : Bytes
  pub id : Bytes
  pub timestamp : ℤ

pub record WatchEvent : Type 0 where
  pub key : Bytes
  pub event : Bytes
  pub version : ℕ
  pub value : Bytes
  pub truncated : Bool

-- asString
abbrev text_of : Option Value → Bytes
text_of (some (str s)) = s
text_of v = []

abbrev int_or_zero : Option Value → ℤ
int_or_zero (some (int64 n)) = n
int_or_zero v = pos 0

abbrev bool_or_false : Option Value → Bool
bool_or_false (some (bool b)) = b
bool_or_false v = false

unfoldable pub message_of : Entries → PushMessage
unfolding lookup
message_of frame = record {
  topic = text_of (lookup (codes "topic") frame);
  payload = text_of (lookup (codes "payload") frame);
  id = text_of (lookup (codes "id") frame);
  timestamp = int_or_zero (lookup (codes "timestamp") frame);
}

abbrev version_of : Runtime → Option Value → ℕ
version_of rt (some (float64 f)) = rt.uint64_of_float f
version_of rt v = 0

unfoldable pub watch_event_from_envelope : Runtime → Entries → WatchEvent
unfolding lookup
watch_event_from_envelope rt envelope = record {
  key = text_of (lookup (codes "key") envelope);
  event = text_of (lookup (codes "event") envelope);
  version = version_of rt (lookup (codes "version") envelope);
  value = text_of (lookup (codes "value") envelope);
  truncated = bool_or_false (lookup (codes "truncated") envelope);
}

pub record WatchOptions : Type 0 where
  pub mode : Bytes

abbrev pub WatchOption : Type 0
WatchOption = WatchOptions → WatchOptions

unfoldable pub with_notify_mode : WatchOption
with_notify_mode o = record o { mode = codes "notify" }

abbrev value_mode : WatchOptions
value_mode = record { mode = codes "value" }

-- Each option is applied to what those in front of it left.
abbrev with_options : List WatchOption → WatchOptions → WatchOptions
with_options [] o = o
with_options (opt ∷ opts) o = with_options opts (opt o)

-- The transport, the subscription on it, and its stream of messages.
pub record Live (T : Thunder) (M : Type 0) : Type 0 where
  pub session : Session T
  pub subscription : Subscription
  pub stream : Stream M

abbrev offered : {M : Type 0} → Option M → Stream M → Stream M
offered none s = s
offered (some m) s = offer m s

abbrev mapped : {A B : Type 0} → (A → B) → Option A → Option B
mapped f none = none
mapped f (some a) = some (f a)

-- once.Do: cancel only where the once has not run.
abbrev cancel_once : {T : Thunder} → Bool → (Session T → Session T) → Session T → Session T
cancel_once true cancel t = t
cancel_once false cancel t = cancel t

module _ (T : Thunder) (net : Network T) (map_get : T.W → Bytes → Option T.W) where
  -- With the channel, which is empty.
  abbrev with_stream :
      {M : Type 0} → Call (Session T) Subscription → Call (Session T) (Subscription × Stream M)
  with_stream opening = do sub ← opening; pure (sub, new_stream)

  abbrev push_refused : {A : Type 0} → String → Call (Session T) A
  push_refused text = fail (synap (server_error (codes text)))

  abbrev observe_over :
      TransportMode → List Bytes → Call (Session T) (Subscription × Stream PushMessage)
  observe_over synap_rpc topics = with_stream (subscribe_push T net map_get topics)
  observe_over mode topics =
      push_refused "pub/sub push requires the synap:// transport; this client is on HTTP or RESP3"

  unfoldable pub observe :
      TransportMode → List Bytes → Call (Session T) (Subscription × Stream PushMessage)
  unfolding subscribe_push
  observe mode topics = observe_over mode topics

  abbrev watch_over :
      TransportMode → Bytes → List WatchOption → Call (Session T) (Subscription × Stream WatchEvent)
  watch_over synap_rpc pattern opts =
      with_stream (watch_push T net map_get pattern (with_options opts value_mode).mode)
  watch_over mode pattern opts =
      push_refused
        "kv watch requires the synap:// transport; over HTTP use the /kv/ws WebSocket endpoint"

  unfoldable pub watch :
      TransportMode → Bytes → List WatchOption → Call (Session T) (Subscription × Stream WatchEvent)
  unfolding watch_push
  watch mode pattern opts = watch_over mode pattern opts

  -- The hook of Observe on a push frame, and that of Watch.
  unfoldable pub observe_frame : Runtime → T.W → Live T PushMessage → Live T PushMessage
  unfolding pushed_frame message_of offer
  observe_frame rt w l = record l {
    stream = offered (mapped message_of (pushed_frame T rt w)) l.stream;
  }

  unfoldable pub watch_frame :
      Runtime → (Bytes → Option Entries) → T.W → Live T WatchEvent → Live T WatchEvent
  unfolding pushed_envelope watch_event_from_envelope offer
  watch_frame rt unmarshal w l = record l {
    stream =
        offered (mapped (watch_event_from_envelope rt) (pushed_envelope T rt unmarshal w)) l.stream;
  }

  -- The stop of Observe, and that of Watch.
  unfoldable pub stop_observe : Live T PushMessage → Live T PushMessage
  unfolding shutdown cancel_subscribe
  stop_observe l = record l {
    session = cancel_once l.stream.done (cancel_subscribe T net map_get l.subscription) l.session;
    stream = shutdown l.stream;
  }

  unfoldable pub stop_watch : Live T WatchEvent → Live T WatchEvent
  unfolding shutdown cancel_watch
  stop_watch l = record l {
    session = cancel_once l.stream.done (cancel_watch T net map_get l.subscription) l.session;
    stream = shutdown l.stream;
  }
