-- ===== src/Tests/Wired.antt =====
-- KVStore over the transport, and a network that answers every call by the same binary string.
use synap_sdk_go.Prelude.{◌≡◌, arith, refl, true, false, Option, some, none, [], ◌∷◌, pos}
use synap_sdk_go.Bytes.{Bytes, codes}
use synap_sdk_go.Resp3.Outcome.{value}
use synap_sdk_go.Client.Http.{World}
use synap_sdk_go.Rpc.Values.{text_to_wire, to_wire}
use synap_sdk_go.Rpc.Transport.{
  Network, Session, given, closed, new_transport, execute, ensure_connected,
}
use synap_sdk_go.Managers.KvStore.{kv_get, kv_set}
use synap_sdk_go.Managers.Keys.Wired.{after_call, kv-wired}
use synap_sdk_go.Value.{Entries, dict, str, entry, no_entries}
use synap_sdk_go.Command.{resp3}
use synap_sdk_go.Subscriptions.{new_stream}
use synap_sdk_go.Subscriptions.Observe.{
  PushMessage, WatchEvent, Live, observe, observe_frame, watch_frame, stop_observe,
}
use synap_sdk_go.Subscriptions.Frames.{fields_of, envelope_of, with_last, frames-arrive}
use package.synap_sdk_go.Tests.Sample.{integers, world_of, plain}
use package.synap_sdk_go.Tests.Wire.{trees_wire, trees_wire-IsLawful}

abbrev stored : Bytes
stored = 222 ∷ 173 ∷ []

pub binary_network : Network trees_wire
unfolding trees_wire text_to_wire
binary_network = record {
  connect = λ endpoint config log. given tt;
  is_alive = λ n log. true;
  call = λ n cmd args log. given (text_to_wire integers trees_wire stored);
}

unfoldable pub world : World (Session trees_wire)
unfolding execute
world = world_of (execute trees_wire binary_network integers)

-- A transport with a client.
pub connected : Session trees_wire
unfolding new_transport ensure_connected binary_network
connected =
    (ensure_connected trees_wire binary_network
      (new_transport trees_wire (codes "h") (pos 15501) (pos 0))).1

kv-wired_example :
    (kv_get world plain (codes "k") connected ≡ (
      value stored,
      after_call trees_wire binary_network 0
          (codes "GET")
          (text_to_wire integers trees_wire (codes "k") ∷ [])
          connected,
    ))
    × (kv_set world plain (codes "k") stored (pos 0) connected ≡ (
      value tt,
      after_call trees_wire binary_network 0
          (codes "SET")
          (text_to_wire integers trees_wire (codes "k")
            ∷ text_to_wire integers trees_wire stored
            ∷ [])
          connected,
    ))
unfolding world connected binary_network
kv-wired_example =
    kv-wired trees_wire binary_network world plain refl trees_wire-IsLawful refl refl refl
      (codes "k") stored 0 (text_to_wire integers trees_wire stored) connected refl refl refl refl

no_id : trees_wire.W → Bytes → Option trees_wire.W
no_id w field = none

abbrev message : PushMessage
message = record { topic = codes "t"; payload = stored; id = codes "1"; timestamp = pos 9 }

-- A subscription on client 0.
abbrev subscribed : Live trees_wire PushMessage
subscribed = record {
  session = connected;
  subscription = record { subscriber_id = codes "s1"; client = 0 };
  stream = new_stream;
}

abbrev changed : WatchEvent
changed = record {
  key = codes "k";
  event = codes "set";
  version = 7;
  value = codes "v";
  truncated = false;
}

abbrev watched : Live trees_wire WatchEvent
watched = record {
  session = subscribed.session;
  subscription = subscribed.subscription;
  stream = new_stream;
}

abbrev one_envelope : Bytes → Option Entries
one_envelope raw = some (envelope_of integers changed)

frames-arrive_example :
    (observe_frame trees_wire binary_network no_id integers
        (to_wire integers trees_wire (dict (fields_of message)))
        subscribed
      ≡ with_last trees_wire binary_network no_id message subscribed)
    × (watch_frame trees_wire binary_network no_id integers one_envelope
          (to_wire integers trees_wire
            (dict (entry (codes "payload") (str (codes "{}")) no_entries)))
          watched
        ≡ with_last trees_wire binary_network no_id changed watched)
frames-arrive_example =
    frames-arrive trees_wire binary_network no_id integers message subscribed one_envelope changed
      (codes "{}") watched trees_wire-IsLawful refl refl refl (omega arith) refl (omega arith)

-- Two stops close the client once.
stopped_twice :
    (stop_observe trees_wire binary_network no_id
      (stop_observe trees_wire binary_network no_id subscribed)).session.log
    ≡ closed 0 ∷ connected.log
unfolding stop_observe
stopped_twice = refl

refused_over_resp3 : (observe trees_wire binary_network no_id resp3 [] connected).1 ≡ connected
unfolding observe
refused_over_resp3 = refl
