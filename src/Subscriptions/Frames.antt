-- ===== src/Subscriptions/Frames.antt =====
-- A message that the server pushes, from the wire to the channels of Observe and Watch.
use synap_sdk_go.Prelude.{◌≡◌, ◌∙◌, ◌<◌, refl, Option, some, pos, false, [], ◌∷◌, ◌++◌, length}
use synap_sdk_go.Bytes.{Bytes, codes}
use synap_sdk_go.Value.{Entries, int64, float64, bool, str, dict, no_entries, entry}
use synap_sdk_go.Value.Maps.{lookup}
use synap_sdk_go.Value.Text.{Runtime}
use synap_sdk_go.Rpc.Utf8.{is_utf8}
use synap_sdk_go.Rpc.Values.{Thunder, IsLawful, to_wire}
use synap_sdk_go.Rpc.Values.RoundTrip.{IsSendable, read_back, from_wire-to_wire}
use synap_sdk_go.Rpc.Transport.{Network}
use synap_sdk_go.Rpc.Push.{pushed_frame, pushed_envelope}
use package.synap_sdk_go.Subscriptions.{offer, capacity}
use package.synap_sdk_go.Subscriptions.Drops.{room}
use package.synap_sdk_go.Subscriptions.Observe.{
  PushMessage, message_of, WatchEvent, watch_event_from_envelope, Live, observe_frame, watch_frame,
}

-- The push frame of a message.
abbrev pub fields_of : PushMessage → Entries
fields_of m = entry (codes "topic") (str m.topic) (
    entry (codes "payload") (str m.payload)
      (entry (codes "id") (str m.id) (entry (codes "timestamp") (int64 m.timestamp) no_entries)))

-- The envelope of an event, as encoding/json decodes it.
abbrev pub envelope_of : Runtime → WatchEvent → Entries
envelope_of rt e = entry (codes "key") (str e.key) (
    entry (codes "event") (str e.event) (
      entry (codes "version") (float64 (rt.float_of_int (pos e.version))) (
        entry (codes "value") (str e.value)
          (entry (codes "truncated") (bool e.truncated) no_entries))))

module _ (T : Thunder) (net : Network T) (map_get : T.W → Bytes → Option T.W) where
  observe_frame-fields_of :
      (rt : Runtime) (m : PushMessage) (l : Live T PushMessage)
      → IsLawful T
      → observe_frame T net map_get rt (to_wire rt T (dict (fields_of m))) l
        ≡ record l { stream = offer m l.stream }
  unfolding observe_frame pushed_frame message_of lookup IsSendable read_back is_utf8
  observe_frame-fields_of rt m l law = rw (
      from_wire-to_wire rt T law (dict (fields_of m))
        (refl, refl, tt, (refl, refl, tt, (refl, refl, tt, (refl, refl, tt, tt)))))

  watch_frame-envelope_of :
      (rt : Runtime) (unmarshal : Bytes → Option Entries) (e : WatchEvent) (raw : Bytes)
      (l : Live T WatchEvent)
      → IsLawful T
      → unmarshal raw ≡ some (envelope_of rt e)
      → rt.uint64_of_float (rt.float_of_int (pos e.version)) ≡ e.version
      → watch_frame T net map_get rt unmarshal
          (to_wire rt T (dict (entry (codes "payload") (str raw) no_entries)))
          l
        ≡ record l { stream = offer e l.stream }
  unfolding watch_frame pushed_envelope pushed_frame watch_event_from_envelope lookup IsSendable
      read_back is_utf8
  watch_frame-envelope_of rt unmarshal e raw l law decoded exact = rw (
    from_wire-to_wire rt T law (dict (entry (codes "payload") (str raw) no_entries))
        (refl, refl, tt, tt),
    decoded,
    exact,
  )

  -- The message at the end of the channel, and of what the hook was given.
  abbrev pub with_last : {M : Type 0} → M → Live T M → Live T M
  with_last m l = record l {
    stream = record l.stream {
      buffered = l.stream.buffered ++ m ∷ [];
      sent = l.stream.sent ++ m ∷ [];
    };
  }

  offer-room :
      {M : Type 0} (m : M) (l : Live T M)
      → l.stream.closed ≡ false
      → length l.stream.buffered < capacity
      → record l { stream = offer m l.stream } ≡ with_last m l
  unfolding offer
  offer-room m l alive free = rw (alive, room (length l.stream.buffered) free)

  -- What the server pushes arrives, where the channel is open and holds fewer than 64 messages. A push
  -- frame with the topic, the payload, the id and the timestamp of a message, each whatever bytes it
  -- is, puts just that message at the end of the channel of Observe; and a frame whose payload is a
  -- text that encoding/json decodes into the fields of an event puts just that event at the end of the
  -- channel of Watch, if its version is exact in float64. Nothing else changes.
  pub frames-arrive :
      (rt : Runtime) (m : PushMessage) (l : Live T PushMessage) (unmarshal : Bytes → Option Entries)
      (e : WatchEvent) (raw : Bytes) (k : Live T WatchEvent)
      → IsLawful T
      → unmarshal raw ≡ some (envelope_of rt e)
      → rt.uint64_of_float (rt.float_of_int (pos e.version)) ≡ e.version
      → l.stream.closed ≡ false
      → length l.stream.buffered < capacity
      → k.stream.closed ≡ false
      → length k.stream.buffered < capacity
      → (observe_frame T net map_get rt (to_wire rt T (dict (fields_of m))) l ≡ with_last m l)
        × (watch_frame T net map_get rt unmarshal
              (to_wire rt T (dict (entry (codes "payload") (str raw) no_entries)))
              k
            ≡ with_last e k)
  frames-arrive rt m l unmarshal e raw k law decoded exact alive free alive' free' = (
    observe_frame-fields_of rt m l law ∙ offer-room m l alive free,
    watch_frame-envelope_of rt unmarshal e raw k law decoded exact ∙ offer-room e k alive' free',
  )
