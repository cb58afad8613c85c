-- ===== src/Managers/StreamManager.antt =====
-- StreamManager of stream.go.
use synap_sdk_go.Prelude.{ℕ, Bool, List, ℤ}
use synap_sdk_go.Bytes.{Bytes, codes}
use synap_sdk_go.Payload.{Reflected, Fields, no_fields, integer, unsigned}
use synap_sdk_go.Response.Shapes.{Shape, El}
use synap_sdk_go.Client.Calls.{Call, ◌>>=◌, pure}
use synap_sdk_go.Client.Http.{World, Client}
use package.synap_sdk_go.Managers.Types.{event_shape, stream_stats_shape}
use package.synap_sdk_go.Managers.{ask, tell, one, optional, positive, with_field, with_text}

-- The fields of the payload of Create and GetOrCreate.
abbrev room_payload : Bytes → ℤ → Fields
room_payload room max_events =
    with_text "room" room (optional "max_events" (positive max_events) no_fields)

module _ {S : Type 0} (w : World S) (c : Client) where
  unfoldable pub stream_create : (room : Bytes) (max_events : ℤ) → Call S Unit
  unfolding tell
  stream_create room max_events = tell w c "stream.create" (room_payload room max_events)

  unfoldable pub stream_get_or_create : (room : Bytes) (max_events : ℤ) → Call S Bool
  unfolding ask
  stream_get_or_create room max_events = do
    result ←
        ask w c "stream.get_or_create" (room_payload room max_events) (one "created" Shape.bool)
    pure result.0

  -- `payload` is what reflection sees of the interface{} that is published.
  unfoldable pub stream_publish : (room event : Bytes) (payload : Reflected) → Call S ℕ
  unfolding ask
  stream_publish room event payload = do
    result ←
        ask w c "stream.publish"
          (with_text "room" room (with_text "event" event (with_field "data" payload no_fields)))
          (one "offset" (Shape.uint 64))
    pure result.0

  unfoldable pub stream_consume :
      (room : Bytes) (offset : ℕ) (limit : ℤ) → Call S (List (El event_shape))
  unfolding ask
  stream_consume room offset limit = do
    result ←
        ask w c "stream.consume"
          (with_text "room" room (
            with_text "subscriber_id" (codes "sdk-default") (
              with_field "from_offset" (unsigned offset)
                (with_field "limit" (integer limit) no_fields))))
          (one "events" (Shape.slice event_shape))
    pure result.0

  unfoldable pub stream_stats : Bytes → Call S (El stream_stats_shape)
  unfolding ask
  stream_stats room = ask w c "stream.stats" (with_text "room" room no_fields) stream_stats_shape

  unfoldable pub stream_list : Call S (List Bytes)
  unfolding ask
  stream_list = do
    result ← ask w c "stream.list" no_fields (one "rooms" (Shape.slice Shape.string))
    pure result.0

  unfoldable pub stream_delete : Bytes → Call S Unit
  unfolding tell
  stream_delete room = tell w c "stream.delete" (with_text "room" room no_fields)
