-- ===== src/Managers/QueueManager.antt =====
-- QueueManager of queue.go.
use synap_sdk_go.Prelude.{
  if◌then◌else◌, ℕ, zero, suc, Bool, true, false, Option, none, some, List, [], ◌∷◌, ◌||◌, ℤ, pos,
  is_pos,
}
use synap_sdk_go.Bytes.{Bytes, codes, is_empty}
use synap_sdk_go.Errors.{Result, ok, err}
use synap_sdk_go.Payload.{
  Reflected, Sequence, Fields, no_fields, struct, ref, seq, integer, unsigned, nil_pointer,
  no_items, next,
}
use synap_sdk_go.Response.{decode}
use synap_sdk_go.Response.Shapes.{Shape, El}
use synap_sdk_go.Client.{send_command}
use synap_sdk_go.Client.Calls.{Call, ◌>>=◌, pure}
use synap_sdk_go.Client.Http.{World, Client}
use package.synap_sdk_go.Managers.Types.{message_shape, queue_stats_shape}
use package.synap_sdk_go.Managers.{
  ask, tell, or_invalid, one, optional, positive, with_field, with_text,
}

-- A configuration with no field set is left out.
abbrev config_if : Bool → Fields → Reflected
config_if true fs = ref (struct fs)
config_if false fs = nil_pointer

-- Each byte as an int.
abbrev pub numbers_of : Bytes → Sequence
numbers_of [] = no_items
numbers_of (b ∷ s) = next (integer (pos b)) (numbers_of s)

abbrev retries_of : ℕ → Reflected
retries_of zero = nil_pointer
retries_of (suc n) = ref (unsigned (suc n))

-- The fields of the payload of Publish.
abbrev pub publish_payload : (name payload : Bytes) (priority max_retries : ℕ) → Fields
publish_payload name payload priority max_retries = with_text "queue" name (
    with_field "payload" (seq (numbers_of payload)) (
      with_field "priority" (unsigned priority)
        (optional "max_retries" (retries_of max_retries) no_fields)))

module _ {S : Type 0} (w : World S) (c : Client) where
  unfoldable pub queue_create : (name : Bytes) (max_depth ack_deadline : ℤ) → Call S Unit
  unfolding tell
  queue_create name max_depth ack_deadline = tell w c "queue.create" (
      with_text "name" name (
        optional "config"
          (config_if (is_pos max_depth || is_pos ack_deadline) (
            optional "max_depth" (positive max_depth)
              (optional "ack_deadline_secs" (positive ack_deadline) no_fields)))
          no_fields))

  -- priority is a uint8 and max_retries a uint32.
  unfoldable pub queue_publish : (name payload : Bytes) (priority max_retries : ℕ) → Call S Bytes
  unfolding ask
  queue_publish name payload priority max_retries = do
    result ←
        ask w c "queue.publish" (publish_payload name payload priority max_retries)
          (one "message_id" Shape.string)
    pure result.0

  abbrev unless_blank : El message_shape → Option (El message_shape)
  unless_blank m = if is_empty m.0 then none else some m

  -- What is no wrapper is decoded as a message itself; the error is that of the first try.
  abbrev message_or :
      Result (El (one "message" (Shape.ptr message_shape)))
      → Result (El message_shape)
      → Result (Option (El message_shape))
  message_or (ok r) direct = ok r.0
  message_or (err e) (ok m) = ok (unless_blank m)
  message_or (err e) (err e') = err e

  unfoldable pub queue_consume : (name consumer_id : Bytes) → Call S (Option (El message_shape))
  unfolding send_command decode
  queue_consume name consumer_id = do
    raw ←
        send_command w c (codes "queue.consume")
          (struct (with_text "queue" name (with_text "consumer_id" consumer_id no_fields)))
    or_invalid w "queue.consume" (
        message_or (decode w.rt w.json (one "message" (Shape.ptr message_shape)) raw)
          (decode w.rt w.json message_shape raw))

  unfoldable pub queue_ack : (name message_id : Bytes) → Call S Unit
  unfolding tell
  queue_ack name message_id =
      tell w c "queue.ack" (with_text "queue" name (with_text "message_id" message_id no_fields))

  unfoldable pub queue_nack : (name message_id : Bytes) → Call S Unit
  unfolding tell
  queue_nack name message_id =
      tell w c "queue.nack" (with_text "queue" name (with_text "message_id" message_id no_fields))

  unfoldable pub queue_stats : Bytes → Call S (El queue_stats_shape)
  unfolding ask
  queue_stats name = ask w c "queue.stats" (with_text "queue" name no_fields) queue_stats_shape

  unfoldable pub queue_list : Call S (List Bytes)
  unfolding ask
  queue_list = do
    result ← ask w c "queue.list" no_fields (one "queues" (Shape.slice Shape.string))
    pure result.0

  unfoldable pub queue_delete : Bytes → Call S Unit
  unfolding tell
  queue_delete name = tell w c "queue.delete" (with_text "queue" name no_fields)
