-- ===== src/Managers/PubSubManager.antt =====
-- PubSubManager of pubsub.go, but for Observe, which is in Subscriptions.
use synap_sdk_go.Prelude.{ℕ, [], ◌∷◌, List, ℤ}
use synap_sdk_go.Bytes.{Bytes}
use synap_sdk_go.Payload.{Reflected, no_fields, unsigned}
use synap_sdk_go.Response.Shapes.{Shape}
use synap_sdk_go.Client.Calls.{Call, ◌>>=◌, pure}
use synap_sdk_go.Client.Http.{World, Client}
use package.synap_sdk_go.Managers.Types.{field_as, end}
use package.synap_sdk_go.Managers.{ask, tell, one, with_field, with_text, with_texts}

-- The subscriber id where the reply has one, the subscription id otherwise.
abbrev first_id : Bytes → Bytes → Bytes
first_id [] subscription_id = subscription_id
first_id (b ∷ subscriber_id) subscription_id = b ∷ subscriber_id

module _ {S : Type 0} (w : World S) (c : Client) where
  unfoldable pub pubsub_publish : (topic : Bytes) (payload : Reflected) (priority : ℕ) → Call S ℤ
  unfolding ask
  pubsub_publish topic payload priority = do
    result ←
        ask w c "pubsub.publish"
          (with_text "topic" topic
            (with_field "payload" payload (with_field "priority" (unsigned priority) no_fields)))
          (one "subscribers_matched" Shape.int)
    pure result.0

  unfoldable pub pubsub_subscribe : (subscriber_id : Bytes) (topics : List Bytes) → Call S Bytes
  unfolding ask
  pubsub_subscribe subscriber_id topics = do
    result ←
        ask w c "pubsub.subscribe"
          (with_text "subscriber_id" subscriber_id (with_texts "topics" topics no_fields))
          (Shape.struct
            (field_as "subscriber_id" Shape.string (field_as "subscription_id" Shape.string end)))
    pure (first_id result.0 result.1.0)

  unfoldable pub pubsub_unsubscribe : (subscriber_id : Bytes) (topics : List Bytes) → Call S Unit
  unfolding tell
  pubsub_unsubscribe subscriber_id topics =
      tell w c "pubsub.unsubscribe"
        (with_text "subscriber_id" subscriber_id (with_texts "topics" topics no_fields))

  unfoldable pub pubsub_list_topics : Call S (List Bytes)
  unfolding ask
  pubsub_list_topics = do
    result ← ask w c "pubsub.topics" no_fields (one "topics" (Shape.slice Shape.string))
    pure result.0
