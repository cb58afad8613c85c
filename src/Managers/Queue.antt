-- ===== src/Managers/Queue.antt =====
-- QueueManager over SynapRPC, on a server that keeps a queue.
pub mod Refinement
use synap_sdk_go.Prelude.{◌≡◌, ℕ, suc, Option, none, some, List, [], ◌∷◌, ◌++◌}
use synap_sdk_go.Bytes.{Bytes, codes}
use synap_sdk_go.Value.{Value, str}
use synap_sdk_go.Resp3.Outcome.{value}
use synap_sdk_go.Response.Shapes.{Shape, El}
use synap_sdk_go.Response.Assign.RoundTrip.{value_of, Fits}
use synap_sdk_go.Client.Calls.{Call, ◌>>=◌, pure}
use synap_sdk_go.Client.Runs.{returned_by, updated_by, run_each}
use synap_sdk_go.Client.Http.{World, Client}
use package.synap_sdk_go.Managers.Types.{message_shape}
use package.synap_sdk_go.Managers.QueueManager.{queue_publish, queue_consume, queue_ack}

abbrev pub Message : Type 0
Message = El message_shape

abbrev pub id_of : Message → Bytes
id_of m = m.0

abbrev pub payload_of : Message → Bytes
payload_of m = m.1.0

-- The calls of a program on one queue.
pub data Operation : Type 0 where
  publish : (payload : Bytes) (priority max_retries : ℕ) → Operation
  consume : (consumer_id : Bytes) → Operation
  ack : (message_id : Bytes) → Operation

-- What a call returns.
pub data Returned : Type 0 where
  named : Bytes → Returned
  delivered : Option Message → Returned
  done : Returned

-- What waits, the oldest first, and how many messages were published before.
pub record Shelf : Type 0 where
  pub waiting : List Message
  pub published : ℕ

abbrev pub first : List Message → Option Message
first [] = none
first (m ∷ ms) = some m

abbrev pub behind : List Message → List Message
behind [] = []
behind (m ∷ ms) = ms

-- The promise. `mint` is what the server makes of the payload of its n-th message.
module _ (mint : ℕ → Bytes → Message) where
  unfoldable pub returns : Operation → Shelf → Returned
  returns (publish payload priority max_retries) q = named (id_of (mint q.published payload))
  returns (consume consumer_id) q = delivered (first q.waiting)
  returns (ack message_id) q = done

  unfoldable pub updates : Operation → Shelf → Shelf
  updates (publish payload priority max_retries) q = record {
    waiting = q.waiting ++ mint q.published payload ∷ [];
    published = suc q.published;
  }
  updates (consume consumer_id) q = record q { waiting = behind q.waiting }
  updates (ack message_id) q = q

  unfoldable pub returns_all : List Operation → Shelf → List Returned
  unfolding returned_by returns updates
  returns_all os q = returned_by returns updates os q

  unfoldable pub updates_all : List Operation → Shelf → Shelf
  unfolding updated_by updates
  updates_all os q = updated_by updates os q

-- The payloads that are published, and those that arrive.
unfoldable pub sent_payloads : List Operation → List Bytes
sent_payloads [] = []
sent_payloads (publish payload priority max_retries ∷ os) = payload ∷ sent_payloads os
sent_payloads (consume consumer_id ∷ os) = sent_payloads os
sent_payloads (ack message_id ∷ os) = sent_payloads os

unfoldable pub received_payloads : List Returned → List Bytes
received_payloads [] = []
received_payloads (delivered (some m) ∷ rs) = payload_of m ∷ received_payloads rs
received_payloads (delivered none ∷ rs) = received_payloads rs
received_payloads (named id ∷ rs) = received_payloads rs
received_payloads (done ∷ rs) = received_payloads rs

-- The calls of the SDK.
module _ {S : Type 0} (w : World S) (c : Client) (name : Bytes) where
  unfoldable pub run : Operation → Call S Returned
  unfolding queue_publish queue_consume queue_ack
  run (publish payload priority max_retries) = do
    id ← queue_publish w c name payload priority max_retries
    pure (named id)
  run (consume consumer_id) = do m ← queue_consume w c name consumer_id; pure (delivered m)
  run (ack message_id) = do u ← queue_ack w c name message_id; pure done

  unfoldable pub run_all : List Operation → Call S (List Returned)
  unfolding run_each run
  run_all os = run_each run os

-- Documented of the server: QPUBLISH puts a message with the given payload behind those that wait and
-- answers its id, QCONSUME takes the first one and answers its fields, or nil if none waits, and QACK
-- of a message leaves those that wait. What it answers fits the types of the fields.
pub record KeepsQueue {S : Type 0} (rpc : Bytes → List Value → Call S Value) (name : Bytes)
    (mint : ℕ → Bytes → Message) (shelf : S → Shelf) : Type 0 where
  pub payload_kept : (n : ℕ) (payload : Bytes) → payload_of (mint n payload) ≡ payload
  pub fits : (s : S) → Fits (Shape.ptr message_shape) (first (shelf s).waiting)
  pub on_publish :
      (payload : Bytes) (s : S)
      → (u : S) × (rpc (codes "QPUBLISH") (str name ∷ str payload ∷ []) s
          ≡ (value (str (id_of (mint (shelf s).published payload))), u))
        × (shelf u ≡ record {
          waiting = (shelf s).waiting ++ mint (shelf s).published payload ∷ [];
          published = suc (shelf s).published;
        })
  pub on_consume :
      (consumer_id : Bytes) (s : S)
      → (u : S) × (rpc (codes "QCONSUME") (str name ∷ str consumer_id ∷ []) s
          ≡ (value (value_of (Shape.ptr message_shape) (first (shelf s).waiting)), u))
        × (shelf u ≡ record (shelf s) { waiting = behind (shelf s).waiting })
  pub on_ack :
      (message_id : Bytes) (s : S)
      → (r : Value) × (u : S) × (rpc (codes "QACK") (str name ∷ str message_id ∷ []) s
          ≡ (value r, u))
        × (shelf u ≡ shelf s)
