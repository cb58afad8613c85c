-- ===== src/Managers/Queue/Refinement.antt =====
-- The calls of QueueManager over SynapRPC, against those on a queue.
use synap_sdk_go.Prelude.{
  ◌≡◌, refl, ◌∙◌, ap, sym, ◌<◌, ℕ, Option, none, some, List, [], ◌∷◌, ◌++◌, All, map, append_assoc,
  map-append, append-nil,
}
use synap_sdk_go.Bytes.{Bytes, codes}
use synap_sdk_go.Value.{Value, str}
use synap_sdk_go.Value.Maps.{lookup}
use synap_sdk_go.Errors.{ok}
use synap_sdk_go.Command.{synap_rpc}
use synap_sdk_go.Command.Wire.{wire}
use synap_sdk_go.Payload.{no_fields}
use synap_sdk_go.Response.{decode}
use synap_sdk_go.Response.Shapes.{Shape}
use synap_sdk_go.Response.Assign.RoundTrip.{value_of, Fits, assign-value_of}
use synap_sdk_go.Resp3.Outcome.{value}
use synap_sdk_go.Client.Http.{World, Client}
use synap_sdk_go.Client.Runs.{run_each-refines}
use package.synap_sdk_go.Managers.{one, with_text}
use package.synap_sdk_go.Managers.Types.{message_shape}
use package.synap_sdk_go.Managers.Publish.{HoldsBytes, queue_publish-sent}
use package.synap_sdk_go.Managers.QueueManager.{queue_publish, queue_consume, queue_ack}
use package.synap_sdk_go.Managers.Rpc.{answer, IsSentAs, send_command-sent}
use package.synap_sdk_go.Managers.Queue.{
  Message, payload_of, Operation, publish, consume, ack, Returned, delivered, Shelf, first, behind,
  returns, updates, returns_all, updates_all, sent_payloads, received_payloads, run, run_all,
  KeepsQueue,
}

-- The payloads of a program are bytes.
abbrev pub HasBytes : Operation → Type 0
HasBytes (publish payload priority max_retries) = All (λ b. b < 256) payload
HasBytes (consume consumer_id) = Unit
HasBytes (ack message_id) = Unit

-- First in, first out, and every payload as it was published.
module _ (mint : ℕ → Bytes → Message)
    (kept : (n : ℕ) (payload : Bytes) → payload_of (mint n payload) ≡ payload) where
  received-first :
      (ms : List Message) (rs : List Returned) (later sent : List Bytes)
      → received_payloads rs ++ later ≡ map payload_of (behind ms) ++ sent
      → received_payloads (delivered (first ms) ∷ rs) ++ later ≡ map payload_of ms ++ sent
  unfolding received_payloads
  received-first [] rs later sent h = h
  received-first (m ∷ ms) rs later sent h = ap (λ x. payload_of m ∷ x) h

  received-in_order :
      (os : List Operation) (q : Shelf)
      → received_payloads (returns_all mint os q) ++ map payload_of (updates_all mint os q).waiting
        ≡ map payload_of q.waiting ++ sent_payloads os
  unfolding received_payloads returns_all returns updates_all updates sent_payloads
  received-in_order [] q = sym (append-nil (map payload_of q.waiting))
  received-in_order (publish payload priority max_retries ∷ os) q =
      received-in_order os (updates mint (publish payload priority max_retries) q)
      ∙ ap (λ x. x ++ sent_payloads os)
          (map-append payload_of q.waiting (mint q.published payload ∷ []))
      ∙ append_assoc (map payload_of q.waiting) (payload_of (mint q.published payload) ∷ [])
          (sent_payloads os)
      ∙ ap (λ x. map payload_of q.waiting ++ x ∷ sent_payloads os) (kept q.published payload)
  received-in_order (consume consumer_id ∷ os) q =
      received-first q.waiting (returns_all mint os (updates mint (consume consumer_id) q))
        (map payload_of (updates_all mint os (updates mint (consume consumer_id) q)).waiting)
        (sent_payloads os) (received-in_order os (updates mint (consume consumer_id) q))
  received-in_order (ack message_id ∷ os) q = received-in_order os q

module _ {S : Type 0} (w : World S) (c : Client) (rpc : c.transport ≡ synap_rpc)
    (plain : c.tx_client_id ≡ []) (exact : HoldsBytes w.rt) (name : Bytes)
    (mint : ℕ → Bytes → Message) (shelf : S → Shelf)
    (server : KeepsQueue w.rpc name mint shelf) where
  read_id :
      (id : Bytes)
      → decode w.rt w.json (one "message_id" Shape.string) (answer w c rpc "queue.publish" (str id))
        ≡ ok (id, tt)
  unfolding queue_publish decode lookup
  read_id id = refl

  queue_publish-named :
      (payload id : Bytes) (priority max_retries : ℕ) (s u : S)
      → All (λ b. b < 256) payload
      → w.rpc (codes "QPUBLISH") (str name ∷ str payload ∷ []) s ≡ (value (str id), u)
      → queue_publish w c name payload priority max_retries s ≡ (value id, u)
  unfolding decode lookup
  queue_publish-named payload id priority max_retries s u h e =
      rw (
        queue_publish-sent w c rpc plain exact name payload priority max_retries s h,
        e,
        read_id id,
      )

  consume_wire :
      (consumer : Bytes)
      → IsSentAs w c rpc "queue.consume"
          (with_text "queue" name (with_text "consumer_id" consumer no_fields))
          (wire "QCONSUME" (str name ∷ str consumer ∷ []))
  unfolding IsSentAs
  consume_wire consumer = rw plain

  read_message :
      (found : Option Message)
      → Fits (Shape.ptr message_shape) found
      → decode w.rt w.json
          (one "message" (Shape.ptr message_shape))
          (answer w c rpc "queue.consume" (value_of (Shape.ptr message_shape) found))
        ≡ ok (found, tt)
  unfolding queue_consume decode lookup value_of Fits
  read_message none h = refl
  read_message (some m) h =
      assign-value_of w.rt (one "message" (Shape.ptr message_shape)) (none, tt) (some m, tt)
        (refl, h, tt)

  queue_consume-found :
      (consumer : Bytes) (found : Option Message) (s u : S)
      → Fits (Shape.ptr message_shape) found
      → w.rpc (codes "QCONSUME") (str name ∷ str consumer ∷ []) s
        ≡ (value (value_of (Shape.ptr message_shape) found), u)
      → queue_consume w c name consumer s ≡ (value found, u)
  unfolding queue_consume
  queue_consume-found consumer found s u h e = rw (
    send_command-sent w c rpc "queue.consume"
        (with_text "queue" name (with_text "consumer_id" consumer no_fields))
        (wire "QCONSUME" (str name ∷ str consumer ∷ [])) (consume_wire consumer) s,
    e,
    read_message found h,
  )

  ack_wire :
      (id : Bytes)
      → IsSentAs w c rpc "queue.ack"
          (with_text "queue" name (with_text "message_id" id no_fields))
          (wire "QACK" (str name ∷ str id ∷ []))
  unfolding IsSentAs
  ack_wire id = rw plain

  queue_ack-done :
      (id : Bytes) (s u : S) (r : Value)
      → w.rpc (codes "QACK") (str name ∷ str id ∷ []) s ≡ (value r, u)
      → queue_ack w c name id s ≡ (value tt, u)
  unfolding queue_ack
  queue_ack-done id s u r e = rw (
    send_command-sent w c rpc "queue.ack"
        (with_text "queue" name (with_text "message_id" id no_fields))
        (wire "QACK" (str name ∷ str id ∷ [])) (ack_wire id) s,
    e,
  )

  run-refines :
      (o : Operation) (s : S)
      → HasBytes o
      → (u : S) × (run w c name o s ≡ (value (returns mint o (shelf s)), u))
        × (shelf u ≡ updates mint o (shelf s))
  unfolding run returns updates
  run-refines (publish payload priority max_retries) s h =
      let (u, e, k) = server.on_publish payload s in
      (u, rw (queue_publish-named payload _ priority max_retries s u h e), k)
  run-refines (consume consumer_id) s h =
      let (u, e, k) = server.on_consume consumer_id s in
      (u, rw (queue_consume-found consumer_id _ s u (server.fits s) e), k)
  run-refines (ack message_id) s h =
      let (r, u, e, k) = server.on_ack message_id s in
      (u, rw (queue_ack-done message_id s u r e), k)

  run_all-refines :
      (os : List Operation) (s : S)
      → All HasBytes os
      → (u : S) × (run_all w c name os s ≡ (value (returns_all mint os (shelf s)), u))
        × (shelf u ≡ updates_all mint os (shelf s))
  unfolding run_all returns_all updates_all
  run_all-refines os s h =
      let (u, e, (t, k)) =
        run_each-refines (run w c name) (returns mint) (updates mint)
          (λ os' s' q. All HasBytes os' × (shelf s' ≡ q))
          (λ o os' s' q h'.
            let (u', e', k') = run-refines o s' h'.0.0 in
            (u', rw (← h'.1) e', (h'.0.1, k' ∙ ap (updates mint o) h'.1)))
          os s (shelf s) (h, refl) in
      (u, e, k)

  -- On a server that keeps a queue, whatever sequence of Publish, Consume and Ack of that queue a
  -- program outside of transactions calls over SynapRPC, each call succeeds and returns what the
  -- abstract queue says: Publish the id of the message, whatever priority and number of retries it is
  -- given, and Consume the oldest message that waits, or none. The payloads that Consume returned and
  -- those that still wait are those that waited before and those that were published, byte for byte
  -- and in their order. The numbers of a byte are taken to be exact in float64.
  pub run_all-delivers :
      (os : List Operation) (s : S)
      → All HasBytes os
      → (u : S) × (run_all w c name os s ≡ (value (returns_all mint os (shelf s)), u))
        × (shelf u ≡ updates_all mint os (shelf s))
        × (received_payloads (returns_all mint os (shelf s)) ++ map payload_of (shelf u).waiting
            ≡ map payload_of (shelf s).waiting ++ sent_payloads os)
  run_all-delivers os s h =
      let (u, e, k) = run_all-refines os s h in
      (
        u,
        e,
        k,
        ap (λ q. received_payloads (returns_all mint os (shelf s)) ++ map payload_of q.waiting) k
            ∙ received-in_order mint server.payload_kept os (shelf s),
      )
