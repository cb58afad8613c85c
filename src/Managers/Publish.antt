-- ===== src/Managers/Publish.antt =====
-- What QueueManager.Publish sends over SynapRPC.
use synap_sdk_go.Prelude.{◌≡◌, refl, ◌<◌, ap, ℕ, zero, suc, [], ◌∷◌, All, arith, pos, map}
use synap_sdk_go.Bytes.{Bytes, codes}
use synap_sdk_go.Value.{str, to_list}
use synap_sdk_go.Value.Text.{Runtime}
use synap_sdk_go.Errors.{ok}
use synap_sdk_go.Command.{synap_rpc}
use synap_sdk_go.Command.Payload.{low_byte, byte_of}
use synap_sdk_go.Command.Wire.{wire}
use synap_sdk_go.Payload.{payload_values}
use synap_sdk_go.Response.{decode}
use synap_sdk_go.Response.Shapes.{Shape}
use synap_sdk_go.Client.Calls.{◌>>=◌, pure}
use synap_sdk_go.Client.Http.{World, Client}
use package.synap_sdk_go.Managers.{or_invalid, one}
use package.synap_sdk_go.Managers.QueueManager.{queue_publish, publish_payload, numbers_of}
use package.synap_sdk_go.Managers.Rpc.{answer, IsSentAs, ask_then-sent}

-- float64 holds the numbers of a byte.
abbrev pub HoldsBytes : Runtime → Type 0
HoldsBytes rt = (b : ℕ) → b < 256 → rt.int_of_float (rt.float_of_int (pos b)) ≡ pos b

module _ {S : Type 0} (w : World S) (c : Client) (rpc : c.transport ≡ synap_rpc) where
  bytes_back :
      HoldsBytes w.rt
      → (payload : Bytes) → All (λ b. b < 256) payload
      → map (byte_of w.rt) (to_list (payload_values w.rt (numbers_of payload))) ≡ payload
  unfolding byte_of low_byte payload_values
  bytes_back exact [] h = refl
  bytes_back exact (b ∷ payload) h =
      rw (exact b h.0, bytes_back exact payload h.1) (ap (λ x. x ∷ payload) (omega (arith, h.0)))

  module _ (plain : c.tx_client_id ≡ []) (exact : HoldsBytes w.rt) where
    sent_bytes :
        (name payload : Bytes)
        → All (λ b. b < 256) payload
        → ok (
            wire "QPUBLISH" (
              str name
              ∷ str (map (byte_of w.rt) (to_list (payload_values w.rt (numbers_of payload))))
              ∷ []))
          ≡ ok (wire "QPUBLISH" (str name ∷ str payload ∷ []))
    sent_bytes name payload h =
        ap (λ b. ok (wire "QPUBLISH" (str name ∷ str b ∷ []))) (bytes_back exact payload h)

    publish_wire :
        (name payload : Bytes) (priority max_retries : ℕ)
        → All (λ b. b < 256) payload
        → IsSentAs w c rpc "queue.publish"
            (publish_payload name payload priority max_retries)
            (wire "QPUBLISH" (str name ∷ str payload ∷ []))
    unfolding IsSentAs
    publish_wire name payload priority zero h = rw plain (sent_bytes name payload h)
    publish_wire name payload priority (suc n) h = rw plain (sent_bytes name payload h)

    -- Over SynapRPC Publish of a client outside of transactions executes exactly one command,
    -- QPUBLISH of the name of the queue and the very bytes of the payload, and returns what it decodes
    -- of the reply; neither the priority nor the number of retries is sent. The numbers of a byte are
    -- taken to be exact in float64.
    pub queue_publish-sent :
        (name payload : Bytes) (priority max_retries : ℕ) (s : S)
        → All (λ b. b < 256) payload
        → queue_publish w c name payload priority max_retries s
          ≡ (w.rpc (codes "QPUBLISH") (str name ∷ str payload ∷ []) >>= λ v.
                or_invalid w "queue.publish" (
                  decode w.rt w.json
                    (one "message_id" Shape.string)
                    (answer w c rpc "queue.publish" v))
                >>= λ r. pure r.0)
              s
    unfolding queue_publish
    queue_publish-sent name payload priority max_retries s h =
        ask_then-sent w c rpc "queue.publish" (publish_payload name payload priority max_retries)
          (one "message_id" Shape.string) (wire "QPUBLISH" (str name ∷ str payload ∷ []))
          (λ r. pure r.0) (publish_wire name payload priority max_retries h) s
