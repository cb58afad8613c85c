-- ===== src/Transaction/Outside.antt =====
-- What a client outside of transactions executes over SynapRPC.
use synap_sdk_go.Prelude.{
  ◌≡◌, refl, ◌∙◌, ap, sym, [], Bool, false, Option, none, some, inl, inr, ◌⊎◌, arith,
}
use synap_sdk_go.Bytes.{Bytes, codes, bytes_eq}
use synap_sdk_go.Value.{Entries}
use synap_sdk_go.Value.Text.{Runtime}
use synap_sdk_go.Errors.{Error, Result, ok, err}
use synap_sdk_go.Resp3.Outcome.{error}
use synap_sdk_go.Command.{
  Command, KvCommand, HashCommand, ListCommand, SetCommand, QueueCommand, StreamCommand,
  TransactionCommand, PubsubCommand, UtilityCommand, TransportMode, synap_rpc, kv, hash, list, set,
  queue, stream, transaction, pubsub, utility, unknown,
}
use synap_sdk_go.Command.Names.{of_name}
use synap_sdk_go.Command.Wire.{Wire, command_wire}
use synap_sdk_go.Command.Route.{supported, queued_under, map_switch, map_command_to_wire}
use synap_sdk_go.Command.Reply.{map_response_from_wire}
use synap_sdk_go.Payload.{Reflected, payload_to_map}
use synap_sdk_go.Response.{Response}
use synap_sdk_go.Client.{tagged, normalize_ints, send_command}
use synap_sdk_go.Client.Calls.{◌>>=◌, pure}
use synap_sdk_go.Client.Http.{World, Client}

-- The wire command that puts another one into a transaction.
unfoldable pub is_txqueue : Wire → Bool
unfolding bytes_eq
is_txqueue w = bytes_eq w.cmd (codes "TXQUEUE")

abbrev sent_queued : Option Wire → Bool
unfolding is_txqueue
sent_queued none = false
sent_queued (some w) = is_txqueue w

module _ (rt : Runtime) (p : Entries) (t : TransportMode) where
  abbrev queues : Command → Bool
  unfolding sent_queued command_wire
  queues c = sent_queued (command_wire rt p t c)

  queues-kv : (c : KvCommand) → queues (kv c) ≡ false
  unfolding queues
  queues-kv KvCommand.incr = ground arith
  queues-kv KvCommand.decr = ground arith
  queues-kv _ = refl

  queues-hash : (c : HashCommand) → queues (hash c) ≡ false
  unfolding queues
  queues-hash HashCommand.set = refl
  queues-hash _ = refl

  queues-list : (c : ListCommand) → queues (list c) ≡ false
  unfolding queues
  queues-list ListCommand.lpush = refl
  queues-list _ = refl

  queues-set : (c : SetCommand) → queues (set c) ≡ false
  unfolding queues
  queues-set SetCommand.add = refl
  queues-set _ = refl

  queues-queue : (c : QueueCommand) → queues (queue c) ≡ false
  unfolding queues
  queues-queue QueueCommand.create = refl
  queues-queue _ = refl

  queues-stream : (c : StreamCommand) → queues (stream c) ≡ false
  unfolding queues
  queues-stream StreamCommand.create = refl
  queues-stream _ = refl

  queues-transaction : (c : TransactionCommand) → queues (transaction c) ≡ false
  unfolding queues
  queues-transaction TransactionCommand.multi = refl
  queues-transaction _ = refl

  queues-pubsub : (c : PubsubCommand) → queues (pubsub c) ≡ false
  unfolding queues
  queues-pubsub PubsubCommand.publish = refl
  queues-pubsub PubsubCommand.topics = ground arith
  queues-pubsub _ = refl

  queues-utility : (c : UtilityCommand) → queues (utility c) ≡ false
  unfolding queues
  queues-utility UtilityCommand.dbsize = refl
  queues-utility _ = refl

  queues-false : (c : Command) → queues c ≡ false
  queues-false (kv c) = queues-kv c
  queues-false (hash c) = queues-hash c
  queues-false (list c) = queues-list c
  queues-false (set c) = queues-set c
  queues-false (queue c) = queues-queue c
  queues-false (stream c) = queues-stream c
  queues-false (transaction c) = queues-transaction c
  queues-false (pubsub c) = queues-pubsub c
  queues-false (utility c) = queues-utility c
  queues-false unknown = unfold queues in refl

supported-unqueued :
    (rt : Runtime) (command : Bytes) (found : Option Wire) (sent : Wire)
    → sent_queued found ≡ false
    → supported rt command found ≡ ok sent
    → is_txqueue sent ≡ false
unfolding is_txqueue sent_queued
supported-unqueued rt command none sent h e = absurd (cc e)
supported-unqueued rt command (some w) sent h e =
    let same : w ≡ sent = cc e in ap is_txqueue (sym same) ∙ h

map_command_to_wire-unqueued :
    (rt : Runtime) (command : Bytes) (p : Entries) (sent : Wire)
    → queued_under command p ≡ none
    → map_command_to_wire rt command p synap_rpc ≡ ok sent
    → is_txqueue sent ≡ false
unfolding map_command_to_wire map_switch queues
map_command_to_wire-unqueued rt command p sent h e =
    supported-unqueued rt command (command_wire rt p synap_rpc (of_name command)) sent
      (queues-false rt p synap_rpc (of_name command)) (rw h at e)

module _ {S : Type 0} (w : World S) (c : Client) where
  abbrev pub IsUnqueued : Bytes → Reflected → S → Wire → Type 0
  unfolding map_command_to_wire payload_to_map send_command map_response_from_wire normalize_ints
      is_txqueue
  IsUnqueued command payload s sent =
      (map_command_to_wire w.rt command (payload_to_map w.rt payload) synap_rpc ≡ ok sent)
      × (is_txqueue sent ≡ false)
      × (send_command w c command payload s
          ≡ (w.rpc sent.cmd sent.args >>= λ v.
                pure (Response.value (map_response_from_wire w.rt command (normalize_ints v))))
              s)

  -- Over SynapRPC a command that a client outside of transactions issues, with a payload that names
  -- no transaction unless it is a command that controls one, either fails before anything is
  -- executed, with the state as it was, or it executes one command, that of the mapping of its own
  -- payload, and never TXQUEUE.
  pub send_command-IsUnqueued :
      (command : Bytes) (payload : Reflected) (s : S)
      → c.transport ≡ synap_rpc
      → c.tx_client_id ≡ []
      → queued_under command (payload_to_map w.rt payload) ≡ none
      → ((e : Error) × (send_command w c command payload s ≡ (error e, s)))
        ⊎ ((sent : Wire) × IsUnqueued command payload s sent)
  unfolding IsUnqueued tagged
  send_command-IsUnqueued command payload s rpc plain h =
      go (map_command_to_wire w.rt command (payload_to_map w.rt payload) synap_rpc) refl
    where
      go :
          (r : Result Wire)
          → map_command_to_wire w.rt command (payload_to_map w.rt payload) synap_rpc ≡ r
          → ((e : Error) × (send_command w c command payload s ≡ (error e, s)))
            ⊎ ((sent : Wire) × IsUnqueued command payload s sent)
      go (err e) m = inl (e, rw (rpc, plain, m))
      go (ok sent) m = inr (
        sent,
        (
          m,
          map_command_to_wire-unqueued w.rt command (payload_to_map w.rt payload) sent h m,
          rw (rpc, plain, m),
        ),
      )
