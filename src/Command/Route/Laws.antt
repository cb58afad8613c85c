-- ===== src/Command/Route/Laws.antt =====
-- What mapCommandToWire guarantees of a command that belongs to an open MULTI.
use synap_sdk_go.Prelude.{
  ◌≡◌, ◌≢◌, refl, true, none, some, ◌∷◌, arith, Bool-cases, Option-cases, inl, inr, ap,
}
use synap_sdk_go.Bytes.{Bytes, codes}
use synap_sdk_go.Value.{Value, Entries, str}
use synap_sdk_go.Value.Maps.{without, lookup-without_self}
use synap_sdk_go.Value.Text.{Runtime, sprint}
use synap_sdk_go.Errors.{Result, ok, err, ◌>>=◌}
use package.synap_sdk_go.Command.{
  Command, PubsubCommand, TransportMode, kv, hash, list, set, queue, stream, transaction, pubsub,
  utility, unknown,
}
use package.synap_sdk_go.Command.Names.{of_name}
use package.synap_sdk_go.Command.Wire.{Wire, wire, command_wire}
use package.synap_sdk_go.Command.Route.{
  is_queueable, queued_under, supported, map_switch, txqueue, map_command_to_wire,
}

abbrev pub client_id : Bytes
client_id = codes "client_id"

-- Without its client_id no command belongs to a transaction.
queued_under-without :
    (command : Bytes) (p : Entries) → queued_under command (without client_id p) ≡ none
unfolding queued_under
queued_under-without command p = rw (lookup-without_self client_id p) (ground arith)

module _ (rt : Runtime) (p : Entries) (t u : TransportMode) where
  pubsub_wire-transport :
      (c : PubsubCommand)
      → pubsub c ≢ pubsub PubsubCommand.topics
      → command_wire rt p t (pubsub c) ≡ command_wire rt p u (pubsub c)
  unfolding command_wire
  pubsub_wire-transport PubsubCommand.topics h = absurd (h refl)
  pubsub_wire-transport _ h = refl

  command_wire-transport :
      (c : Command)
      → c ≢ pubsub PubsubCommand.topics
      → command_wire rt p t c ≡ command_wire rt p u c
  command_wire-transport (pubsub c) h = pubsub_wire-transport c h
  command_wire-transport (kv c) h = unfold command_wire in refl
  command_wire-transport (hash c) h = unfold command_wire in refl
  command_wire-transport (list c) h = unfold command_wire in refl
  command_wire-transport (set c) h = unfold command_wire in refl
  command_wire-transport (queue c) h = unfold command_wire in refl
  command_wire-transport (stream c) h = unfold command_wire in refl
  command_wire-transport (transaction c) h = unfold command_wire in refl
  command_wire-transport (utility c) h = unfold command_wire in refl
  command_wire-transport unknown h = unfold command_wire in refl

  map_switch-transport :
      (command : Bytes)
      → of_name command ≢ pubsub PubsubCommand.topics
      → map_switch rt command p t ≡ map_switch rt command p u
  map_switch-transport command h =
      unfold map_switch in ap (supported rt command) (command_wire-transport (of_name command) h)

module _ (rt : Runtime) (command : Bytes) (p : Entries) (t : TransportMode) where
  map-without :
      map_command_to_wire rt command (without client_id p) t
      ≡ map_switch rt command (without client_id p) t
  map-without = unfold map_command_to_wire in rw (queued_under-without command p)

  -- The source's recursion: with a client id the command is mapped again without it, and what that
  -- call returns is wrapped in TXQUEUE.
  map_command_to_wire-queued :
      (id : Value)
      → queued_under command p ≡ some id
      → map_command_to_wire rt command p t
        ≡ (map_command_to_wire rt command (without client_id p) t >>= txqueue rt command id)
  map_command_to_wire-queued id h = rw map-without (unfold map_command_to_wire in rw h)

  -- A command of an open MULTI reaches the wire in no other form than TXQUEUE: what is sent is the
  -- id, a command that the server can queue, and that command's own arguments.
  pub queued-txqueue :
      (id : Value) (w : Wire)
      → queued_under command p ≡ some id
      → map_command_to_wire rt command p t ≡ ok w
      → (inner : Wire) × (map_command_to_wire rt command (without client_id p) t ≡ ok inner)
        × (is_queueable inner.cmd ≡ true)
        × (w ≡ wire "TXQUEUE" (str (sprint rt id) ∷ str inner.cmd ∷ inner.args))
  queued-txqueue id w h e =
      wrapped (map_command_to_wire rt command (without client_id p) t) refl
        (rw (map_command_to_wire-queued id h) at e)
    where
      wrapped :
          (r : Result Wire)
          → map_command_to_wire rt command (without client_id p) t ≡ r
          → (r >>= txqueue rt command id) ≡ ok w
          → (inner : Wire) × (map_command_to_wire rt command (without client_id p) t ≡ ok inner)
            × (is_queueable inner.cmd ≡ true)
            × (w ≡ wire "TXQUEUE" (str (sprint rt id) ∷ str inner.cmd ∷ inner.args))
      wrapped (err x) r e = cc
      wrapped (ok inner) r e = elim (Bool-cases (is_queueable inner.cmd)) [
        | inl q ↦ (inner, r, q, cc (rw q at e))
        | inr q ↦ absurd (cc (rw q at e))
      ]

  -- The two native wires are sent the same, but for the listing of the topics.
  map_command_to_wire-transport :
      (u : TransportMode)
      → of_name command ≢ pubsub PubsubCommand.topics
      → map_command_to_wire rt command p t ≡ map_command_to_wire rt command p u
  unfolding map_command_to_wire
  map_command_to_wire-transport u h = elim (Option-cases (queued_under command p)) [
    | inl e ↦ rw e (map_switch-transport rt p t u command h)
    | inr (id, e) ↦ rw (e, map_switch-transport rt (without client_id p) t u command h)
  ]
