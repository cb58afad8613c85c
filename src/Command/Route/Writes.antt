-- ===== src/Command/Route/Writes.antt =====
-- Which commands mapCommandToWire sends inside an open MULTI, and what it sends outside one.
use synap_sdk_go.Prelude.{◌≡◌, refl, Bool, true, false, none, some, arith}
use synap_sdk_go.Value.{Value, Entries}
use synap_sdk_go.Value.Maps.{without}
use synap_sdk_go.Value.Text.{Runtime}
use synap_sdk_go.Errors.{Result, ok, err, ◌>>=◌}
use package.synap_sdk_go.Command.{
  Command, KvCommand, HashCommand, ListCommand, SetCommand, PubsubCommand, TransportMode, kv, hash,
  list, set, queue, stream, transaction, pubsub, utility, unknown, QueueCommand, StreamCommand,
  UtilityCommand, TransactionCommand,
}
use package.synap_sdk_go.Command.Names.{name}
use package.synap_sdk_go.Command.Names.Selects.{of_name-name}
use package.synap_sdk_go.Command.Wire.{Wire, command_wire}
use package.synap_sdk_go.Command.Route.{
  is_queueable, queued_under, supported, map_switch, txqueue, map_command_to_wire,
}
use package.synap_sdk_go.Command.Route.Laws.{client_id}

abbrev pub is_ok : Result Wire → Bool
is_ok (ok w) = true
is_ok (err e) = false

-- The writes that a MULTI can hold.
abbrev pub is_write : Command → Bool
is_write (kv KvCommand.set) = true
is_write (kv KvCommand.del) = true
is_write (utility UtilityCommand.mdel) = true
is_write (kv KvCommand.incr) = true
is_write (kv KvCommand.decr) = true
is_write (hash HashCommand.set) = true
is_write (hash HashCommand.del) = true
is_write (list ListCommand.lpush) = true
is_write (list ListCommand.rpush) = true
is_write (list ListCommand.lpop) = true
is_write (list ListCommand.rpop) = true
is_write (set SetCommand.add) = true
is_write (set SetCommand.rem) = true
is_write _ = false

module _ (rt : Runtime) (p : Entries) (t : TransportMode) (id : Value) where
  abbrev queues : Command → Bool
  queues c = is_ok (supported rt (name c) (command_wire rt p t c) >>= txqueue rt (name c) id)

  queues-kv : (c : KvCommand) → queues (kv c) ≡ is_write (kv c)
  unfolding command_wire is_queueable
  queues-kv KvCommand.incr = ground arith
  queues-kv KvCommand.decr = ground arith
  queues-kv _ = refl

  queues-hash : (c : HashCommand) → queues (hash c) ≡ is_write (hash c)
  unfolding command_wire is_queueable
  queues-hash HashCommand.set = refl
  queues-hash _ = refl

  queues-list : (c : ListCommand) → queues (list c) ≡ is_write (list c)
  unfolding command_wire is_queueable
  queues-list ListCommand.lpush = refl
  queues-list _ = refl

  queues-set : (c : SetCommand) → queues (set c) ≡ is_write (set c)
  unfolding command_wire is_queueable
  queues-set SetCommand.add = refl
  queues-set _ = refl

  queues-queue : (c : QueueCommand) → queues (queue c) ≡ false
  unfolding command_wire is_queueable
  queues-queue QueueCommand.create = refl
  queues-queue _ = refl

  queues-stream : (c : StreamCommand) → queues (stream c) ≡ false
  unfolding command_wire is_queueable
  queues-stream StreamCommand.create = refl
  queues-stream _ = refl

  queues-transaction : (c : TransactionCommand) → queues (transaction c) ≡ false
  unfolding command_wire is_queueable
  queues-transaction TransactionCommand.multi = refl
  queues-transaction _ = refl

  queues-pubsub : (c : PubsubCommand) → queues (pubsub c) ≡ false
  unfolding command_wire is_queueable
  queues-pubsub PubsubCommand.publish = refl
  queues-pubsub PubsubCommand.topics = ground arith
  queues-pubsub _ = refl

  queues-utility : (c : UtilityCommand) → queues (utility c) ≡ is_write (utility c)
  unfolding command_wire is_queueable
  queues-utility UtilityCommand.dbsize = refl
  queues-utility _ = refl

  queues-is_write : (c : Command) → queues c ≡ is_write c
  queues-is_write (kv c) = queues-kv c
  queues-is_write (hash c) = queues-hash c
  queues-is_write (list c) = queues-list c
  queues-is_write (set c) = queues-set c
  queues-is_write (queue c) = queues-queue c
  queues-is_write (stream c) = queues-stream c
  queues-is_write (transaction c) = queues-transaction c
  queues-is_write (pubsub c) = queues-pubsub c
  queues-is_write (utility c) = queues-utility c
  queues-is_write unknown = unfold command_wire in refl

-- Inside a MULTI a command of the SDK is sent exactly if it is one of the thirteen writes; every
-- other is refused, reads and commands of the other modules alike.
pub queued-is_write :
    (rt : Runtime) (p : Entries) (t : TransportMode) (c : Command) (id : Value)
    → queued_under (name c) p ≡ some id
    → is_ok (map_command_to_wire rt (name c) p t) ≡ is_write c
unfolding map_command_to_wire map_switch
queued-is_write rt p t c id h =
    rw (h, of_name-name c) (queues-is_write rt (without client_id p) t id c)

-- Outside a MULTI a command of the SDK is sent as its own case of the switch says.
pub unqueued-command_wire :
    (rt : Runtime) (p : Entries) (t : TransportMode) (c : Command)
    → queued_under (name c) p ≡ none
    → map_command_to_wire rt (name c) p t ≡ supported rt (name c) (command_wire rt p t c)
unfolding map_command_to_wire map_switch
unqueued-command_wire rt p t c h = rw (h, of_name-name c)
