-- ===== src/Tests/Commands.antt =====
-- Commands on the wire.
use synap_sdk_go.Prelude.{◌≡◌, refl, [], ◌∷◌, true, false, some, pos}
use synap_sdk_go.Bytes.{codes}
use synap_sdk_go.Value.{int, str, bool, dict, entry, no_entries}
use synap_sdk_go.Value.Text.{sprint}
use synap_sdk_go.Errors.{ok, err, synap}
use synap_sdk_go.Command.{KvCommand, kv, synap_rpc, resp3}
use synap_sdk_go.Command.Names.{name}
use synap_sdk_go.Command.Wire.{Wire, wire}
use synap_sdk_go.Command.Route.{is_queueable, queued_under, map_command_to_wire, not_queueable}
use synap_sdk_go.Command.Route.Laws.{client_id, queued-txqueue}
use synap_sdk_go.Command.Route.Writes.{is_ok, queued-is_write}
use synap_sdk_go.Value.Maps.{without}
use package.synap_sdk_go.Tests.Sample.{integers, set_payload, queued_payload}

abbrev set_args : Wire
set_args =
    wire "SET"
      (str (codes "k") ∷ str (222 ∷ 173 ∷ 13 ∷ 10 ∷ []) ∷ str (codes "EX") ∷ int (pos 60) ∷ [])

set_sent : map_command_to_wire integers (codes "kv.set") set_payload synap_rpc ≡ ok set_args
unfolding map_command_to_wire
set_sent = refl

queued_sent :
    map_command_to_wire integers (codes "kv.set") queued_payload synap_rpc
    ≡ ok (wire "TXQUEUE" (str (codes "tx1") ∷ str (codes "SET") ∷ set_args.args))
unfolding map_command_to_wire is_queueable sprint
queued_sent = refl

read_refused :
    map_command_to_wire integers (codes "kv.get") queued_payload resp3
    ≡ err (synap (not_queueable (codes "kv.get")))
unfolding map_command_to_wire is_queueable
read_refused = refl

topics_by_wire :
    (map_command_to_wire integers (codes "pubsub.topics") no_entries synap_rpc
      ≡ ok (wire "TOPICS" []))
    × (map_command_to_wire integers (codes "pubsub.topics") no_entries resp3
        ≡ ok (wire "PUBSUB" (str (codes "CHANNELS") ∷ [])))
unfolding map_command_to_wire
topics_by_wire = (refl, refl)

in_transaction : queued_under (codes "kv.set") queued_payload ≡ some (str (codes "tx1"))
unfolding queued_under
in_transaction = refl

queued-txqueue_example :
    (inner : Wire) × (map_command_to_wire integers
        (codes "kv.set")
        (without client_id queued_payload)
        synap_rpc
      ≡ ok inner)
    × (is_queueable inner.cmd ≡ true)
    × (wire "TXQUEUE" (str (codes "tx1") ∷ str (codes "SET") ∷ set_args.args)
        ≡ wire "TXQUEUE" (str (sprint integers (str (codes "tx1"))) ∷ str inner.cmd ∷ inner.args))
queued-txqueue_example =
    queued-txqueue integers (codes "kv.set") queued_payload synap_rpc (str (codes "tx1"))
      (wire "TXQUEUE" (str (codes "tx1") ∷ str (codes "SET") ∷ set_args.args)) in_transaction
      queued_sent

get_in_transaction :
    queued_under (name (kv KvCommand.get)) queued_payload ≡ some (str (codes "tx1"))
unfolding queued_under name
get_in_transaction = refl

queued-is_write_example :
    is_ok (map_command_to_wire integers (name (kv KvCommand.get)) queued_payload resp3) ≡ false
queued-is_write_example =
    queued-is_write integers queued_payload resp3 (kv KvCommand.get) (str (codes "tx1"))
      get_in_transaction

-- An event whose data is a map goes out as fmt prints the map.
published_map :
    map_command_to_wire integers
      (codes "stream.publish")
      (entry (codes "room") (str (codes "r")) (
        entry
          (codes "event")
          (str (codes "e"))
          (entry (codes "data") (dict (entry (codes "a") (bool true) no_entries)) no_entries)))
      synap_rpc
    ≡ ok (wire "SPUBLISH" (str (codes "r") ∷ str (codes "e") ∷ str (codes "map[a:true]") ∷ []))
unfolding map_command_to_wire sprint
published_map = refl
