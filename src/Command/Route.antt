-- ===== src/Command/Route.antt =====
-- mapCommandToWire of client.go: the switch, and the TXQUEUE wrapper of an open transaction.
pub mod Laws
pub mod Writes
use synap_sdk_go.Prelude.{
  Bool, true, false, ◌||◌, ◌++◌, Option, none, some, List, [], ◌∷◌, if◌then◌else◌, String,
}
use synap_sdk_go.Bytes.{Bytes, codes, bytes_eq}
use synap_sdk_go.Value.{Value, Entries, nil, str}
use synap_sdk_go.Value.Maps.{lookup, without}
use synap_sdk_go.Value.Text.{Runtime, sprint}
use synap_sdk_go.Errors.{SynapError, Result, ok, err, synap, ◌>>=◌}
use package.synap_sdk_go.Command.{TransportMode}
use package.synap_sdk_go.Command.Names.{of_name, is_transaction}
use package.synap_sdk_go.Command.Wire.{Wire, wire, command_wire}

-- txQueueable
abbrev pub queueable_commands : List Bytes
queueable_commands =
    codes "SET"
    ∷ codes "DEL"
    ∷ codes "INCR"
    ∷ codes "DECR"
    ∷ codes "INCRBY"
    ∷ codes "DECRBY"
    ∷ codes "HSET"
    ∷ codes "HDEL"
    ∷ codes "HINCRBY"
    ∷ codes "LPUSH"
    ∷ codes "RPUSH"
    ∷ codes "LPOP"
    ∷ codes "RPOP"
    ∷ codes "SADD"
    ∷ codes "SREM"
    ∷ []

unfoldable pub contains : List Bytes → Bytes → Bool
unfolding bytes_eq
contains [] s = false
contains (t ∷ ts) s = bytes_eq t s || contains ts s

unfoldable pub is_queueable : Bytes → Bool
unfolding contains
is_queueable cmd = contains queueable_commands cmd

unfoldable pub unsupported_command : Bytes → SynapError
unsupported_command command = record {
  code = codes "UnsupportedCommand";
  message = codes "command '" ++ (command ++ codes "' is not supported on transport 'SynapRpc'");
}

unfoldable pub not_queueable : Bytes → SynapError
not_queueable command = record {
  code = codes "UnsupportedCommand";
  message = codes "command '" ++ (command ++ codes "' cannot be queued inside a transaction");
}

abbrev present_id : Option Value → Option Value
present_id none = none
present_id (some nil) = none
present_id (some (str [])) = none
present_id (some v) = some v

-- The client id of a command that belongs to an open MULTI: it is there, neither nil nor "", and
-- the command is not one that controls the transaction.
unfoldable pub queued_under : Bytes → Entries → Option Value
unfolding lookup is_transaction
queued_under command payload =
    if is_transaction command then none else present_id (lookup (codes "client_id") payload)

module _ (rt : Runtime) where
  abbrev pub supported : Bytes → Option Wire → Result Wire
  supported command none = err (synap (unsupported_command command))
  supported command (some w) = ok w

  unfoldable pub map_switch : Bytes → Entries → TransportMode → Result Wire
  unfolding of_name command_wire
  map_switch command payload t = supported command (command_wire rt payload t (of_name command))

  abbrev pub txqueue : Bytes → Value → Wire → Result Wire
  txqueue command id inner =
      if is_queueable inner.cmd
      then ok (wire "TXQUEUE" (str (sprint rt id) ∷ str inner.cmd ∷ inner.args))
      else err (synap (not_queueable command))

  -- The source's recursive call is on a payload without client_id, and so goes to the switch.
  abbrev route : Bytes → Entries → TransportMode → Option Value → Result Wire
  route command payload t none = map_switch command payload t
  route command payload t (some id) =
      map_switch command (without (codes "client_id") payload) t >>= txqueue command id

  unfoldable pub map_command_to_wire : Bytes → Entries → TransportMode → Result Wire
  unfolding map_switch queued_under without
  map_command_to_wire command payload t = route command payload t (queued_under command payload)
