-- ===== src/Command/Reply.antt =====
-- mapResponseFromWire of client.go: the shape that the modules expect of each command's reply.
use synap_sdk_go.Prelude.{Bool, true, false, ltb, is_pos, String}
use synap_sdk_go.Bytes.{Bytes, codes, bytes_eq}
use synap_sdk_go.Value.{
  Value, Values, Entries, nil, bool, int64, uint64, str, arr, dict, no_values, item, no_entries,
  entry,
}
use synap_sdk_go.Value.Maps.{insert}
use synap_sdk_go.Value.Text.{Runtime, sprint}
use package.synap_sdk_go.Command.{
  Command, KvCommand, HashCommand, ListCommand, SetCommand, QueueCommand, StreamCommand,
  TransactionCommand, PubsubCommand, kv, hash, list, set, queue, stream, transaction, pubsub,
  utility, unknown,
}
use package.synap_sdk_go.Command.Names.{of_name}

-- A map with one key, and one with two.
abbrev pub field_of : String → Value → Value
field_of k v = dict (entry (codes k) v no_entries)

abbrev pub fields_of : String → Value → String → Value → Value
fields_of k v j w = dict (entry (codes k) v (entry (codes j) w no_entries))

-- bool, int64: v, v > 0; false otherwise
unfoldable pub flag : Value → Bool
flag (bool b) = b
flag (int64 n) = is_pos n
flag v = false

-- kv.del takes a uint64 too.
unfoldable pub deleted : Value → Bool
unfolding flag
deleted (uint64 n) = ltb 0 n
deleted v = flag v

-- The array itself, or an empty one.
unfoldable pub items_of : Value → Value
items_of (arr vs) = arr vs
items_of v = arr no_values

-- list.lpop and list.rpop: one value stands for an array of it.
unfoldable pub popped : Value → Value
popped (arr vs) = arr vs
popped nil = arr no_values
popped v = arr (item v no_values)

unfoldable pub found : Value → Value
found nil = field_of "found" (bool false)
found v = fields_of "found" (bool true) "value" v

-- result == "OK" || result == true
unfoldable pub succeeded : Value → Bool
unfolding bytes_eq
succeeded (str s) = bytes_eq s (codes "OK")
succeeded (bool b) = b
succeeded v = false

unfoldable pub created_room : Value → Bool
unfolding bytes_eq
created_room (str s) = bytes_eq s (codes "CREATED")
created_room v = false

-- A transaction committed exactly if its reply is a list.
unfoldable pub executed : Value → Value
executed (arr vs) = fields_of "success" (bool true) "results" (arr vs)
executed v = fields_of "success" (bool false) "aborted" (bool true)

unfoldable pub matched : Value → Value
matched (dict m) = dict m
matched v = field_of "subscribers_matched" v

module _ (rt : Runtime) where
  -- [k, v, k, v, …] as a map; a key with no value behind it is dropped.
  pair_up : Values → Entries → Entries
  unfolding insert
  pair_up (item k (item v rest)) m = pair_up rest (insert (sprint rt k) v m)
  pair_up _ m = m

  unfoldable pub hash_fields : Value → Value
  unfolding pair_up
  hash_fields (arr vs) = field_of "fields" (dict (pair_up vs no_entries))
  hash_fields v = field_of "fields" v

unfoldable pub kv_reply : KvCommand → Value → Value
unfolding flag deleted
kv_reply KvCommand.set v = field_of "success" (bool true)
kv_reply KvCommand.del v = field_of "deleted" (bool (deleted v))
kv_reply KvCommand.exists v = field_of "exists" (bool (flag v))
kv_reply KvCommand.incr v = field_of "value" v
kv_reply KvCommand.decr v = field_of "value" v
kv_reply KvCommand.get v = v

unfoldable pub hash_reply : Runtime → HashCommand → Value → Value
unfolding flag found hash_fields
hash_reply rt HashCommand.set v = field_of "created" (bool (flag v))
hash_reply rt HashCommand.get v = found v
hash_reply rt HashCommand.exists v = field_of "exists" (bool (flag v))
hash_reply rt HashCommand.del v = field_of "removed" v
hash_reply rt HashCommand.getall v = hash_fields rt v

unfoldable pub list_reply : ListCommand → Value → Value
unfolding popped items_of
list_reply ListCommand.lpush v = field_of "length" v
list_reply ListCommand.rpush v = field_of "length" v
list_reply ListCommand.lpop v = field_of "values" (popped v)
list_reply ListCommand.rpop v = field_of "values" (popped v)
list_reply ListCommand.range v = field_of "values" (items_of v)
list_reply ListCommand.len v = field_of "length" v

unfoldable pub set_reply : SetCommand → Value → Value
unfolding flag items_of
set_reply SetCommand.add v = field_of "added" v
set_reply SetCommand.members v = field_of "members" (items_of v)
set_reply SetCommand.ismember v = field_of "is_member" (bool (flag v))
set_reply SetCommand.rem v = field_of "removed" v
set_reply SetCommand.card v = field_of "size" v

unfoldable pub queue_reply : QueueCommand → Value → Value
unfolding items_of
queue_reply QueueCommand.publish v = field_of "message_id" v
queue_reply QueueCommand.consume v = field_of "message" v
queue_reply QueueCommand.list v = field_of "queues" (items_of v)
queue_reply QueueCommand.stats v = v
queue_reply _ v = dict no_entries

unfoldable pub stream_reply : StreamCommand → Value → Value
unfolding items_of created_room
stream_reply StreamCommand.get_or_create v = field_of "created" (bool (created_room v))
stream_reply StreamCommand.publish v = field_of "offset" v
stream_reply StreamCommand.consume v = field_of "events" (items_of v)
stream_reply StreamCommand.list v = field_of "rooms" (items_of v)
stream_reply StreamCommand.stats v = v
stream_reply _ v = dict no_entries

unfoldable pub transaction_reply : TransactionCommand → Value → Value
unfolding succeeded executed
transaction_reply TransactionCommand.exec v = executed v
transaction_reply _ v = field_of "success" (bool (succeeded v))

unfoldable pub pubsub_reply : PubsubCommand → Value → Value
unfolding matched items_of
pubsub_reply PubsubCommand.publish v = matched v
pubsub_reply PubsubCommand.subscribe v = v
pubsub_reply PubsubCommand.unsubscribe v = dict no_entries
pubsub_reply PubsubCommand.topics v = field_of "topics" (items_of v)

unfoldable pub command_reply : Runtime → Command → Value → Value
unfolding kv_reply hash_reply list_reply set_reply queue_reply stream_reply transaction_reply
    pubsub_reply
command_reply rt (kv c) v = kv_reply c v
command_reply rt (hash c) v = hash_reply rt c v
command_reply rt (list c) v = list_reply c v
command_reply rt (set c) v = set_reply c v
command_reply rt (queue c) v = queue_reply c v
command_reply rt (stream c) v = stream_reply c v
command_reply rt (transaction c) v = transaction_reply c v
command_reply rt (pubsub c) v = pubsub_reply c v
command_reply rt (utility c) v = v
command_reply rt unknown v = v

unfoldable pub map_response_from_wire : Runtime → Bytes → Value → Value
unfolding of_name command_reply
map_response_from_wire rt command v = command_reply rt (of_name command) v
