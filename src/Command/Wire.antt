-- ===== src/Command/Wire.antt =====
-- The switch of mapCommandToWire in client.go: the wire command and the arguments of each SDK
-- command, a function for each family.
use synap_sdk_go.Prelude.{Option, none, some, List, [], ◌∷◌, ◌++◌, map, if◌then◌else◌, String}
use synap_sdk_go.Bytes.{Bytes, codes, is_empty}
use synap_sdk_go.Value.{Value, Entries, str}
use synap_sdk_go.Value.Text.{Runtime}
use package.synap_sdk_go.Command.{
  Command, KvCommand, HashCommand, ListCommand, SetCommand, QueueCommand, StreamCommand,
  TransactionCommand, PubsubCommand, UtilityCommand, TransportMode, kv, hash, list, set, queue,
  stream, transaction, pubsub, utility, unknown,
}
use package.synap_sdk_go.Command.Payload.{
  get_str, get_float, get_int, get_str_slice, counter_amount, get_queue_payload, get_pairs,
}

-- A wire command with its arguments.
pub record Wire : Type 0 where
  pub cmd : Bytes
  pub args : List Value

abbrev pub wire : String → List Value → Wire
wire name args = record { cmd = codes name; args = args }

-- The strings of a []string, appended one at a time.
abbrev pub strs : List Bytes → List Value
strs = map str

module _ (rt : Runtime) (p : Entries) where
  abbrev field : String → Value
  field name = str (get_str rt p (codes name))

  abbrev fields : String → List Value
  fields name = strs (get_str_slice rt p (codes name))

  abbrev number : String → Value
  number name = get_int rt p (codes name)

  -- EX and the time to live, if that is positive.
  expiry : List Value
  unfolding get_float
  expiry =
      if rt.float_positive (get_float rt p (codes "ttl"))
      then str (codes "EX") ∷ number "ttl" ∷ []
      else []

  abbrev counter : String → String → Option Value → Wire
  counter by one none = wire one (field "key" ∷ [])
  counter by one (some amount) = wire by (field "key" ∷ amount ∷ [])

  scan_pattern : Bytes → Bytes
  scan_pattern prefix = if is_empty prefix then codes "*" else prefix ++ codes "*"

  unfoldable pub kv_wire : KvCommand → Wire
  unfolding get_str counter_amount expiry
  kv_wire KvCommand.set = wire "SET" (field "key" ∷ field "value" ∷ expiry)
  kv_wire KvCommand.get = wire "GET" (field "key" ∷ [])
  kv_wire KvCommand.del = wire "DEL" (field "key" ∷ [])
  kv_wire KvCommand.exists = wire "EXISTS" (field "key" ∷ [])
  kv_wire KvCommand.incr = counter "INCRBY" "INCR" (counter_amount rt p)
  kv_wire KvCommand.decr = counter "DECRBY" "DECR" (counter_amount rt p)

  abbrev fields_or_field : List Bytes → List Value
  fields_or_field [] = field "field" ∷ []
  fields_or_field (f ∷ fs) = strs (f ∷ fs)

  unfoldable pub hash_wire : HashCommand → Wire
  unfolding get_str get_str_slice
  hash_wire HashCommand.set = wire "HSET" (field "key" ∷ field "field" ∷ field "value" ∷ [])
  hash_wire HashCommand.get = wire "HGET" (field "key" ∷ field "field" ∷ [])
  hash_wire HashCommand.getall = wire "HGETALL" (field "key" ∷ [])
  hash_wire HashCommand.del =
      wire "HDEL" (field "key" ∷ fields_or_field (get_str_slice rt p (codes "fields")))
  hash_wire HashCommand.exists = wire "HEXISTS" (field "key" ∷ field "field" ∷ [])

  unfoldable pub list_wire : ListCommand → Wire
  unfolding get_str get_int get_str_slice
  list_wire ListCommand.lpush = wire "LPUSH" (field "key" ∷ fields "values")
  list_wire ListCommand.rpush = wire "RPUSH" (field "key" ∷ fields "values")
  list_wire ListCommand.lpop = wire "LPOP" (field "key" ∷ number "count" ∷ [])
  list_wire ListCommand.rpop = wire "RPOP" (field "key" ∷ number "count" ∷ [])
  list_wire ListCommand.range = wire "LRANGE" (field "key" ∷ number "start" ∷ number "stop" ∷ [])
  list_wire ListCommand.len = wire "LLEN" (field "key" ∷ [])

  unfoldable pub set_wire : SetCommand → Wire
  unfolding get_str get_str_slice
  set_wire SetCommand.add = wire "SADD" (field "key" ∷ fields "members")
  set_wire SetCommand.members = wire "SMEMBERS" (field "key" ∷ [])
  set_wire SetCommand.ismember = wire "SISMEMBER" (field "key" ∷ field "member" ∷ [])
  set_wire SetCommand.rem = wire "SREM" (field "key" ∷ fields "members")
  set_wire SetCommand.card = wire "SCARD" (field "key" ∷ [])

  unfoldable pub queue_wire : QueueCommand → Wire
  unfolding get_str get_queue_payload
  queue_wire QueueCommand.create = wire "QCREATE" (field "name" ∷ [])
  queue_wire QueueCommand.delete = wire "QDELETE" (field "queue" ∷ [])
  queue_wire QueueCommand.publish = wire "QPUBLISH" (field "queue" ∷ get_queue_payload rt p)
  queue_wire QueueCommand.consume = wire "QCONSUME" (field "queue" ∷ field "consumer_id" ∷ [])
  queue_wire QueueCommand.ack = wire "QACK" (field "queue" ∷ field "message_id" ∷ [])
  queue_wire QueueCommand.nack = wire "QNACK" (field "queue" ∷ field "message_id" ∷ [])
  queue_wire QueueCommand.list = wire "QLIST" []
  queue_wire QueueCommand.stats = wire "QSTATS" (field "queue" ∷ [])

  unfoldable pub stream_wire : StreamCommand → Wire
  unfolding get_str get_int
  stream_wire StreamCommand.create = wire "SCREATE" (field "room" ∷ [])
  stream_wire StreamCommand.get_or_create = wire "SGETORCREATE" (field "room" ∷ [])
  stream_wire StreamCommand.publish =
      wire "SPUBLISH" (field "room" ∷ field "event" ∷ field "data" ∷ [])
  stream_wire StreamCommand.consume =
      wire "SREAD"
        (field "room" ∷ field "subscriber_id" ∷ number "from_offset" ∷ number "limit" ∷ [])
  stream_wire StreamCommand.list = wire "SLIST" []
  stream_wire StreamCommand.stats = wire "SSTATS" (field "room" ∷ [])
  stream_wire StreamCommand.delete = wire "SDELETE" (field "room" ∷ [])

  unfoldable pub transaction_wire : TransactionCommand → Wire
  unfolding get_str get_str_slice
  transaction_wire TransactionCommand.multi = wire "MULTI" (field "client_id" ∷ [])
  transaction_wire TransactionCommand.exec = wire "EXEC" (field "client_id" ∷ [])
  transaction_wire TransactionCommand.discard = wire "DISCARD" (field "client_id" ∷ [])
  transaction_wire TransactionCommand.watch = wire "WATCH" (field "client_id" ∷ fields "keys")
  transaction_wire TransactionCommand.unwatch = wire "UNWATCH" (field "client_id" ∷ [])

  topics_wire : TransportMode → Wire
  topics_wire TransportMode.resp3 = wire "PUBSUB" (str (codes "CHANNELS") ∷ [])
  topics_wire t = wire "TOPICS" []

  unfoldable pub pubsub_wire : TransportMode → PubsubCommand → Wire
  unfolding get_str get_str_slice topics_wire
  pubsub_wire t PubsubCommand.publish = wire "PUBLISH" (field "topic" ∷ field "payload" ∷ [])
  pubsub_wire t PubsubCommand.subscribe = wire "SUBSCRIBE" (fields "topics")
  pubsub_wire t PubsubCommand.unsubscribe =
      wire "UNSUBSCRIBE" (field "subscriber_id" ∷ fields "topics")
  pubsub_wire t PubsubCommand.topics = topics_wire t

  unfoldable pub utility_wire : UtilityCommand → Wire
  unfolding get_str get_str_slice get_pairs scan_pattern
  utility_wire UtilityCommand.dbsize = wire "DBSIZE" []
  utility_wire UtilityCommand.flushdb = wire "FLUSHDB" []
  utility_wire UtilityCommand.flushall = wire "FLUSHALL" []
  utility_wire UtilityCommand.persist = wire "PERSIST" (field "key" ∷ [])
  utility_wire UtilityCommand.scan =
      wire "KEYS" (str (scan_pattern (get_str rt p (codes "prefix"))) ∷ [])
  utility_wire UtilityCommand.mdel = wire "DEL" (fields "keys")
  utility_wire UtilityCommand.mset = wire "MSET" (get_pairs rt p)
  utility_wire UtilityCommand.mget = wire "MGET" (fields "keys")

  -- The whole switch; it has no case for an unknown command.
  unfoldable pub command_wire : TransportMode → Command → Option Wire
  unfolding kv_wire hash_wire list_wire set_wire queue_wire stream_wire transaction_wire pubsub_wire
      utility_wire
  command_wire t (kv c) = some (kv_wire c)
  command_wire t (hash c) = some (hash_wire c)
  command_wire t (list c) = some (list_wire c)
  command_wire t (set c) = some (set_wire c)
  command_wire t (queue c) = some (queue_wire c)
  command_wire t (stream c) = some (stream_wire c)
  command_wire t (transaction c) = some (transaction_wire c)
  command_wire t (pubsub c) = some (pubsub_wire t c)
  command_wire t (utility c) = some (utility_wire c)
  command_wire t unknown = none
