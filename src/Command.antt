-- ===== src/Command.antt =====
-- The commands of the SDK: the labels of the switches of mapCommandToWire and
-- mapResponseFromWire in client.go, a family for each module of the client.
pub mod Names
pub mod Payload
pub mod Wire
pub mod Route
pub mod Reply

pub data KvCommand : Type 0 where
  set get del exists incr decr : KvCommand

-- The commands under "Utility" of mapCommandToWire; their names begin with "kv." too.
pub data UtilityCommand : Type 0 where
  dbsize flushdb flushall persist scan mdel mset mget : UtilityCommand

pub data HashCommand : Type 0 where
  set get getall del exists : HashCommand

pub data ListCommand : Type 0 where
  lpush rpush lpop rpop range len : ListCommand

pub data SetCommand : Type 0 where
  add members ismember rem card : SetCommand

pub data QueueCommand : Type 0 where
  create delete publish consume ack nack list stats : QueueCommand

pub data StreamCommand : Type 0 where
  create get_or_create publish consume list stats delete : StreamCommand

pub data TransactionCommand : Type 0 where
  multi exec discard watch unwatch : TransactionCommand

pub data PubsubCommand : Type 0 where
  publish subscribe unsubscribe topics : PubsubCommand

-- `unknown` is the default case of both switches.
pub data Command : Type 0 where
  kv : KvCommand → Command
  hash : HashCommand → Command
  list : ListCommand → Command
  set : SetCommand → Command
  queue : QueueCommand → Command
  stream : StreamCommand → Command
  transaction : TransactionCommand → Command
  pubsub : PubsubCommand → Command
  utility : UtilityCommand → Command
  unknown : Command

-- TransportMode
pub data TransportMode : Type 0 where
  http synap_rpc resp3 : TransportMode
