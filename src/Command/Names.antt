-- ===== src/Command/Names.antt =====
-- The command names, as the string labels of the switches spell them.
pub mod Selects
use synap_sdk_go.Prelude.{◌++◌, List, [], ◌∷◌, if◌then◌else◌, Bool}
use synap_sdk_go.Bytes.{Bytes, codes, bytes_eq, has_prefix}
use package.synap_sdk_go.Command.{
  Command, KvCommand, HashCommand, ListCommand, SetCommand, QueueCommand, StreamCommand,
  TransactionCommand, PubsubCommand, UtilityCommand, kv, hash, list, set, queue, stream,
  transaction, pubsub, utility, unknown,
}

-- A label and the case that it stands for.
abbrev Label : Type 0
Label = Bytes × Command

abbrev kv_labels : List Label
kv_labels =
    (codes "kv.set", kv KvCommand.set)
    ∷ (codes "kv.get", kv KvCommand.get)
    ∷ (codes "kv.del", kv KvCommand.del)
    ∷ (codes "kv.exists", kv KvCommand.exists)
    ∷ (codes "kv.incr", kv KvCommand.incr)
    ∷ (codes "kv.decr", kv KvCommand.decr)
    ∷ []

abbrev utility_labels : List Label
utility_labels =
    (codes "kv.dbsize", utility UtilityCommand.dbsize)
    ∷ (codes "kv.flushdb", utility UtilityCommand.flushdb)
    ∷ (codes "kv.flushall", utility UtilityCommand.flushall)
    ∷ (codes "kv.persist", utility UtilityCommand.persist)
    ∷ (codes "kv.scan", utility UtilityCommand.scan)
    ∷ (codes "kv.mdel", utility UtilityCommand.mdel)
    ∷ (codes "kv.mset", utility UtilityCommand.mset)
    ∷ (codes "kv.mget", utility UtilityCommand.mget)
    ∷ []

abbrev hash_labels : List Label
hash_labels =
    (codes "hash.set", hash HashCommand.set)
    ∷ (codes "hash.get", hash HashCommand.get)
    ∷ (codes "hash.getall", hash HashCommand.getall)
    ∷ (codes "hash.del", hash HashCommand.del)
    ∷ (codes "hash.exists", hash HashCommand.exists)
    ∷ []

abbrev list_labels : List Label
list_labels =
    (codes "list.lpush", list ListCommand.lpush)
    ∷ (codes "list.rpush", list ListCommand.rpush)
    ∷ (codes "list.lpop", list ListCommand.lpop)
    ∷ (codes "list.rpop", list ListCommand.rpop)
    ∷ (codes "list.range", list ListCommand.range)
    ∷ (codes "list.len", list ListCommand.len)
    ∷ []

abbrev set_labels : List Label
set_labels =
    (codes "set.add", set SetCommand.add)
    ∷ (codes "set.members", set SetCommand.members)
    ∷ (codes "set.ismember", set SetCommand.ismember)
    ∷ (codes "set.rem", set SetCommand.rem)
    ∷ (codes "set.card", set SetCommand.card)
    ∷ []

abbrev queue_labels : List Label
queue_labels =
    (codes "queue.create", queue QueueCommand.create)
    ∷ (codes "queue.delete", queue QueueCommand.delete)
    ∷ (codes "queue.publish", queue QueueCommand.publish)
    ∷ (codes "queue.consume", queue QueueCommand.consume)
    ∷ (codes "queue.ack", queue QueueCommand.ack)
    ∷ (codes "queue.nack", queue QueueCommand.nack)
    ∷ (codes "queue.list", queue QueueCommand.list)
    ∷ (codes "queue.stats", queue QueueCommand.stats)
    ∷ []

abbrev stream_labels : List Label
stream_labels =
    (codes "stream.create", stream StreamCommand.create)
    ∷ (codes "stream.get_or_create", stream StreamCommand.get_or_create)
    ∷ (codes "stream.publish", stream StreamCommand.publish)
    ∷ (codes "stream.consume", stream StreamCommand.consume)
    ∷ (codes "stream.list", stream StreamCommand.list)
    ∷ (codes "stream.stats", stream StreamCommand.stats)
    ∷ (codes "stream.delete", stream StreamCommand.delete)
    ∷ []

abbrev transaction_labels : List Label
transaction_labels =
    (codes "transaction.multi", transaction TransactionCommand.multi)
    ∷ (codes "transaction.exec", transaction TransactionCommand.exec)
    ∷ (codes "transaction.discard", transaction TransactionCommand.discard)
    ∷ (codes "transaction.watch", transaction TransactionCommand.watch)
    ∷ (codes "transaction.unwatch", transaction TransactionCommand.unwatch)
    ∷ []

abbrev pubsub_labels : List Label
pubsub_labels =
    (codes "pubsub.publish", pubsub PubsubCommand.publish)
    ∷ (codes "pubsub.subscribe", pubsub PubsubCommand.subscribe)
    ∷ (codes "pubsub.unsubscribe", pubsub PubsubCommand.unsubscribe)
    ∷ (codes "pubsub.topics", pubsub PubsubCommand.topics)
    ∷ []

switch : List Label → Bytes → Command
unfolding bytes_eq
switch [] s = unknown
switch ((name, c) ∷ rest) s = if bytes_eq s name then c else switch rest s

abbrev labels : List Label
labels =
    kv_labels
    ++ (hash_labels
        ++ (list_labels
            ++ (set_labels
                ++ (queue_labels
                    ++ (stream_labels
                        ++ (transaction_labels ++ (pubsub_labels ++ utility_labels)))))))

-- The case of `switch command` that a command name selects.
unfoldable pub of_name : Bytes → Command
unfolding switch
of_name s = switch labels s

unfoldable pub kv_name : KvCommand → Bytes
kv_name KvCommand.set = codes "kv.set"
kv_name KvCommand.get = codes "kv.get"
kv_name KvCommand.del = codes "kv.del"
kv_name KvCommand.exists = codes "kv.exists"
kv_name KvCommand.incr = codes "kv.incr"
kv_name KvCommand.decr = codes "kv.decr"

unfoldable pub utility_name : UtilityCommand → Bytes
utility_name UtilityCommand.dbsize = codes "kv.dbsize"
utility_name UtilityCommand.flushdb = codes "kv.flushdb"
utility_name UtilityCommand.flushall = codes "kv.flushall"
utility_name UtilityCommand.persist = codes "kv.persist"
utility_name UtilityCommand.scan = codes "kv.scan"
utility_name UtilityCommand.mdel = codes "kv.mdel"
utility_name UtilityCommand.mset = codes "kv.mset"
utility_name UtilityCommand.mget = codes "kv.mget"

unfoldable pub hash_name : HashCommand → Bytes
hash_name HashCommand.set = codes "hash.set"
hash_name HashCommand.get = codes "hash.get"
hash_name HashCommand.getall = codes "hash.getall"
hash_name HashCommand.del = codes "hash.del"
hash_name HashCommand.exists = codes "hash.exists"

unfoldable pub list_name : ListCommand → Bytes
list_name ListCommand.lpush = codes "list.lpush"
list_name ListCommand.rpush = codes "list.rpush"
list_name ListCommand.lpop = codes "list.lpop"
list_name ListCommand.rpop = codes "list.rpop"
list_name ListCommand.range = codes "list.range"
list_name ListCommand.len = codes "list.len"

unfoldable pub set_name : SetCommand → Bytes
set_name SetCommand.add = codes "set.add"
set_name SetCommand.members = codes "set.members"
set_name SetCommand.ismember = codes "set.ismember"
set_name SetCommand.rem = codes "set.rem"
set_name SetCommand.card = codes "set.card"

unfoldable pub queue_name : QueueCommand → Bytes
queue_name QueueCommand.create = codes "queue.create"
queue_name QueueCommand.delete = codes "queue.delete"
queue_name QueueCommand.publish = codes "queue.publish"
queue_name QueueCommand.consume = codes "queue.consume"
queue_name QueueCommand.ack = codes "queue.ack"
queue_name QueueCommand.nack = codes "queue.nack"
queue_name QueueCommand.list = codes "queue.list"
queue_name QueueCommand.stats = codes "queue.stats"

unfoldable pub stream_name : StreamCommand → Bytes
stream_name StreamCommand.create = codes "stream.create"
stream_name StreamCommand.get_or_create = codes "stream.get_or_create"
stream_name StreamCommand.publish = codes "stream.publish"
stream_name StreamCommand.consume = codes "stream.consume"
stream_name StreamCommand.list = codes "stream.list"
stream_name StreamCommand.stats = codes "stream.stats"
stream_name StreamCommand.delete = codes "stream.delete"

unfoldable pub transaction_name : TransactionCommand → Bytes
transaction_name TransactionCommand.multi = codes "transaction.multi"
transaction_name TransactionCommand.exec = codes "transaction.exec"
transaction_name TransactionCommand.discard = codes "transaction.discard"
transaction_name TransactionCommand.watch = codes "transaction.watch"
transaction_name TransactionCommand.unwatch = codes "transaction.unwatch"

unfoldable pub pubsub_name : PubsubCommand → Bytes
pubsub_name PubsubCommand.publish = codes "pubsub.publish"
pubsub_name PubsubCommand.subscribe = codes "pubsub.subscribe"
pubsub_name PubsubCommand.unsubscribe = codes "pubsub.unsubscribe"
pubsub_name PubsubCommand.topics = codes "pubsub.topics"

-- The name that a module of the client passes to sendCommand.
unfoldable pub name : Command → Bytes
unfolding kv_name hash_name list_name set_name queue_name stream_name transaction_name pubsub_name
    utility_name
name (kv c) = kv_name c
name (hash c) = hash_name c
name (list c) = list_name c
name (set c) = set_name c
name (queue c) = queue_name c
name (stream c) = stream_name c
name (transaction c) = transaction_name c
name (pubsub c) = pubsub_name c
name (utility c) = utility_name c
name unknown = []

-- strings.HasPrefix(command, "transaction.")
unfoldable pub is_transaction : Bytes → Bool
unfolding has_prefix
is_transaction command = has_prefix command (codes "transaction.")
