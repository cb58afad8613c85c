-- ===== src/Command/Names/Selects.antt =====
-- The switches select the case of the name that the modules of the client send.
use synap_sdk_go.Prelude.{◌≡◌, refl, Bool, true, false}
use package.synap_sdk_go.Command.{
  Command, KvCommand, HashCommand, ListCommand, SetCommand, QueueCommand, StreamCommand,
  TransactionCommand, PubsubCommand, UtilityCommand, kv, hash, list, set, queue, stream,
  transaction, pubsub, utility, unknown,
}
use package.synap_sdk_go.Command.Names.{of_name, name, is_transaction}

of_name-kv : (c : KvCommand) → of_name (name (kv c)) ≡ kv c
unfolding of_name name
of_name-kv KvCommand.set = refl
of_name-kv _ = refl

of_name-hash : (c : HashCommand) → of_name (name (hash c)) ≡ hash c
unfolding of_name name
of_name-hash HashCommand.set = refl
of_name-hash _ = refl

of_name-list : (c : ListCommand) → of_name (name (list c)) ≡ list c
unfolding of_name name
of_name-list ListCommand.lpush = refl
of_name-list _ = refl

of_name-set : (c : SetCommand) → of_name (name (set c)) ≡ set c
unfolding of_name name
of_name-set SetCommand.add = refl
of_name-set _ = refl

of_name-queue : (c : QueueCommand) → of_name (name (queue c)) ≡ queue c
unfolding of_name name
of_name-queue QueueCommand.create = refl
of_name-queue _ = refl

of_name-stream : (c : StreamCommand) → of_name (name (stream c)) ≡ stream c
unfolding of_name name
of_name-stream StreamCommand.create = refl
of_name-stream _ = refl

of_name-transaction : (c : TransactionCommand) → of_name (name (transaction c)) ≡ transaction c
unfolding of_name name
of_name-transaction TransactionCommand.multi = refl
of_name-transaction _ = refl

of_name-pubsub : (c : PubsubCommand) → of_name (name (pubsub c)) ≡ pubsub c
unfolding of_name name
of_name-pubsub PubsubCommand.publish = refl
of_name-pubsub _ = refl

of_name-utility : (c : UtilityCommand) → of_name (name (utility c)) ≡ utility c
unfolding of_name name
of_name-utility UtilityCommand.dbsize = refl
of_name-utility _ = refl

-- Every command's own name selects its case of the switch, whatever other labels there are.
pub of_name-name : (c : Command) → of_name (name c) ≡ c
of_name-name (kv c) = of_name-kv c
of_name-name (hash c) = of_name-hash c
of_name-name (list c) = of_name-list c
of_name-name (set c) = of_name-set c
of_name-name (queue c) = of_name-queue c
of_name-name (stream c) = of_name-stream c
of_name-name (transaction c) = of_name-transaction c
of_name-name (pubsub c) = of_name-pubsub c
of_name-name (utility c) = of_name-utility c
of_name-name unknown = unfold of_name name in refl

abbrev pub controls_transaction : Command → Bool
controls_transaction (transaction c) = true
controls_transaction _ = false

is_transaction-kv : (c : KvCommand) → is_transaction (name (kv c)) ≡ false
unfolding is_transaction name
is_transaction-kv KvCommand.set = refl
is_transaction-kv _ = refl

is_transaction-hash : (c : HashCommand) → is_transaction (name (hash c)) ≡ false
unfolding is_transaction name
is_transaction-hash HashCommand.set = refl
is_transaction-hash _ = refl

is_transaction-list : (c : ListCommand) → is_transaction (name (list c)) ≡ false
unfolding is_transaction name
is_transaction-list ListCommand.lpush = refl
is_transaction-list _ = refl

is_transaction-set : (c : SetCommand) → is_transaction (name (set c)) ≡ false
unfolding is_transaction name
is_transaction-set SetCommand.add = refl
is_transaction-set _ = refl

is_transaction-queue : (c : QueueCommand) → is_transaction (name (queue c)) ≡ false
unfolding is_transaction name
is_transaction-queue QueueCommand.create = refl
is_transaction-queue _ = refl

is_transaction-stream : (c : StreamCommand) → is_transaction (name (stream c)) ≡ false
unfolding is_transaction name
is_transaction-stream StreamCommand.create = refl
is_transaction-stream _ = refl

is_transaction-transaction : (c : TransactionCommand) → is_transaction (name (transaction c)) ≡ true
unfolding is_transaction name
is_transaction-transaction TransactionCommand.multi = refl
is_transaction-transaction _ = refl

is_transaction-pubsub : (c : PubsubCommand) → is_transaction (name (pubsub c)) ≡ false
unfolding is_transaction name
is_transaction-pubsub PubsubCommand.publish = refl
is_transaction-pubsub _ = refl

is_transaction-utility : (c : UtilityCommand) → is_transaction (name (utility c)) ≡ false
unfolding is_transaction name
is_transaction-utility UtilityCommand.dbsize = refl
is_transaction-utility _ = refl

-- The names with the prefix "transaction." are those of the transaction commands.
pub is_transaction-name : (c : Command) → is_transaction (name c) ≡ controls_transaction c
is_transaction-name (kv c) = is_transaction-kv c
is_transaction-name (hash c) = is_transaction-hash c
is_transaction-name (list c) = is_transaction-list c
is_transaction-name (set c) = is_transaction-set c
is_transaction-name (queue c) = is_transaction-queue c
is_transaction-name (stream c) = is_transaction-stream c
is_transaction-name (transaction c) = is_transaction-transaction c
is_transaction-name (pubsub c) = is_transaction-pubsub c
is_transaction-name (utility c) = is_transaction-utility c
is_transaction-name unknown = unfold is_transaction name in refl
