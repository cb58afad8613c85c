-- ===== src/Lib.antt =====
-- The Go client SDK of the Synap server.
--
-- A call of the SDK names a command ("kv.set") and hands over a payload map. client.go maps it to
-- a wire command with arguments (mapCommandToWire), a transport sends it and reads the reply, and
-- client.go maps the reply to the shape that the caller decodes (mapResponseFromWire).
--
-- Files, by the code that they are about:
--   Prelude, Bytes: numbers, int64, byte strings, and strconv in base ten (Bytes/Decimal).
--   Value: the dynamic values of interface{}; Value/Maps: Go maps as association lists, whose order
--     is one that Go might iterate in; Value/Text: fmt.Sprintf("%v") and the record Runtime.
--   Errors (errors.go): SynapError and results.
--   Command: the switch labels of mapCommandToWire, a data type for each family; Command/Names: the
--     names; Command/Payload: getStr, getFloat, getStrSlice, counterAmount; Command/Wire: the cases of
--     the switch; Command/Route: mapCommandToWire with the TXQUEUE wrapper; Command/Reply:
--     mapResponseFromWire.
--   Resp3 (transport_resp3.go): Resp3/Frame: buildMultibulk; Resp3/Reader: readLine, readFull,
--     readResponse; Resp3/Connection: doConnect, Execute and Close. Resp3/Protocol describes the
--     replies of a server independently of the reader.
--   Response (response.go): Decode, IsNull and Raw; Response/Shapes: the types that replies are decoded
--     into; Response/Assign: assign, with RoundTrip, on the value of typed data, and Items.
--   Payload (payload.go): payloads as reflection sees them, and payloadToMap, with Laws and Sent on
--     what it makes of a struct; Payload/Tags: jsonFieldName.
--   Client (client.go): sendCommand, sendRPC, sendRESP3 and normalizeInts; Client/Http: sendHTTP with
--     withClientID (Splice), newRequestID and applyAuth, and its answers (Answers);
--     Client/Calls: the monad of the client's calls; Client/Runs: programs that make one call after
--     the other.
--   Managers (kv.go, hash.go, list.go, set.go, queue.go, stream.go, pubsub.go): a file for each
--     manager; Managers/Types (types.go): the records of replies; over SynapRPC, Managers/Rpc:
--     what the methods of HashManager do; Managers/Keys: KVStore on a server that keeps a map
--     (Refinement), through the SynapRPC transport (Wired), and over RESP3 down to the bytes on
--     the connection (Framed); Managers/Queue: QueueManager on a server that keeps a queue
--     (Refinement); Managers/Stream: StreamManager on a server that keeps a log (Refinement);
--     Managers/Publish: what Publish of a queue sends; Managers/Flags: the methods that return a
--     flag; Managers/Expiry: times to live; Managers/Settles: how the calls end.
--   Transaction (transaction.go): TransactionManager and Tx; Transaction/Scope: the commands of the
--     client of a scope, Transaction/Outside: those of any other; Transaction/Control: the commands that
--     control a transaction; Transaction/Atomic: a whole transaction beside calls outside of it, the
--     promise and the calls, with Queued, the calls of a Tx one by one, and Refinement.
--   Config (client.go): NewConfig, parseHostPort, WithAuth, WithBasicAuth, WithTimeout and NewClient;
--     Config/Address: URLs; Config/Auth: credentials.
--   Rpc (transport_rpc.go): Rpc/Utf8: utf8.ValidString; Rpc/Values: toWire and fromWire, with Ends and
--     RoundTrip; Rpc/Transport: newSynapRpcTransport, withCredentials, dial, ensureConnected, Execute
--     and Close, with Execute on how it ends, Course on the clients that it uses and Once on what it
--     sends; Rpc/Push: SubscribePush and WatchPush, with Opening on the order of their steps;
--     Rpc/Goroutines: goroutines that share one transport, as steps in any order.
--   Subscriptions (pubsub.go, kv.go): the channel between the hook of a push connection and its
--     consumer; Subscriptions/Observe: PubSubManager.Observe and KVStore.Watch; Frames, Order and
--     Drops: what the consumer gets.
--   Interop (cmd/interop/main.go): the program, with its four steps; Interop/Verdicts: what it prints and
--     its exit code; Interop/Passes: the program on a server that does what it tests.
--   Tests: runs on concrete inputs and an instance of each theorem.
--
-- Conventions. A Go string is the list of its bytes. int is 64 bits wide. A float64 is its bit
-- pattern; its arithmetic, its text and encoding/json are the fields of Runtime, on which only the
-- laws that a theorem names are assumed. A run-time panic is an outcome. Where fmt.Errorf quotes
-- or wraps, the text of the error is modelled without that part.
--
-- readResponse recurs on fuel, which bounds how deep arrays, maps and sets are nested: each level
-- takes a byte of input, so that one more than the length of the input is enough. Allocations
-- succeed, whatever length a reply announces.
--
-- A connection is the number of writes that it will still accept and the bytes that it will still
-- deliver in time for the call that reads them; net.DialTimeout is a function of the number of
-- dials before. The mutex of the transport makes calls of Execute a sequence. Deadlines show only
-- in the bytes that arrive.
--
-- World is the interface between the client and what it sends through: Execute of the two native
-- transports, HTTP, encoding/json and random bytes, as calls that change a state. The tests fill
-- it with servers that keep a map, a queue or a log, and with the SynapRPC transport. A payload and a
-- target of decoding are given by what reflection sees of them: Reflected, with the names of the
-- tags, and Shape.
--
-- The record Thunder is the interface to the values of github.com/hivellm/thunder-go/wire: how
-- they are made, and a view that takes them apart; IsLawful says that these agree and that values
-- are finite trees. fromWire recurs on fuel, which bounds their depth: one more than the depth is
-- enough. Thunder's clients are numbers in the order of the dials. Network answers
-- thunder.Connect, IsAlive and Call by what was done before, so that a client may die at any time;
-- its settings from synapConfig are a part of it. The log of the clients, the newest entry first,
-- says which are open.
--
-- A push subscription is a stream: the channel, the once of its shutdown, and what was sent and
-- received. The runs of the hook, the receives of the consumer and the shutdowns are steps in any
-- order. Whether Thunder still runs a hook after Close is left open, and a run after it panics.
--
-- Not modelled: the inside of Thunder, changes of a Config after NewClient, what cmd/interop
-- writes to standard error, and examples/basic, which only calls the SDK.
pub mod Prelude
pub mod Bytes
pub mod Value
pub mod Errors
pub mod Command
pub mod Resp3
pub mod Response
pub mod Payload
pub mod Client
pub mod Managers
pub mod Transaction
pub mod Rpc
pub mod Subscriptions
pub mod Interop
pub mod Config
mod Tests
