-- ===== src/Tests/Rpc.antt =====
-- The values and the transport of SynapRPC over a wire of trees.
use synap_sdk_go.Prelude.{◌≡◌, refl, ◌||◌, ◌&&◌, true, false, Option, some, [], ◌∷◌, pos, map}
use synap_sdk_go.Bytes.{Bytes, codes}
use synap_sdk_go.Value.{
  Value, nil, int, int64, uint64, str, arr, dict, no_values, item, no_entries, entry,
}
use synap_sdk_go.Resp3.Outcome.{Outcome, value}
use synap_sdk_go.Rpc.Utf8.{is_utf8}
use synap_sdk_go.Rpc.Values.{to_wire, from_wire}
use synap_sdk_go.Rpc.Values.RoundTrip.{read_back, IsSendable, from_wire-to_wire}
use synap_sdk_go.Rpc.Transport.{
  Session, new_transport, execute, ensure_connected, dial, dialled, called, closed, hooked,
}
use synap_sdk_go.Rpc.Transport.Balance.{is_open, is_held, has}
use synap_sdk_go.Rpc.Transport.Execute.{EndsWell, execute-EndsWell}
use synap_sdk_go.Rpc.Transport.Course.{Course, execute-Course}
use synap_sdk_go.Rpc.Transport.Once.{IsAnswer, execute-answered}
use synap_sdk_go.Rpc.Push.Opening.{Opening, open_push-Opening}
use synap_sdk_go.Rpc.Push.{subscribe_push, watch_args, Subscription, watch_push, cancel_watch}
use synap_sdk_go.Rpc.Goroutines.{System, connect, open_sub, here, next, initial, Reach-open}
use synap_sdk_go.Rpc.Transport.Kept.{subs_with}
use package.synap_sdk_go.Tests.Sample.{integers}
use package.synap_sdk_go.Tests.Wire.{trees_wire, trees_wire-IsLawful, network, answer, string}

-- ASCII, the euro sign, and U+10FFFF; binary data, a surrogate, an overlong slash and a cut character.
valid_texts :
    map is_utf8 (codes "abc" ∷ (226 ∷ 130 ∷ 172 ∷ []) ∷ (244 ∷ 143 ∷ 191 ∷ 191 ∷ []) ∷ [])
    ≡ true ∷ true ∷ true ∷ []
unfolding is_utf8
valid_texts = refl

invalid_texts :
    map is_utf8 (
      (222 ∷ 173 ∷ 190 ∷ 239 ∷ [])
      ∷ (237 ∷ 160 ∷ 128 ∷ [])
      ∷ (192 ∷ 175 ∷ [])
      ∷ (226 ∷ 130 ∷ [])
      ∷ [])
    ≡ false ∷ false ∷ false ∷ false ∷ []
unfolding is_utf8
invalid_texts = refl

-- A map of a binary string, an integer and a list.
abbrev nested : Value
nested = dict (
    entry (codes "a") (str (222 ∷ 173 ∷ [])) (
      entry (codes "b") (arr (item (int (pos 7)) (item nil no_values)))
        (entry (codes "c") (uint64 18446744073709551615) no_entries)))

from_wire-to_wire_example :
    from_wire integers trees_wire (to_wire integers trees_wire nested)
    ≡ some (read_back integers nested)
unfolding trees_wire IsSendable is_utf8
from_wire-to_wire_example =
    from_wire-to_wire integers trees_wire trees_wire-IsLawful nested
      (refl, refl, tt, (refl, refl, (tt, (tt, tt)), (refl, refl, tt, tt)))

abbrev fresh : Session trees_wire
unfolding new_transport
fresh = new_transport trees_wire (codes "h") (pos 15501) (pos 0)

-- The transport after its first command, on client 0.
abbrev held : Session trees_wire
unfolding execute network
held = (execute trees_wire network integers (codes "PING") [] fresh).1

execute-EndsWell_example :
    EndsWell trees_wire network
      (execute trees_wire network integers (codes "GET") (str (codes "k") ∷ []) held).0
execute-EndsWell_example =
    execute-EndsWell trees_wire network integers (codes "GET") (str (codes "k") ∷ []) held
      trees_wire-IsLawful

abbrev answered : Value
answered = arr (item (int64 (pos 7)) (item (str (222 ∷ 173 ∷ [])) no_values))

-- The client that is held is dead by now.
execute-Course_example :
    Course trees_wire network integers
      (codes "GET")
      (str (codes "k") ∷ [])
      held
      (execute trees_wire network integers (codes "GET") (str (codes "k") ∷ []) held)
execute-Course_example =
    execute-Course trees_wire network integers (codes "GET") (str (codes "k") ∷ []) held
      trees_wire-IsLawful

redials :
    (execute trees_wire network integers (codes "GET") [] held).1.log
    ≡ called 1 (codes "GET") [] ∷ dialled 1 true ∷ closed 0 ∷ held.log
unfolding held fresh network trees_wire execute
redials = refl

execute-answered_example :
    IsAnswer trees_wire network integers
      (codes "GET")
      []
      held
      (execute trees_wire network integers (codes "GET") [] held).1
      answered
unfolding held fresh network trees_wire execute answer
execute-answered_example =
    execute-answered trees_wire network integers (codes "GET") [] held answered refl

abbrev start : System trees_wire
unfolding new_transport
start = initial trees_wire network (codes "h") (pos 15501) (pos 0)

abbrev after_connect : System trees_wire → System trees_wire
unfolding ensure_connected network
after_connect s = record s { session = (ensure_connected trees_wire network s.session).1 }

abbrev after_dial : System trees_wire → System trees_wire
unfolding dial network
after_dial s = record {
  session = (dial trees_wire network s.session).1;
  subs = subs_with s.subs (dial trees_wire network s.session);
}

-- A command takes client 0, which is dead; a subscription opens client 1; the next command closes
-- client 0 and dials client 2.
abbrev busy : System trees_wire
unfolding start after_connect after_dial
busy = after_connect (after_dial (after_connect start))

busy_open : map (λ n. is_open n busy.session.log) (0 ∷ 1 ∷ 2 ∷ []) ≡ false ∷ true ∷ true ∷ []
unfolding busy is_open
busy_open = refl

Reach-open_example :
    (is_open 2 busy.session.log ≡ (is_held busy.session.client 2 || has busy.subs 2))
    × ((is_held busy.session.client 2 && has busy.subs 2) ≡ false)
unfolding busy
Reach-open_example =
    Reach-open trees_wire network (codes "h") (pos 15501) (pos 0) 2
      (next (next (next here connect) open_sub) connect)

-- The acknowledgement has the id of the subscriber.
abbrev acknowledged : trees_wire.W → Bytes → Option trees_wire.W
unfolding trees_wire
acknowledged w field = some (string (codes "s1"))

abbrev watched : Outcome Subscription × Session trees_wire
unfolding watch_push network fresh
watched = watch_push trees_wire network acknowledged (codes "u:*") (codes "notify") fresh

watched_as : watched.0 ≡ value (record { subscriber_id = codes "s1"; client = 0 })
unfolding watched acknowledged trees_wire
watched_as = refl

-- The hook is registered before the command is sent, and the cancel sends KV.UNWATCH first.
watch_log :
    (cancel_watch trees_wire network acknowledged
      (record { subscriber_id = codes "s1"; client = 0 })
      watched.1).log
    ≡ closed 0
      ∷ called 0 (codes "KV.UNWATCH") (trees_wire.string (codes "s1") ∷ [])
      ∷ called 0
          (codes "KV.WATCH")
          (trees_wire.string (codes "u:*") ∷ trees_wire.string (codes "notify") ∷ [])
      ∷ hooked 0
      ∷ dialled 0 true
      ∷ []
unfolding watched cancel_watch trees_wire
watch_log = refl

open_push-Opening_example :
    Opening trees_wire network acknowledged
      (codes "SUBSCRIBE")
      (map trees_wire.string (codes "t" ∷ []))
      fresh
      (subscribe_push trees_wire network acknowledged (codes "t" ∷ []) fresh)
    × Opening trees_wire network acknowledged
        (codes "KV.WATCH")
        (watch_args trees_wire network acknowledged (codes "u:*") (codes "notify"))
        fresh
        (watch_push trees_wire network acknowledged (codes "u:*") (codes "notify") fresh)
open_push-Opening_example =
    open_push-Opening trees_wire network acknowledged (codes "t" ∷ []) (codes "u:*")
      (codes "notify") fresh
