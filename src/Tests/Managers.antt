-- ===== src/Tests/Managers.antt =====
-- The managers over a server that keeps one field.
use synap_sdk_go.Prelude.{
  ◌≡◌, refl, ◌<◌, true, false, Option, none, some, List, [], ◌∷◌, pos, ◌⊎◌, arith, ◌^◌,
  if◌then◌else◌,
}
use synap_sdk_go.Bytes.{Bytes, codes, bytes_eq}
use synap_sdk_go.Value.{Value, nil, int64, str, arr, of_list}
use synap_sdk_go.Value.Maps.{lookup}
use synap_sdk_go.Errors.{Error, ok}
use synap_sdk_go.Resp3.Outcome.{Outcome, value, error}
use synap_sdk_go.Command.Names.{is_transaction}
use synap_sdk_go.Command.Wire.{Wire, wire}
use synap_sdk_go.Payload.{
  Keyed, key, no_keys, map, Fields, string, bytes, nil_pointer, struct, no_fields, field,
  payload_to_map,
}
use synap_sdk_go.Payload.Laws.{IsDistinct, IsMap}
use synap_sdk_go.Payload.Sent.{field_of, value_at, Sent, Held, payload_to_map-Sent}
use synap_sdk_go.Response.Shapes.{Shape, El}
use synap_sdk_go.Response.Shapes
use synap_sdk_go.Response.Assign.{assign}
use synap_sdk_go.Response.Assign.RoundTrip.{value_of, Fits, assign-value_of}
use synap_sdk_go.Client.Calls.{◌>>=◌, pure}
use synap_sdk_go.Client.Http.{World}
use synap_sdk_go.Managers.HashManager.{hash_set, hash_del}
use synap_sdk_go.Managers.Rpc.{scoped, reply_of, hash_writes-misread}
use synap_sdk_go.Transaction.{scope, exec, multi, discard, unwatch, watch}
use synap_sdk_go.Transaction.Control.{exec-outcome, controls-sent}
use synap_sdk_go.Transaction.Outside.{IsUnqueued, send_command-IsUnqueued}
use synap_sdk_go.Command.Route.{queued_under}
use synap_sdk_go.Client.{send_command}
use synap_sdk_go.Transaction.Scope.{IsQueued, IsRefused, send_command-scoped}
use package.synap_sdk_go.Tests.Sample.{integers, world_of, plain}

-- A server that keeps one field, answers every other command by OK, and lists the commands.
record Server : Type 0 where
  stored : Option Bytes
  seen : List Bytes

abbrev stored_by : Server → List Value → Option Bytes
stored_by s (k ∷ f ∷ str v ∷ []) = some v
stored_by s args = s.stored

abbrev serve : Bytes → List Value → Server → Outcome Value × Server
unfolding bytes_eq
serve cmd args s = (
  value (if bytes_eq cmd (codes "HGET") then reply_of s.stored else int64 (pos 1)),
  record { stored = stored_by s args; seen = cmd ∷ s.seen },
)

abbrev world : World Server
world = world_of serve

-- Bytes that are not UTF-8.
abbrev binary : Bytes
binary = 222 ∷ 173 ∷ 190 ∷ 239 ∷ []

abbrev empty : Server
empty = record { stored = none; seen = [] }

abbrev filled : Server
filled = record { stored = some binary; seen = [] }

set_runs :
    hash_set world plain (codes "h") (codes "f") binary empty
    ≡ (value false, record { stored = some binary; seen = codes "HSET" ∷ [] })
unfolding hash_set
set_runs = refl

hash_writes-misread_example :
    (hash_set world plain (codes "h") (codes "f") binary filled
      ≡ (let sent = scoped [] (wire "HSET" (str (codes "h") ∷ str (codes "f") ∷ str binary ∷ [])) in
            serve sent.cmd sent.args >>= λ v. pure false)
          filled)
    × (hash_del world plain (codes "h") (codes "f") filled
        ≡ (let sent = scoped [] (wire "HDEL" (str (codes "h") ∷ str (codes "f") ∷ [])) in
              serve sent.cmd sent.args >>= λ v. pure (pos 0))
            filled)
hash_writes-misread_example =
    hash_writes-misread world plain refl (codes "h") (codes "f") binary filled

abbrev payload : Fields
payload =
    field (codes "key") false (string (codes "k"))
      (field (codes "ttl") false nil_pointer (field (codes "value") true (bytes binary) no_fields))

payload-IsDistinct : IsDistinct payload
unfolding IsDistinct
payload-IsDistinct = (refl, (refl, (refl, tt)))

-- A map with a nil pointer under the same name.
abbrev keyed : Keyed
keyed = key (codes "value") nil_pointer (key (codes "other") (string (codes "o")) no_keys)

payload_to_map-Sent_example :
    Sent integers
      (some (true, bytes binary))
      (lookup (codes "value") (payload_to_map integers (struct payload)))
    × Held integers
        (some nil_pointer)
        (lookup (codes "value") (payload_to_map integers (map keyed)))
unfolding field_of value_at IsMap
payload_to_map-Sent_example =
    payload_to_map-Sent integers payload keyed (codes "value") payload-IsDistinct (refl, (refl, tt))

value_sent : lookup (codes "value") (payload_to_map integers (struct payload)) ≡ some (str binary)
unfolding payload_to_map lookup
value_sent = refl

-- A nil pointer is left out also where the tag has no omitempty.
ttl_left_out : lookup (codes "ttl") (payload_to_map integers (struct payload)) ≡ none
unfolding payload_to_map lookup
ttl_left_out = refl

abbrev message : Shape
message = Shape.struct (
    Shapes.Fields.field (codes "id") Shape.string (
      Shapes.Fields.field (codes "payload") Shape.bytes (
        Shapes.Fields.field (codes "priority") (Shape.uint 8) (
          Shapes.Fields.field (codes "deadline") (Shape.ptr (Shape.uint 64))
            Shapes.Fields.no_fields))))

abbrev sent_message : El message
sent_message = (codes "m1", (binary, (200, (none, tt))))

abbrev blank : El message
blank = ([], ([], (0, (some 5, tt))))

small : (200 < 2 ^ 8) × (200 < 2 ^ 63)
small = (omega arith, omega arith)

sent_message-Fits : Fits message sent_message
unfolding Fits
sent_message-Fits = (refl, tt, (refl, tt, (refl, small, (refl, tt, tt))))

assign-value_of_example :
    assign integers message blank (value_of message sent_message) ≡ ok sent_message
assign-value_of_example = assign-value_of integers message blank sent_message sent_message-Fits

send_command-scoped_example :
    ((e : Error) × IsRefused world plain b't'
        (codes "x1")
        (codes "hash.set")
        (struct payload)
        empty
        e)
    ⊎ ((inner : Wire) × IsQueued world plain b't'
          (codes "x1")
          (codes "hash.set")
          (struct payload)
          empty
          inner)
unfolding is_transaction
send_command-scoped_example =
    send_command-scoped world plain b't' (codes "x1") (codes "hash.set") (struct payload) empty refl
      refl

abbrev results : List Value
results = str (codes "OK") ∷ nil ∷ []

abbrev committing : World Server
committing = record world { rpc = λ cmd args s. (value (arr (of_list results)), s) }

exec-outcome_example :
    exec committing (scope plain (codes "tx1")) empty
    ≡ (value (true, (false, (results, tt))), empty)
exec-outcome_example =
    exec-outcome committing plain refl (codes "tx1") (arr (of_list results)) empty empty refl

controls-sent_example :
    (multi world (scope plain (codes "tx1")) empty
      ≡ (serve (codes "MULTI") (str (codes "tx1") ∷ []) >>= λ v. pure tt) empty)
    × (discard world (scope plain (codes "tx1")) empty
        ≡ (serve (codes "DISCARD") (str (codes "tx1") ∷ []) >>= λ v. pure tt) empty)
    × (unwatch world (scope plain (codes "tx1")) empty
        ≡ (serve (codes "UNWATCH") (str (codes "tx1") ∷ []) >>= λ v. pure tt) empty)
    × (watch world (scope plain (codes "tx1")) (codes "k" ∷ []) empty
        ≡ (serve (codes "WATCH") (str (codes "tx1") ∷ str (codes "k") ∷ []) >>= λ v. pure tt) empty)
controls-sent_example = controls-sent world plain refl (codes "tx1") (codes "k") [] empty

send_command-IsUnqueued_example :
    ((e : Error) × (send_command world plain (codes "hash.set") (struct payload) empty
        ≡ (error e, empty)))
    ⊎ ((sent : Wire) × IsUnqueued world plain (codes "hash.set") (struct payload) empty sent)
unfolding queued_under payload_to_map
send_command-IsUnqueued_example =
    send_command-IsUnqueued world plain (codes "hash.set") (struct payload) empty refl refl refl
