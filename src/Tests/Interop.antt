-- ===== src/Tests/Interop.antt =====
-- Runs of the interop program.
use synap_sdk_go.Prelude.{◌≡◌, refl, Bool, true, ◌&&◌, ◌++◌, List, [], ◌∷◌, pos, if◌then◌else◌}
use synap_sdk_go.Bytes.{Bytes, codes, bytes_eq}
use synap_sdk_go.Bytes.Decimal.{parse_int}
use synap_sdk_go.Value.{Value, int64}
use synap_sdk_go.Errors.{SynapError, synap, server_error, error_text}
use synap_sdk_go.Resp3.Outcome.{Outcome, value, error}
use synap_sdk_go.Client.Calls.{Call}
use synap_sdk_go.Rpc.Transport.{Session}
use synap_sdk_go.Config.{new_rpc}
use synap_sdk_go.Config.Auth.{user, credentials_for}
use synap_sdk_go.Managers.Keys.{Contents}
use synap_sdk_go.Interop.{Report, no_report, line, reported, config_of, main}
use synap_sdk_go.Interop.Verdicts.{main-reports}
use synap_sdk_go.Interop.Passes.{Serves, main-passes}
use package.synap_sdk_go.Tests.Sample.{world_of}
use package.synap_sdk_go.Tests.Keys.{keep, nothing}
use package.synap_sdk_go.Tests.Wire.{trees_wire, trees_wire-IsLawful}
use package.synap_sdk_go.Tests.Wired.{binary_network, world, connected}

-- Three subscribers, and no number to increment.
abbrev serve : Bytes → List Value → Call Contents Value
unfolding bytes_eq
serve cmd args s =
    if bytes_eq cmd (codes "PUBLISH")
    then (value (int64 (pos 3)), s)
    else if bytes_eq cmd (codes "INCR")
    then (error (synap (server_error (codes "not an integer"))), s)
    else keep cmd args s

serve-Serves : Serves serve (λ s. s)
unfolding serve keep
serve-Serves = record {
  keys = record {
    on_set = λ key t s. (_, _, refl, λ j. refl);
    on_get = λ key s. (_, refl, λ j. refl);
    on_delete = λ key s. (_, refl, λ j. refl);
    on_exists = λ key s. (_, refl, λ j. refl);
  };
  on_publish = λ topic text s. (_, _, refl);
  on_incr = λ key t s h k. (_, _, refl);
}

abbrev arguments : Bytes → List Bytes
arguments port = codes "interop" ∷ codes "db" ∷ port ∷ codes "u" ∷ codes "p" ∷ []

main-passes_example :
    (u : Contents) × (r : Report) × (x : SynapError) × (main
        (world_of serve)
        (codes "interop" ∷ codes "db" ∷ codes "15501" ∷ codes "u" ∷ codes "p" ∷ [])
        (nothing, no_report)
      ≡ (value 0, (u, r)))
    × (r.output
        ≡ line (codes "auth") true (codes "EXISTS accepted on an authenticated connection")
          ∷ line (codes "kv_binary") true (codes "deadbeef -> deadbeef")
          ∷ line (codes "pubsub") true (codes "PUBLISH accepted")
          ∷ line (codes "error") true (error_text x ++ codes "; connection alive=true")
          ∷ [])
unfolding parse_int
main-passes_example =
    main-passes (world_of serve) refl (λ s. s) serve-Serves (codes "interop") (codes "db")
      (codes "15501") (codes "u") (codes "p") [] (pos 15501) nothing refl

main-reports_example :
    (u : Session trees_wire) × (r : Report) × (a b p e : Bool) × (da db dp de : Bytes) × (main world
        (codes "interop" ∷ codes "db" ∷ codes "15501" ∷ codes "u" ∷ codes "p" ∷ [])
        (connected, no_report)
      ≡ (value (if a && (b && (p && e)) then 0 else 1), (u, r)))
    × (r.output
        ≡ line (codes "auth") a da
          ∷ line (codes "kv_binary") b db
          ∷ line (codes "pubsub") p dp
          ∷ line (codes "error") e de
          ∷ [])
unfolding world parse_int
main-reports_example =
    main-reports trees_wire binary_network trees_wire-IsLawful world refl (codes "interop")
      (codes "db") (codes "15501") (codes "u") (codes "p") [] (pos 15501) connected refl

-- The transport that the program connects with.
dialled :
    (let t = new_rpc trees_wire (config_of (codes "db") (pos 15501) (codes "u") (codes "p")) in
      (t.endpoint ≡ codes "synap://db:15501")
      × (t.config.credentials ≡ credentials_for (user (codes "u") (codes "p")))
      × (t.config.connect_timeout ≡ pos 15000000000)
      × (t.config.call_timeout ≡ pos 15000000000))
unfolding new_rpc config_of
dialled = (refl, refl, refl, refl)

-- A server that gives back other bytes than were set, and one that increments any text.
abbrev corrupt : Bytes → List Value → Call Contents Value
unfolding serve
corrupt cmd args s =
    if bytes_eq cmd (codes "GET") then (value (Value.str (codes "x")), s) else serve cmd args s

abbrev lenient : Bytes → List Value → Call Contents Value
unfolding serve
lenient cmd args s =
    if bytes_eq cmd (codes "INCR") then (value (int64 (pos 1)), s) else serve cmd args s

corrupt_fails : (main (world_of corrupt) (arguments (codes "1")) (nothing, no_report)).0 ≡ value 1
unfolding main corrupt reported keep
corrupt_fails = refl

lenient_fails : (main (world_of lenient) (arguments (codes "1")) (nothing, no_report)).0 ≡ value 1
unfolding main lenient reported keep
lenient_fails = refl

-- A port that is no integer, and too few arguments.
bad_port : (main (world_of serve) (arguments (codes "1x")) (nothing, no_report)).0 ≡ value 2
unfolding main
bad_port = refl

no_arguments : (main (world_of serve) [] (nothing, no_report)).0 ≡ Outcome.panic
unfolding main
no_arguments = refl
