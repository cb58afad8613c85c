-- ===== src/Interop.antt =====
-- cmd/interop/main.go: four steps on a server, a line for each, and the exit code.
pub mod Verdicts
pub mod Passes
use synap_sdk_go.Prelude.{
  ℕ, suc, ltb, Bool, true, false, Option, none, some, List, [], ◌∷◌, ◌++◌, ℤ, pos, if◌then◌else◌,
  String,
}
use synap_sdk_go.Bytes.{Bytes, codes, bytes_eq}
use synap_sdk_go.Bytes.Decimal.{parse_int, format_int}
use synap_sdk_go.Errors.{Error, Result, ok, err, error_text}
use synap_sdk_go.Payload.{string}
use synap_sdk_go.Resp3.Outcome.{Outcome, value, error}
use synap_sdk_go.Client.Calls.{Call, ◌>>=◌, pure}
use synap_sdk_go.Client.Http.{World, Client, hex}
use synap_sdk_go.Config.{Config, new_config, with_basic_auth, with_timeout, new_client}
use synap_sdk_go.Managers.{text_of}
use synap_sdk_go.Managers.KvStore.{kv_set, kv_get, kv_exists, kv_incr}
use synap_sdk_go.Managers.PubSubManager.{pubsub_publish}

-- 0xDE, 0xAD, 0xBE, 0xEF
abbrev pub binary : Bytes
binary = 222 ∷ 173 ∷ 190 ∷ 239 ∷ []

abbrev pub topic : Bytes
topic = codes "interop.go"

-- Standard output, a text for each Printf, and the global `failures`.
pub record Report : Type 0 where
  pub output : List Bytes
  pub failures : ℕ

abbrev pub no_report : Report
no_report = record { output = []; failures = 0 }

-- "STEP %s %s %s\n"
abbrev pub line : (step : Bytes) (passed : Bool) (detail : Bytes) → Bytes
line step passed detail =
    codes "STEP "
    ++ (step
        ++ (codes " "
            ++ ((if passed then codes "PASS" else codes "FAIL")
                ++ (codes " " ++ (detail ++ codes "\n")))))

unfoldable pub reported : String → Bool → Bytes → Report → Report
reported step passed detail r = record {
  output = r.output ++ line (codes step) passed detail ∷ [];
  failures = if passed then r.failures else suc r.failures;
}

abbrev bool_text : Bool → Bytes
bool_text true = codes "true"
bool_text false = codes "false"

-- `if failures > 0 { os.Exit(1) }`
abbrev pub exit_code : ℕ → ℕ
exit_code n = if ltb 0 n then 1 else 0

abbrev is_ok : {A : Type 0} → Result A → Bool
is_ok (ok a) = true
is_ok (err e) = false

module _ {S : Type 0} where
  -- The two results of a call of the SDK, of which the program looks at err.
  abbrev pub settle : {A : Type 0} → Outcome A × S → Report → Outcome (Result A) × (S × Report)
  settle (value a, s) r = (value (ok a), (s, r))
  settle (error e, s) r = (value (err e), (s, r))
  settle (Outcome.panic, s) r = (Outcome.panic, (s, r))
  settle (Outcome.out_of_fuel, s) r = (Outcome.out_of_fuel, (s, r))

  abbrev pub attempt : {A : Type 0} → Call S A → Call (S × Report) (Result A)
  attempt call (s, r) = settle (call s) r

  abbrev pub report : String → Bool → Bytes → Call (S × Report) Unit
  report step passed detail (s, r) = (value tt, (s, reported step passed detail r))

  abbrev pub failures : Call (S × Report) ℕ
  failures (s, r) = (value r.failures, (s, r))

  unfoldable pub auth_verdict : Result Bool → Call (S × Report) Unit
  unfolding error_text
  auth_verdict (err e) = report "auth" false (text_of e)
  auth_verdict (ok found) =
      report "auth" true (codes "EXISTS accepted on an authenticated connection")

  unfoldable pub binary_verdict : Result Bytes → Call (S × Report) Unit
  unfolding error_text bytes_eq hex
  binary_verdict (err e) = report "kv_binary" false (codes "GET: " ++ text_of e)
  binary_verdict (ok got) =
      report "kv_binary" (bytes_eq got binary) (hex binary ++ (codes " -> " ++ hex got))

  unfoldable pub publish_verdict : Result ℤ → Call (S × Report) Unit
  unfolding error_text
  publish_verdict (err e) = report "pubsub" false (codes "PUBLISH: " ++ text_of e)
  publish_verdict (ok n) = report "pubsub" true (codes "PUBLISH accepted")

  unfoldable pub alive_verdict : Error → Result Bool → Call (S × Report) Unit
  unfolding error_text
  alive_verdict e found =
      report "error" (is_ok found)
        (text_of e ++ (codes "; connection alive=" ++ bool_text (is_ok found)))

  module _ (w : World S) (c : Client) where
    unfoldable pub auth_step : Call (S × Report) Unit
    unfolding kv_exists auth_verdict
    auth_step = do found ← attempt (kv_exists w c (codes "interop:go:probe")); auth_verdict found

    unfoldable pub binary_read : Result {0} Unit → Call (S × Report) Unit
    unfolding error_text kv_get binary_verdict
    binary_read (err e) = report "kv_binary" false (codes "SET: " ++ text_of e)
    binary_read (ok done) = do
      got ← attempt (kv_get w c (codes "interop:go:bin"))
      binary_verdict got

    unfoldable pub binary_step : Call (S × Report) Unit
    unfolding kv_set binary_read
    binary_step = do
      done ← attempt (kv_set w c (codes "interop:go:bin") binary (pos 0))
      binary_read done

    unfoldable pub publish_step : Call (S × Report) Unit
    unfolding pubsub_publish publish_verdict
    publish_step = do
      n ← attempt (pubsub_publish w c topic (string (codes "interop-payload")) 0)
      publish_verdict n

    unfoldable pub error_probe : Result ℤ → Call (S × Report) Unit
    unfolding kv_exists alive_verdict
    error_probe (ok n) =
        report "error" false (codes "expected an error from INCR on a non-numeric value")
    error_probe (err e) = do
      found ← attempt (kv_exists w c (codes "interop:go:str"))
      alive_verdict e found

    unfoldable pub error_incr : Result {0} Unit → Call (S × Report) Unit
    unfolding error_text kv_incr error_probe
    error_incr (err e) = report "error" false (codes "setup SET: " ++ text_of e)
    error_incr (ok done) = do n ← attempt (kv_incr w c (codes "interop:go:str")); error_probe n

    unfoldable pub error_step : Call (S × Report) Unit
    unfolding kv_set error_incr
    error_step = do
      done ← attempt (kv_set w c (codes "interop:go:str") (codes "not-a-number") (pos 0))
      error_incr done

    unfoldable pub run_steps : Call (S × Report) ℕ
    unfolding auth_step binary_step publish_step error_step
    run_steps = do
      a ← auth_step
      b ← binary_step
      p ← publish_step
      e ← error_step
      n ← failures
      pure (exit_code n)

-- synap.NewConfig(fmt.Sprintf("synap://%s:%d", host, port)) and the settings behind it
unfoldable pub config_of : (host : Bytes) (port : ℤ) (user pass : Bytes) → Config
unfolding new_config with_basic_auth with_timeout format_int
config_of host port user pass =
    with_timeout (pos 15000000000) (
      with_basic_auth user pass (new_config (codes "synap://" ++ (host ++ b':' ∷ format_int port))))

module _ {S : Type 0} (w : World S) where
  abbrev run_on : (host : Bytes) → Option ℤ → (user pass : Bytes) → Call (S × Report) ℕ
  unfolding run_steps new_client config_of
  run_on host none user pass = pure 2
  run_on host (some port) user pass = run_steps w (new_client (config_of host port user pass))

  -- os.Args, the name of the program first; what comes out is the exit code.
  unfoldable pub main : List Bytes → Call (S × Report) ℕ
  unfolding run_on parse_int
  main (program ∷ host ∷ port ∷ user ∷ pass ∷ rest) = run_on host (parse_int port) user pass
  main args = λ s. (Outcome.panic, s)
