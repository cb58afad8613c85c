-- ===== src/Interop/Verdicts.antt =====
-- The lines that the interop program prints, and its exit code.
use synap_sdk_go.Prelude.{
  ◌≡◌, refl, Bool, true, ◌&&◌, suc, ℤ, pos, some, List, [], ◌∷◌, String, arith, inl, inr,
  if◌then◌else◌,
}
use synap_sdk_go.Bytes.{Bytes, codes}
use synap_sdk_go.Bytes.Decimal.{parse_int}
use synap_sdk_go.Value.{Value}
use synap_sdk_go.Errors.{Error, Result, ok, err}
use synap_sdk_go.Payload.{string}
use synap_sdk_go.Resp3.Outcome.{Outcome, value, error}
use synap_sdk_go.Command.{synap_rpc}
use synap_sdk_go.Client.Calls.{Call, continue, ◌>>=◌}
use synap_sdk_go.Client.Http.{World, Client}
use synap_sdk_go.Config.{new_config, new_client, with_basic_auth, with_timeout}
use synap_sdk_go.Managers.KvStore.{kv_set, kv_get, kv_exists, kv_incr}
use synap_sdk_go.Managers.PubSubManager.{pubsub_publish}
use synap_sdk_go.Managers.Settles.{
  is_settled, Settles, kv_set-Settles, kv_get-Settles, kv_exists-Settles, kv_incr-Settles,
  pubsub_publish-Settles,
}
use synap_sdk_go.Rpc.Values.{Thunder, IsLawful}
use synap_sdk_go.Rpc.Transport.{Session, Network, execute}
use synap_sdk_go.Rpc.Transport.Execute.{EndsWell, execute-EndsWell}
use package.synap_sdk_go.Interop.{
  binary, topic, Report, no_report, line, reported, settle, attempt, report, exit_code,
  auth_verdict, auth_step, binary_verdict, binary_read, binary_step, publish_verdict, publish_step,
  alive_verdict, error_probe, error_incr, error_step, run_steps, config_of, main,
}

-- A part of the program that prints exactly one line, of a step.
abbrev Reports : {S : Type 0} → String → Call (S × Report) Unit → Type 0
Reports {S = S} step m =
    (s : S) (r : Report)
    → (u : S) × (passed : Bool) × (detail : Bytes) × (m (s, r)
        ≡ (value tt, (u, reported step passed detail r)))

-- The exit code is 0 just where every step passed.
exit_code-all :
    (a b p e : Bool)
    → exit_code (
        let n = if a then 0 else 1 in
        let n = if b then n else suc n in let n = if p then n else suc n in if e then n else suc n)
      ≡ (if a && (b && (p && e)) then 0 else 1)
exit_code-all a b p e = ground arith

abbrev lines : (a b p e : Bool) (da db dp de : Bytes) → List Bytes
lines a b p e da db dp de =
    line (codes "auth") a da
    ∷ line (codes "kv_binary") b db
    ∷ line (codes "pubsub") p dp
    ∷ line (codes "error") e de
    ∷ []

module _ {S : Type 0} where
  settled-Reports :
      {A : Type 0} (step : String) (o : Outcome A) (u : S) (r : Report)
      (k : Result A → Call (S × Report) Unit)
      → is_settled o ≡ true
      → ((x : Result A) → Reports step (k x))
      → (u' : S) × (passed : Bool) × (detail : Bytes) × ((let (q, t) = settle (o, u) r in
            continue q t k)
          ≡ (value tt, (u', reported step passed detail r)))
  unfolding is_settled
  settled-Reports step (value a) u r k h f = f (ok a) u r
  settled-Reports step (error e) u r k h f = f (err e) u r
  settled-Reports step Outcome.panic u r k h f = cc
  settled-Reports step Outcome.out_of_fuel u r k h f = cc

  attempt-Reports :
      {A : Type 0} (step : String) (call : Call S A) (k : Result A → Call (S × Report) Unit)
      → Settles call
      → ((x : Result A) → Reports step (k x))
      → Reports step (attempt call >>= k)
  attempt-Reports step call k h f s r = settled-Reports step (call s).0 (call s).1 r k (h s) f

  report-Reports :
      (step : String) (passed : Bool) (detail : Bytes)
      → Reports {S = S} step (report step passed detail)
  report-Reports step passed detail s r = (s, passed, detail, refl)

  auth_verdict-Reports : (x : Result Bool) → Reports {S = S} "auth" (auth_verdict x)
  unfolding auth_verdict
  auth_verdict-Reports (ok b) = report-Reports _ _ _
  auth_verdict-Reports (err e) = report-Reports _ _ _

  binary_verdict-Reports : (x : Result Bytes) → Reports {S = S} "kv_binary" (binary_verdict x)
  unfolding binary_verdict
  binary_verdict-Reports (ok got) = report-Reports _ _ _
  binary_verdict-Reports (err e) = report-Reports _ _ _

  publish_verdict-Reports : (x : Result ℤ) → Reports {S = S} "pubsub" (publish_verdict x)
  unfolding publish_verdict
  publish_verdict-Reports (ok n) = report-Reports _ _ _
  publish_verdict-Reports (err e) = report-Reports _ _ _

  alive_verdict-Reports :
      (e : Error) (x : Result Bool) → Reports {S = S} "error" (alive_verdict e x)
  unfolding alive_verdict
  alive_verdict-Reports e x = report-Reports _ _ _

  module _ (w : World S) (c : Client) (rpc : c.transport ≡ synap_rpc)
      (ends : (cmd : Bytes) (args : List Value) → Settles (w.rpc cmd args)) where
    auth_step-Reports : Reports "auth" (auth_step w c)
    unfolding auth_step auth_verdict
    auth_step-Reports =
        attempt-Reports "auth" (kv_exists w c (codes "interop:go:probe")) auth_verdict
          (kv_exists-Settles w c rpc ends _) auth_verdict-Reports

    binary_read-Reports : (x : Result {0} Unit) → Reports "kv_binary" (binary_read w c x)
    unfolding binary_read binary_verdict
    binary_read-Reports (err e) = report-Reports _ _ _
    binary_read-Reports (ok u) =
        attempt-Reports "kv_binary" (kv_get w c (codes "interop:go:bin")) binary_verdict
          (kv_get-Settles w c rpc ends _) binary_verdict-Reports

    binary_step-Reports : Reports "kv_binary" (binary_step w c)
    unfolding binary_step
    binary_step-Reports =
        attempt-Reports "kv_binary" (kv_set w c (codes "interop:go:bin") binary (pos 0))
          (binary_read w c) (kv_set-Settles w c rpc ends _ _ (pos 0)) binary_read-Reports

    publish_step-Reports : Reports "pubsub" (publish_step w c)
    unfolding publish_step publish_verdict
    publish_step-Reports =
        attempt-Reports "pubsub" (pubsub_publish w c topic (string (codes "interop-payload")) 0)
          publish_verdict (pubsub_publish-Settles w c rpc ends _ _ _) publish_verdict-Reports

    error_probe-Reports : (x : Result ℤ) → Reports "error" (error_probe w c x)
    unfolding error_probe alive_verdict
    error_probe-Reports (ok n) = report-Reports _ _ _
    error_probe-Reports (err e) =
        attempt-Reports "error" (kv_exists w c (codes "interop:go:str")) (alive_verdict e)
          (kv_exists-Settles w c rpc ends _) (alive_verdict-Reports e)

    error_incr-Reports : (x : Result {0} Unit) → Reports "error" (error_incr w c x)
    unfolding error_incr
    error_incr-Reports (err e) = report-Reports _ _ _
    error_incr-Reports (ok u) =
        attempt-Reports "error" (kv_incr w c (codes "interop:go:str")) (error_probe w c)
          (kv_incr-Settles w c rpc ends _) error_probe-Reports

    error_step-Reports : Reports "error" (error_step w c)
    unfolding error_step
    error_step-Reports =
        attempt-Reports "error" (kv_set w c (codes "interop:go:str") (codes "not-a-number") (pos 0))
          (error_incr w c) (kv_set-Settles w c rpc ends _ _ (pos 0)) error_incr-Reports

    run_steps-Reports :
        (s : S)
        → (u : S) × (r : Report) × (a b p e : Bool) × (da db dp de : Bytes) × (run_steps w c
              (s, no_report)
            ≡ (value (if a && (b && (p && e)) then 0 else 1), (u, r)))
          × (r.output ≡ lines a b p e da db dp de)
    unfolding run_steps reported
    run_steps-Reports s =
        let (s1, a, da, ha) = auth_step-Reports s no_report in
        let r1 = reported "auth" a da no_report in
        let (s2, b, db, hb) = binary_step-Reports s1 r1 in
        let r2 = reported "kv_binary" b db r1 in
        let (s3, p, dp, hp) = publish_step-Reports s2 r2 in
        let r3 = reported "pubsub" p dp r2 in
        let (s4, e, de, he) = error_step-Reports s3 r3 in
        let r4 = reported "error" e de r3 in
        (s4, r4, a, b, p, e, da, db, dp, de, rw (ha, hb, hp, he, exit_code-all a b p e), refl)

module _ (T : Thunder) (net : Network T) (law : IsLawful T) (w : World (Session T))
    (over : w.rpc ≡ execute T net w.rt) where
  EndsWell-settled : (o : Outcome Value) → EndsWell T net o → is_settled o ≡ true
  unfolding is_settled
  EndsWell-settled o (inl (v, e)) = rw e
  EndsWell-settled o (inr (text, e)) = rw e

  execute-Settles : (cmd : Bytes) (args : List Value) → Settles (w.rpc cmd args)
  execute-Settles cmd args t = rw over (
      EndsWell-settled (execute T net w.rt cmd args t).0
        (execute-EndsWell T net w.rt cmd args t law))

  -- Through the SynapRPC transport, whatever the network does, the interop program comes to its end:
  -- given four arguments of which the second is an integer, it prints exactly one line for each of
  -- the steps auth, kv_binary, pubsub and error, in this order, each with PASS or FAIL, and exits with
  -- 0 if all four passed and with 1 otherwise.
  pub main-reports :
      (program host port_text user pass : Bytes) (more : List Bytes) (port : ℤ) (s : Session T)
      → parse_int port_text ≡ some port
      → (u : Session T) × (r : Report) × (a b p e : Bool) × (da db dp de : Bytes) × (main w
            (program ∷ host ∷ port_text ∷ user ∷ pass ∷ more)
            (s, no_report)
          ≡ (value (if a && (b && (p && e)) then 0 else 1), (u, r)))
        × (r.output
            ≡ line (codes "auth") a da
              ∷ line (codes "kv_binary") b db
              ∷ line (codes "pubsub") p dp
              ∷ line (codes "error") e de
              ∷ [])
  unfolding main
  main-reports program host port_text user pass more port s h = rw h (
      run_steps-Reports w (new_client (config_of host port user pass))
        (unfold new_client config_of new_config with_basic_auth with_timeout in refl)
        execute-Settles s)
