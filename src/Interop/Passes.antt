-- ===== src/Interop/Passes.antt =====
-- The interop program on a server that does what it tests.
use synap_sdk_go.Prelude.{◌≡◌, refl, true, false, ℤ, none, some, List, [], ◌∷◌, ◌++◌}
use synap_sdk_go.Bytes.{Bytes, codes, bytes_eq}
use synap_sdk_go.Bytes.Decimal.{parse_int}
use synap_sdk_go.Value.{Value, str, int64}
use synap_sdk_go.Value.Maps.{lookup}
use synap_sdk_go.Value.Text.{sprint}
use synap_sdk_go.Errors.{SynapError, synap, error_text}
use synap_sdk_go.Payload.{Fields, no_fields, string, unsigned}
use synap_sdk_go.Response.{decode}
use synap_sdk_go.Response.Shapes.{Shape}
use synap_sdk_go.Resp3.Outcome.{value, error}
use synap_sdk_go.Command.{synap_rpc}
use synap_sdk_go.Command.Wire.{wire}
use synap_sdk_go.Client.Calls.{Call, pure}
use synap_sdk_go.Client.Http.{World, Client, hex}
use synap_sdk_go.Config.{new_config, new_client, with_basic_auth, with_timeout}
use synap_sdk_go.Managers.{one, with_text, with_field}
use synap_sdk_go.Managers.Rpc.{IsSentAs, ask_then-sent}
use synap_sdk_go.Managers.KvStore.{kv_incr}
use synap_sdk_go.Managers.PubSubManager.{pubsub_publish}
use synap_sdk_go.Managers.Keys.{Contents, KeepsKeys}
use synap_sdk_go.Managers.Keys.Refinement.{kv_set-done, kv_get-found, kv_exists-found}
use package.synap_sdk_go.Interop.{
  binary, topic, Report, no_report, line, reported, auth_verdict, auth_step, binary_verdict,
  binary_read, binary_step, publish_verdict, publish_step, alive_verdict, error_probe, error_incr,
  error_step, run_steps, config_of, main,
}

-- Documented of the server: it keeps a map of keys; it takes what is published and says how many
-- subscribers there are; and it refuses to increment a text that is no integer.
pub record Serves {S : Type 0} (rpc : Bytes → List Value → Call S Value) (contents : S → Contents)
    : Type 0 where
  pub keys : KeepsKeys rpc contents
  pub on_publish :
      (topic text : Bytes) (s : S)
      → (n : ℤ) × (u : S) × (rpc (codes "PUBLISH") (str topic ∷ str text ∷ []) s
          ≡ (value (int64 n), u))
  pub on_incr :
      (key t : Bytes) (s : S)
      → contents s key ≡ some t
      → parse_int t ≡ none
      → (e : SynapError) × (u : S) × (rpc (codes "INCR") (str key ∷ []) s ≡ (error (synap e), u))

abbrev publish_payload : Fields
publish_payload = with_text "topic" topic (
    with_field "payload" (string (codes "interop-payload"))
      (with_field "priority" (unsigned 0) no_fields))

module _ {S : Type 0} (w : World S) (zero_text : w.rt.float_positive 0 ≡ false)
    (contents : S → Contents) (server : Serves w.rpc contents) where
  module _ (c : Client) (rpc : c.transport ≡ synap_rpc) (plain : c.tx_client_id ≡ []) where
    publish_wire :
        IsSentAs w c rpc "pubsub.publish" publish_payload
          (wire "PUBLISH" (str topic ∷ str (codes "interop-payload") ∷ []))
    unfolding IsSentAs sprint
    publish_wire = rw plain

    pubsub_publish-counted :
        (n : ℤ) (s u : S)
        → w.rpc (codes "PUBLISH") (str topic ∷ str (codes "interop-payload") ∷ []) s
          ≡ (value (int64 n), u)
        → pubsub_publish w c topic (string (codes "interop-payload")) 0 s ≡ (value n, u)
    unfolding pubsub_publish decode lookup
    pubsub_publish-counted n s u e = rw (
      ask_then-sent w c rpc "pubsub.publish" publish_payload (one "subscribers_matched" Shape.int)
          (wire "PUBLISH" (str topic ∷ str (codes "interop-payload") ∷ [])) (λ r. pure r.0)
          publish_wire s,
      e,
    )

    kv_incr-refused :
        (key : Bytes) (x : SynapError) (s u : S)
        → w.rpc (codes "INCR") (str key ∷ []) s ≡ (error (synap x), u)
        → kv_incr w c key s ≡ (error (synap x), u)
    unfolding kv_incr
    kv_incr-refused key x s u e = rw (
      ask_then-sent w c rpc "kv.incr" (with_text "key" key no_fields) (one "value" Shape.int)
          (wire "INCR" (str key ∷ [])) (λ r. pure r.0) (unfold IsSentAs in rw plain) s,
      e,
    )

    auth_step-passes :
        (s : S) (r : Report)
        → (u : S) × (auth_step w c (s, r) ≡ (
          value tt,
          (u, reported "auth" true (codes "EXISTS accepted on an authenticated connection") r),
        ))
    unfolding auth_step auth_verdict
    auth_step-passes s r =
        let (u, e, k) = server.keys.on_exists (codes "interop:go:probe") s in
        (u, rw (kv_exists-found w c rpc plain zero_text _ _ s u e))

    binary_step-passes :
        (s : S) (r : Report)
        → (u : S) × (binary_step w c (s, r)
            ≡ (value tt, (u, reported "kv_binary" true (codes "deadbeef -> deadbeef") r)))
    unfolding binary_step binary_read binary_verdict bytes_eq hex
    binary_step-passes s r =
        let (x, t, e, k) = server.keys.on_set (codes "interop:go:bin") binary s in
        let (u, f, l) = server.keys.on_get (codes "interop:go:bin") t in
        (
          u,
          rw (
            kv_set-done w c rpc plain zero_text (codes "interop:go:bin") binary s t x e,
            kv_get-found w c rpc plain zero_text _ _ t u f,
            k (codes "interop:go:bin"),
          ),
        )

    publish_step-passes :
        (s : S) (r : Report)
        → (u : S) × (publish_step w c (s, r)
            ≡ (value tt, (u, reported "pubsub" true (codes "PUBLISH accepted") r)))
    unfolding publish_step publish_verdict
    publish_step-passes s r =
        let (n, u, e) = server.on_publish topic (codes "interop-payload") s in
        (u, rw (pubsub_publish-counted n s u e))

    error_step-passes :
        (s : S) (r : Report)
        → (u : S) × (x : SynapError) × (error_step w c (s, r) ≡ (
          value tt,
          (u, reported "error" true (error_text x ++ codes "; connection alive=true") r),
        ))
    unfolding error_step error_incr error_probe alive_verdict bytes_eq
    error_step-passes s r =
        let (y, t, e, k) = server.keys.on_set (codes "interop:go:str") (codes "not-a-number") s in
        let (x, u, f) =
          server.on_incr (codes "interop:go:str") (codes "not-a-number") t
            (k (codes "interop:go:str")) refl in
        let (v, g, l) = server.keys.on_exists (codes "interop:go:str") u in
        (
          v,
          x,
          rw (
            kv_set-done w c rpc plain zero_text (codes "interop:go:str") (codes "not-a-number") s t
                y e,
            kv_incr-refused (codes "interop:go:str") x t u f,
            kv_exists-found w c rpc plain zero_text _ _ u v g,
          ),
        )

  -- On a server that keeps a map of keys, takes what is published and refuses to increment a text
  -- that is no integer, the interop program, given four arguments of which the second is an integer,
  -- prints PASS for all four steps and exits with 0: the binary value comes back as it was set, and
  -- the connection outlives the error of INCR, whose text is printed. Zero is taken not to be
  -- positive.
  pub main-passes :
      (program host port_text user pass : Bytes) (more : List Bytes) (port : ℤ) (s : S)
      → parse_int port_text ≡ some port
      → (u : S) × (r : Report) × (x : SynapError) × (main w
            (program ∷ host ∷ port_text ∷ user ∷ pass ∷ more)
            (s, no_report)
          ≡ (value 0, (u, r)))
        × (r.output
            ≡ line (codes "auth") true (codes "EXISTS accepted on an authenticated connection")
              ∷ line (codes "kv_binary") true (codes "deadbeef -> deadbeef")
              ∷ line (codes "pubsub") true (codes "PUBLISH accepted")
              ∷ line (codes "error") true (error_text x ++ codes "; connection alive=true")
              ∷ [])
  unfolding main run_steps new_client config_of new_config with_basic_auth with_timeout reported
  main-passes program host port_text user pass more port s h =
      let c = new_client (config_of host port user pass) in
      let (s1, h1) = auth_step-passes c refl refl s no_report in
      let r1 =
        reported "auth" true (codes "EXISTS accepted on an authenticated connection") no_report in
      let (s2, h2) = binary_step-passes c refl refl s1 r1 in
      let r2 = reported "kv_binary" true (codes "deadbeef -> deadbeef") r1 in
      let (s3, h3) = publish_step-passes c refl refl s2 r2 in
      let r3 = reported "pubsub" true (codes "PUBLISH accepted") r2 in
      let (s4, x, h4) = error_step-passes c refl refl s3 r3 in
      let r4 = reported "error" true (error_text x ++ codes "; connection alive=true") r3 in
      (s4, r4, x, rw (h, h1, h2, h3, h4), refl)
