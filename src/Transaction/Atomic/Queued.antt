-- ===== src/Transaction/Atomic/Queued.antt =====
-- The calls of the KVStore of a Tx, one by one.
use synap_sdk_go.Prelude.{ℕ, ◌≡◌, refl, false, [], ◌∷◌}
use synap_sdk_go.Bytes.{Bytes, codes}
use synap_sdk_go.Value.{Value, str}
use synap_sdk_go.Value.Maps.{lookup}
use synap_sdk_go.Value.Text.{sprint}
use synap_sdk_go.Command.{synap_rpc}
use synap_sdk_go.Command.Wire.{wire}
use synap_sdk_go.Command.Route.{is_queueable, not_queueable}
use synap_sdk_go.Errors.{synap}
use synap_sdk_go.Payload.{no_fields, nil_pointer}
use synap_sdk_go.Response.{decode}
use synap_sdk_go.Resp3.Outcome.{value, error}
use synap_sdk_go.Client.{send_command}
use synap_sdk_go.Client.Http.{World, Client}
use synap_sdk_go.Managers.{with_text, with_field}
use synap_sdk_go.Managers.Rpc.{IsSentAs, send_command-sent}
use synap_sdk_go.Managers.Keys.{set, get, delete, exists, done, truth, run}

module _ {S : Type 0} (w : World S) (c : Client) (rpc : c.transport ≡ synap_rpc) (b : ℕ)
    (rest : Bytes) where
  abbrev pub enlisted : Client
  enlisted = record c { tx_client_id = b ∷ rest }

  module _ (zero_text : w.rt.float_positive 0 ≡ false) where
    inside_wire :
        (key t : Bytes)
        → IsSentAs w enlisted rpc "kv.set"
            (with_text "key" key (with_text "value" t (with_field "ttl" nil_pointer no_fields)))
            (wire "TXQUEUE" (str (b ∷ rest) ∷ str (codes "SET") ∷ str key ∷ str t ∷ []))
          × IsSentAs w enlisted rpc "kv.del"
              (with_text "key" key no_fields)
              (wire "TXQUEUE" (str (b ∷ rest) ∷ str (codes "DEL") ∷ str key ∷ []))
    unfolding IsSentAs is_queueable sprint
    inside_wire key t = (rw zero_text, refl)

    pub run-inside_set :
        (key t : Bytes) (s u : S) (r : Value)
        → w.rpc (codes "TXQUEUE") (str (b ∷ rest) ∷ str (codes "SET") ∷ str key ∷ str t ∷ []) s
          ≡ (value r, u)
        → run w enlisted (set key t) s ≡ (value done, u)
    unfolding run
    run-inside_set key t s u r e = rw (
      send_command-sent w enlisted rpc "kv.set"
          (with_text "key" key (with_text "value" t (with_field "ttl" nil_pointer no_fields)))
          (wire "TXQUEUE" (str (b ∷ rest) ∷ str (codes "SET") ∷ str key ∷ str t ∷ []))
          (inside_wire key t).0 s,
      e,
    )

    pub run-inside_delete :
        (key : Bytes) (s u : S)
        → w.rpc (codes "TXQUEUE") (str (b ∷ rest) ∷ str (codes "DEL") ∷ str key ∷ []) s
          ≡ (value (str (codes "QUEUED")), u)
        → run w enlisted (delete key) s ≡ (value (truth false), u)
    unfolding run decode lookup
    run-inside_delete key s u e = rw (
      send_command-sent w enlisted rpc "kv.del" (with_text "key" key no_fields)
          (wire "TXQUEUE" (str (b ∷ rest) ∷ str (codes "DEL") ∷ str key ∷ []))
          (inside_wire key []).1 s,
      e,
    )

  pub run-inside_get :
      (key : Bytes) (s : S)
      → run w enlisted (get key) s ≡ (error (synap (not_queueable (codes "kv.get"))), s)
  unfolding run send_command is_queueable
  run-inside_get key s = rw rpc

  pub run-inside_exists :
      (key : Bytes) (s : S)
      → run w enlisted (exists key) s ≡ (error (synap (not_queueable (codes "kv.exists"))), s)
  unfolding run send_command is_queueable
  run-inside_exists key s = rw rpc
