-- ===== src/Managers/Keys/Refinement.antt =====
-- The calls of KVStore over SynapRPC behave as those on a map.
use synap_sdk_go.Prelude.{
  ◌≡◌, ◌∙◌, false, Option, none, some, List, [], ◌∷◌, pos, if◌then◌else◌, ap, String,
}
use synap_sdk_go.Bytes.{Bytes, codes, bytes_eq}
use synap_sdk_go.Value.{Value, str}
use synap_sdk_go.Value.Maps.{lookup}
use synap_sdk_go.Command.{synap_rpc}
use synap_sdk_go.Command.Wire.{wire}
use synap_sdk_go.Payload.{no_fields, nil_pointer, struct}
use synap_sdk_go.Response.{decode, is_null}
use synap_sdk_go.Resp3.Outcome.{value}
use synap_sdk_go.Client.{send_command}
use synap_sdk_go.Client.Http.{World, Client}
use synap_sdk_go.Client.Runs.{run_each-refines}
use package.synap_sdk_go.Managers.KvStore.{kv_set, kv_get, kv_delete, kv_exists}
use package.synap_sdk_go.Managers.{with_text, with_field}
use package.synap_sdk_go.Managers.Rpc.{reply_of, answer, IsSentAs, send_command-sent}
use package.synap_sdk_go.Managers.Keys.{
  Operation, set, get, delete, exists, Contents, text_or_empty, is_there, count_of, returns,
  updates, returns_all, updates_all, run, run_all, KeepsKeys, sent_for,
}

module _ {S : Type 0} (w : World S) (c : Client) (rpc : c.transport ≡ synap_rpc) where
  module _ (plain : c.tx_client_id ≡ []) (zero_text : w.rt.float_positive 0 ≡ false) where
    pub set_wire :
        (key t : Bytes)
        → IsSentAs w c rpc "kv.set"
            (with_text "key" key (with_text "value" t (with_field "ttl" nil_pointer no_fields)))
            (wire "SET" (str key ∷ str t ∷ []))
    unfolding IsSentAs
    set_wire key t = rw (plain, zero_text)

    pub kv_set-done :
        (key t : Bytes) (s u : S) (r : Value)
        → w.rpc (codes "SET") (str key ∷ str t ∷ []) s ≡ (value r, u)
        → kv_set w c key t (pos 0) s ≡ (value tt, u)
    unfolding kv_set
    kv_set-done key t s u r e = rw (
      send_command-sent w c rpc "kv.set"
          (with_text "key" key (with_text "value" t (with_field "ttl" nil_pointer no_fields)))
          (wire "SET" (str key ∷ str t ∷ [])) (set_wire key t) s,
      e,
    )

    pub key_wire :
        (key : Bytes)
        → IsSentAs w c rpc "kv.get" (with_text "key" key no_fields) (wire "GET" (str key ∷ []))
          × IsSentAs w c rpc "kv.del" (with_text "key" key no_fields) (wire "DEL" (str key ∷ []))
          × IsSentAs w c rpc "kv.exists"
              (with_text "key" key no_fields)
              (wire "EXISTS" (str key ∷ []))
    unfolding IsSentAs
    key_wire key = (rw plain, rw plain, rw plain)

    -- A command with a key, and the reply that comes back.
    pub key_sent :
        (command cmd : String) (key : Bytes) (r : Value) (s u : S)
        → IsSentAs w c rpc command (with_text "key" key no_fields) (wire cmd (str key ∷ []))
        → w.rpc (codes cmd) (str key ∷ []) s ≡ (value r, u)
        → send_command w c (codes command) (struct (with_text "key" key no_fields)) s
          ≡ (value (answer w c rpc command r), u)
    key_sent command cmd key r s u h e = rw (
      send_command-sent w c rpc command (with_text "key" key no_fields) (wire cmd (str key ∷ [])) h
          s,
      e,
    )

    pub kv_get-found :
        (key : Bytes) (found : Option Bytes) (s u : S)
        → w.rpc (codes "GET") (str key ∷ []) s ≡ (value (reply_of found), u)
        → kv_get w c key s ≡ (value (text_or_empty found), u)
    unfolding kv_get decode is_null
    kv_get-found key none s u e =
        rw (key_sent "kv.get" "GET" key (reply_of none) s u (key_wire key).0 e)
    kv_get-found key (some t) s u e =
        rw (key_sent "kv.get" "GET" key (reply_of (some t)) s u (key_wire key).0 e)

    kv_delete-found :
        (key : Bytes) (found : Option Bytes) (s u : S)
        → w.rpc (codes "DEL") (str key ∷ []) s ≡ (value (count_of found), u)
        → kv_delete w c key s ≡ (value (is_there found), u)
    unfolding kv_delete decode lookup
    kv_delete-found key none s u e =
        rw (key_sent "kv.del" "DEL" key (count_of none) s u (key_wire key).1 e)
    kv_delete-found key (some t) s u e =
        rw (key_sent "kv.del" "DEL" key (count_of (some t)) s u (key_wire key).1 e)

    pub kv_exists-found :
        (key : Bytes) (found : Option Bytes) (s u : S)
        → w.rpc (codes "EXISTS") (str key ∷ []) s ≡ (value (count_of found), u)
        → kv_exists w c key s ≡ (value (is_there found), u)
    unfolding kv_exists decode lookup
    kv_exists-found key none s u e =
        rw (key_sent "kv.exists" "EXISTS" key (count_of none) s u (key_wire key).2 e)
    kv_exists-found key (some t) s u e =
        rw (key_sent "kv.exists" "EXISTS" key (count_of (some t)) s u (key_wire key).2 e)

    module _ (contents : S → Contents) (server : KeepsKeys w.rpc contents) where
      -- One call; the state is that which its command leaves.
      pub run-refines :
          (o : Operation) (s : S) (m : Contents)
          → ((j : Bytes) → contents s j ≡ m j)
          → (u : S) × (run w c o s ≡ (value (returns o m), u))
            × ((j : Bytes) → contents u j ≡ updates o m j)
            × ((w.rpc (sent_for o).cmd (sent_for o).args s).1 ≡ u)
      unfolding returns updates run
      run-refines (set key t) s m h =
          let (r, u, e, k) = server.on_set key t s in
          (
            u,
            rw (kv_set-done key t s u r e),
            λ j. k j ∙ ap (λ x. if bytes_eq j key then some t else x) (h j),
            ap (λ x. x.1) e,
          )
      run-refines (get key) s m h =
          let (u, e, k) = server.on_get key s in
          (
            u,
            rw (← h key, kv_get-found key (contents s key) s u e),
            λ j. k j ∙ h j,
            ap (λ x. x.1) e,
          )
      run-refines (delete key) s m h =
          let (u, e, k) = server.on_delete key s in
          (
            u,
            rw (← h key, kv_delete-found key (contents s key) s u e),
            λ j. k j ∙ ap (λ x. if bytes_eq j key then none else x) (h j),
            ap (λ x. x.1) e,
          )
      run-refines (exists key) s m h =
          let (u, e, k) = server.on_exists key s in
          (
            u,
            rw (← h key, kv_exists-found key (contents s key) s u e),
            λ j. k j ∙ h j,
            ap (λ x. x.1) e,
          )

      -- On a server that keeps a map of keys, whatever sequence of Set without a time to live, Get,
      -- Delete and Exists a program outside of transactions calls over SynapRPC, each call succeeds
      -- and returns what it returns on a map with the same contents, byte for byte, and afterwards
      -- the server stands for that map. Zero is taken not to be positive.
      pub run_all-refines :
          (os : List Operation) (s : S) (m : Contents)
          → ((j : Bytes) → contents s j ≡ m j)
          → (u : S) × (run_all w c os s ≡ (value (returns_all os m), u))
            × ((j : Bytes) → contents u j ≡ updates_all os m j)
      unfolding run_all returns_all updates_all
      run_all-refines os s m h =
          run_each-refines (run w c) returns updates
            (λ os' s' m'. (j : Bytes) → contents s' j ≡ m' j)
            (λ o os' s' m' h'. let (u, e, k, left) = run-refines o s' m' h' in (u, e, k)) os s m h
