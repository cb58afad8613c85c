-- ===== src/Managers/Flags.antt =====
-- The methods that return a flag, over SynapRPC.
use synap_sdk_go.Prelude.{◌≡◌, refl, ◌∙◌, Bool, false, ap, is_pos, to_int64, String, [], ◌∷◌}
use synap_sdk_go.Bytes.{Bytes, codes}
use synap_sdk_go.Value.{Value, nil, bool, int64, uint64, sized, str}
use synap_sdk_go.Value.Maps.{lookup}
use synap_sdk_go.Command.{synap_rpc}
use synap_sdk_go.Command.Wire.{Wire, wire}
use synap_sdk_go.Command.Reply.{flag, deleted}
use synap_sdk_go.Payload.{Fields, no_fields}
use synap_sdk_go.Response.{decode}
use synap_sdk_go.Response.Shapes.{Shape}
use synap_sdk_go.Client.{normalize_ints}
use synap_sdk_go.Client.Calls.{◌>>=◌, pure, bind_ext}
use synap_sdk_go.Client.Http.{World, Client}
use package.synap_sdk_go.Managers.{ask, one, with_text, or_invalid}
use package.synap_sdk_go.Managers.KvStore.{kv_delete, kv_exists}
use package.synap_sdk_go.Managers.HashManager.{hash_exists}
use package.synap_sdk_go.Managers.SetManager.{set_is_member}
use package.synap_sdk_go.Managers.Rpc.{answer, IsSentAs, ask_then-sent}

-- True, or a positive integer of any type; a uint64 is taken as an int64.
unfoldable pub truth_of : Value → Bool
truth_of (bool b) = b
truth_of (int64 n) = is_pos n
truth_of (sized k n) = is_pos n
truth_of (uint64 n) = is_pos (to_int64 n)
truth_of v = false

flag-normalize_ints : (v : Value) → flag (normalize_ints v) ≡ truth_of v
unfolding flag normalize_ints truth_of
flag-normalize_ints nil = refl
flag-normalize_ints _ = refl

deleted-normalize_ints : (v : Value) → deleted (normalize_ints v) ≡ flag (normalize_ints v)
unfolding deleted normalize_ints
deleted-normalize_ints nil = refl
deleted-normalize_ints _ = refl

module _ {S : Type 0} (w : World S) (c : Client) (rpc : c.transport ≡ synap_rpc) where
  -- A method that decodes one Boolean: where every value decodes to a flag of it, nothing fails.
  flag-sent :
      (command name : String) (payload : Fields) (sent : Wire)
      → IsSentAs w c rpc command payload sent
      → ((v : Value) (t : S)
          → (or_invalid w command
                  (decode w.rt w.json (one name Shape.bool) (answer w c rpc command v))
                >>= λ r. pure r.0)
              t
            ≡ pure (truth_of v) t)
      → (s : S)
      → (ask w c command payload (one name Shape.bool) >>= λ r. pure r.0) s
        ≡ (w.rpc sent.cmd sent.args >>= λ v. pure (truth_of v)) s
  flag-sent command name payload sent h k s =
      ask_then-sent w c rpc command payload (one name Shape.bool) sent (λ r. pure r.0) h s
      ∙ bind_ext (w.rpc sent.cmd sent.args)
          (λ v.
            or_invalid w command
              (decode w.rt w.json (one name Shape.bool) (answer w c rpc command v))
            >>= λ r. pure r.0)
          (λ v. pure (truth_of v)) k s

  module _ (plain : c.tx_client_id ≡ []) where
    key_wires :
        (key name : Bytes)
        → IsSentAs w c rpc "kv.exists"
            (with_text "key" key no_fields)
            (wire "EXISTS" (str key ∷ []))
          × IsSentAs w c rpc "kv.del" (with_text "key" key no_fields) (wire "DEL" (str key ∷ []))
          × IsSentAs w c rpc "hash.exists"
              (with_text "key" key (with_text "field" name no_fields))
              (wire "HEXISTS" (str key ∷ str name ∷ []))
          × IsSentAs w c rpc "set.ismember"
              (with_text "key" key (with_text "member" name no_fields))
              (wire "SISMEMBER" (str key ∷ str name ∷ []))
    unfolding IsSentAs
    key_wires key name = (rw plain, rw plain, rw plain, rw plain)

    -- Over SynapRPC KVStore.Exists and Delete, HashManager.Exists and SetManager.IsMember of a client
    -- outside of transactions execute exactly one command each, EXISTS, DEL, HEXISTS or SISMEMBER of
    -- the very bytes they are given, and whatever value comes back, of whatever type, they return a
    -- Boolean, true for true and for positive integers: decoding never fails.
    pub flags-decoded :
        (key name : Bytes) (s : S)
        → (kv_exists w c key s
            ≡ (w.rpc (codes "EXISTS") (str key ∷ []) >>= λ v. pure (truth_of v)) s)
          × (kv_delete w c key s
              ≡ (w.rpc (codes "DEL") (str key ∷ []) >>= λ v. pure (truth_of v)) s)
          × (hash_exists w c key name s
              ≡ (w.rpc (codes "HEXISTS") (str key ∷ str name ∷ []) >>= λ v. pure (truth_of v)) s)
          × (set_is_member w c key name s
              ≡ (w.rpc (codes "SISMEMBER") (str key ∷ str name ∷ []) >>= λ v. pure (truth_of v)) s)
    unfolding kv_exists kv_delete hash_exists set_is_member decode lookup
    flags-decoded key name s =
        let (e, d, h, m) = key_wires key name in
        let same : (v : Value) (t : S) → pure (flag (normalize_ints v)) t ≡ pure (truth_of v) t =
          λ v t. ap (λ b. pure b t) (flag-normalize_ints v) in
        (
          flag-sent "kv.exists" "exists" (with_text "key" key no_fields)
              (wire "EXISTS" (str key ∷ [])) e same s,
          flag-sent "kv.del" "deleted" (with_text "key" key no_fields) (wire "DEL" (str key ∷ [])) d
              (λ v t. ap (λ b. pure b t) (deleted-normalize_ints v ∙ flag-normalize_ints v)) s,
          flag-sent "hash.exists" "exists" (with_text "key" key (with_text "field" name no_fields))
              (wire "HEXISTS" (str key ∷ str name ∷ [])) h same s,
          flag-sent "set.ismember" "is_member"
              (with_text "key" key (with_text "member" name no_fields))
              (wire "SISMEMBER" (str key ∷ str name ∷ [])) m same s,
        )
