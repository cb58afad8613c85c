-- ===== src/Managers/Expiry.antt =====
-- Set of KVStore with a time to live, over SynapRPC.
use synap_sdk_go.Prelude.{
  ◌≡◌, refl, ◌∙◌, ℕ, zero, suc, ◌<◌, ◌^◌, true, false, List, [], ◌∷◌, ℤ, pos, negsuc, is_pos, arith,
}
use synap_sdk_go.Bytes.{Bytes, codes}
use synap_sdk_go.Value.{Value, str, int}
use synap_sdk_go.Value.Text.{Runtime, sprint}
use synap_sdk_go.Command.{synap_rpc}
use synap_sdk_go.Command.Wire.{Wire, wire}
use synap_sdk_go.Command.Route.{is_queueable}
use synap_sdk_go.Payload.{Fields, no_fields}
use synap_sdk_go.Client.Calls.{◌>>=◌, pure, bind_assoc}
use synap_sdk_go.Client.Http.{World, Client}
use package.synap_sdk_go.Managers.{with_field, with_text}
use package.synap_sdk_go.Managers.KvStore.{kv_set, ttl_of}
use package.synap_sdk_go.Managers.Rpc.{scoped, answer, IsSentAs, send_command-sent}

-- The whole seconds of a duration that is positive.
abbrev pub seconds_of : Runtime → ℤ → ℕ
seconds_of rt (pos zero) = 0
seconds_of rt (pos (suc n)) = rt.whole_seconds (suc n)
seconds_of rt (negsuc n) = 0

abbrev pub expiry_of : ℕ → List Value
expiry_of zero = []
expiry_of (suc n) = str (codes "EX") ∷ int (pos (suc n)) ∷ []

-- float64 holds the natural numbers below 2 ^ 53, and its pattern 0 is zero.
pub record HoldsNaturals (rt : Runtime) : Type 0 where
  pub sign : (n : ℕ) → n < 2 ^ 53 → rt.float_positive (rt.float_of_int (pos n)) ≡ is_pos (pos n)
  pub exact : (n : ℕ) → n < 2 ^ 53 → rt.int_of_float (rt.float_of_int (pos n)) ≡ pos n
  pub zero_pattern : rt.float_positive 0 ≡ false

abbrev set_payload : Runtime → Bytes → Bytes → ℤ → Fields
set_payload rt key t ttl =
    with_text "key" key (with_text "value" t (with_field "ttl" (ttl_of rt ttl) no_fields))

abbrev set_with : Bytes → Bytes → ℕ → Wire
set_with key t seconds = wire "SET" (str key ∷ str t ∷ expiry_of seconds)

is_pos-suc : (n : ℕ) → is_pos (pos (suc n)) ≡ true
is_pos-suc n = ground arith

module _ {S : Type 0} (w : World S) (c : Client) (rpc : c.transport ≡ synap_rpc) where
  module _ (law : HoldsNaturals w.rt) where
    some_wire :
        (id key t : Bytes) (n k : ℕ)
        → c.tx_client_id ≡ id
        → w.rt.whole_seconds (suc n) ≡ k
        → k < 2 ^ 53
        → IsSentAs w c rpc "kv.set"
            (set_payload w.rt key t (pos (suc n)))
            (scoped id (set_with key t k))
    unfolding IsSentAs is_queueable sprint
    some_wire [] key t n zero h e lt = rw (h, e, law.sign 0 lt)
    some_wire [] key t n (suc k) h e lt =
        rw (h, e, law.sign (suc k) lt ∙ is_pos-suc k, law.exact (suc k) lt)
    some_wire (b ∷ id) key t n zero h e lt = rw (h, e, law.sign 0 lt)
    some_wire (b ∷ id) key t n (suc k) h e lt =
        rw (h, e, law.sign (suc k) lt ∙ is_pos-suc k, law.exact (suc k) lt)

    none_wire :
        (id key t : Bytes)
        → c.tx_client_id ≡ id
        → (IsSentAs w c rpc "kv.set"
            (set_payload w.rt key t (pos zero))
            (scoped id (set_with key t zero)))
    unfolding IsSentAs is_queueable sprint
    none_wire [] key t h = rw (h, law.zero_pattern)
    none_wire (b ∷ id) key t h = rw (h, law.zero_pattern)

    ttl_wire :
        (key t : Bytes) (ttl : ℤ)
        → seconds_of w.rt ttl < 2 ^ 53
        → IsSentAs w c rpc "kv.set"
            (set_payload w.rt key t ttl)
            (scoped c.tx_client_id (set_with key t (seconds_of w.rt ttl)))
    ttl_wire key t (pos zero) lt = none_wire c.tx_client_id key t refl
    ttl_wire key t (negsuc n) lt = none_wire c.tx_client_id key t refl
    ttl_wire key t (pos (suc n)) lt =
        some_wire c.tx_client_id key t n (w.rt.whole_seconds (suc n)) refl refl lt

    -- Over SynapRPC Set executes exactly one command, SET of the very bytes of key and value, or
    -- TXQUEUE of it inside a transaction, with EX and the whole seconds of the time to live if there
    -- are any; without EX, so that the key never expires, if it is not positive, and also if it is
    -- positive but has no whole second. The seconds, below 2 ^ 53, are taken to be exact in float64.
    pub kv_set-expires :
        (key t : Bytes) (ttl : ℤ) (s : S)
        → seconds_of w.rt ttl < 2 ^ 53
        → kv_set w c key t ttl s
          ≡ (let sent =
                  scoped c.tx_client_id
                    (wire "SET" (str key ∷ str t ∷ expiry_of (seconds_of w.rt ttl))) in
                w.rpc sent.cmd sent.args >>= λ v. pure tt)
              s
    unfolding kv_set
    kv_set-expires key t ttl s lt =
        let sent = scoped c.tx_client_id (set_with key t (seconds_of w.rt ttl)) in
        rw
          (send_command-sent w c rpc "kv.set" (set_payload w.rt key t ttl) sent
            (ttl_wire key t ttl lt) s)
          (bind_assoc (w.rpc sent.cmd sent.args) (λ v. pure (answer w c rpc "kv.set" v))
            (λ raw. pure tt) s)
