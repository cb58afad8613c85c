-- ===== src/Managers/Keys/Wired.antt =====
-- Set and Get of KVStore through the SynapRPC transport, down to the calls of Thunder.
use synap_sdk_go.Prelude.{◌≡◌, true, ℕ, some, List, [], ◌∷◌, pos, map, false}
use synap_sdk_go.Bytes.{Bytes, codes}
use synap_sdk_go.Value.{Value, str}
use synap_sdk_go.Command.{synap_rpc}
use synap_sdk_go.Command.Wire.{wire}
use synap_sdk_go.Payload.{no_fields, nil_pointer}
use synap_sdk_go.Response.{decode, is_null}
use synap_sdk_go.Resp3.Outcome.{value}
use synap_sdk_go.Client.Http.{World, Client}
use synap_sdk_go.Rpc.Values.{Thunder, IsLawful, text_to_wire, to_wire, from_wire}
use synap_sdk_go.Rpc.Values.Ends.{from_wire-some}
use synap_sdk_go.Rpc.Values.RoundTrip.{IsSendable, read_back, from_wire-to_wire}
use synap_sdk_go.Rpc.Transport.{Session, Network, called, given, execute, ensure_connected, call}
use package.synap_sdk_go.Managers.{with_text, with_field}
use package.synap_sdk_go.Managers.KvStore.{kv_set, kv_get}
use package.synap_sdk_go.Managers.Rpc.{send_command-sent}
use package.synap_sdk_go.Managers.Keys.Refinement.{set_wire, key_wire, key_sent}

module _ (T : Thunder) (net : Network T) where
  abbrev pub after_call : ℕ → Bytes → List T.W → Session T → Session T
  after_call n cmd args t = record t { log = called n cmd args ∷ t.log }

  module _ (w : World (Session T)) (c : Client) (over : w.rpc ≡ execute T net w.rt) where
    -- On a client that lives, a command is the one call.
    execute-alive :
        (n : ℕ) (cmd : Bytes) (args : List Value) (answer : T.W) (v : Value) (t : Session T)
        → t.client ≡ some n
        → net.is_alive n t.log ≡ true
        → net.call n cmd (map (to_wire w.rt T) args) t.log ≡ given answer
        → from_wire w.rt T answer ≡ some v
        → w.rpc cmd args t ≡ (value v, after_call n cmd (map (to_wire w.rt T) args) t)
    unfolding execute ensure_connected call
    execute-alive n cmd args answer v t held alive answers reads =
        rw (over, held, alive, answers, reads)

    module _ (law : IsLawful T) (rpc : c.transport ≡ synap_rpc) (plain : c.tx_client_id ≡ [])
        (zero_text : w.rt.float_positive 0 ≡ false) where
      -- On a client of Thunder that lives, Get of a client outside of transactions calls GET once, of
      -- the key, and returns byte for byte the text or the binary string of the answer; and Set
      -- without a time to live calls SET once, of the key and the value, and succeeds on any answer.
      -- Whatever is not UTF-8 travels as binary both ways. Zero is taken not to be positive.
      pub kv-wired :
          (key t : Bytes) (n : ℕ) (ack : T.W) (s : Session T)
          → s.client ≡ some n
          → net.is_alive n s.log ≡ true
          → net.call n (codes "GET") (text_to_wire w.rt T key ∷ []) s.log
            ≡ given (text_to_wire w.rt T t)
          → net.call n (codes "SET") (text_to_wire w.rt T key ∷ text_to_wire w.rt T t ∷ []) s.log
            ≡ given ack
          → (kv_get w c key s
              ≡ (value t, after_call n (codes "GET") (text_to_wire w.rt T key ∷ []) s))
            × (kv_set w c key t (pos 0) s ≡ (
              value tt,
              after_call n (codes "SET") (text_to_wire w.rt T key ∷ text_to_wire w.rt T t ∷ []) s,
            ))
      unfolding kv_get kv_set decode is_null to_wire text_to_wire IsSendable read_back
      kv-wired key t n ack s held alive gets sets =
          let (v, reads) = from_wire-some w.rt T law ack in
          (
            rw (
                key_sent w c rpc plain zero_text "kv.get" "GET" key (str t) s
                  (after_call n (codes "GET") (text_to_wire w.rt T key ∷ []) s)
                  (key_wire w c rpc plain zero_text key).0
                  (execute-alive n (codes "GET") (str key ∷ []) (text_to_wire w.rt T t) (str t) s
                    held alive gets (from_wire-to_wire w.rt T law (str t) tt))),
            rw (
              send_command-sent w c rpc "kv.set"
                  (with_text "key" key
                    (with_text "value" t (with_field "ttl" nil_pointer no_fields)))
                  (wire "SET" (str key ∷ str t ∷ [])) (set_wire w c rpc plain zero_text key t) s,
              execute-alive n (codes "SET") (str key ∷ str t ∷ []) ack v s held alive sets reads,
            ),
          )
