-- ===== src/Managers/Keys.antt =====
-- KVStore over SynapRPC, on a server that keeps a map of keys.
pub mod Refinement
pub mod Wired
pub mod Framed
use synap_sdk_go.Prelude.{
  ◌≡◌, refl, ◌∙◌, Bool, true, false, Option, none, some, List, [], ◌∷◌, pos, if◌then◌else◌, ap,
}
use synap_sdk_go.Bytes.{Bytes, codes, bytes_eq}
use synap_sdk_go.Value.{Value, str, int64}
use synap_sdk_go.Value.Maps.{lookup}
use synap_sdk_go.Command.{synap_rpc}
use synap_sdk_go.Command.Wire.{wire}
use synap_sdk_go.Payload.{no_fields, nil_pointer}
use synap_sdk_go.Response.{decode, is_null}
use synap_sdk_go.Response.Shapes.{Shape}
use synap_sdk_go.Resp3.Outcome.{value}
use synap_sdk_go.Command.Wire.{Wire, wire}
use synap_sdk_go.Client.Calls.{Call, ◌>>=◌, pure}
use synap_sdk_go.Client.Runs.{returned_by, updated_by, run_each}
use synap_sdk_go.Client.Http.{World, Client}
use package.synap_sdk_go.Managers.{one, with_text, with_field, or_invalid}
use package.synap_sdk_go.Managers.KvStore.{kv_set, kv_get, kv_delete, kv_exists}
use package.synap_sdk_go.Managers.Rpc.{reply_of, answer, IsSentAs, send_command-sent, ask_then-sent}

-- The calls of a program on the store; Set without a time to live.
pub data Operation : Type 0 where
  set : (key text : Bytes) → Operation
  get delete exists : (key : Bytes) → Operation

-- What a call returns.
pub data Returned : Type 0 where
  done : Returned
  text : Bytes → Returned
  truth : Bool → Returned

-- The map that the store stands for.
abbrev pub Contents : Type 0
Contents = Bytes → Option Bytes

abbrev pub with_key : Bytes → Option Bytes → Contents → Contents
unfolding bytes_eq
with_key key found m j = if bytes_eq j key then found else m j

abbrev pub text_or_empty : Option Bytes → Bytes
text_or_empty none = []
text_or_empty (some t) = t

abbrev pub is_there : Option Bytes → Bool
is_there none = false
is_there (some t) = true

-- The promise: each call on a map. Get of a key that is not there is the empty string.
unfoldable pub returns : Operation → Contents → Returned
returns (set key t) m = done
returns (get key) m = text (text_or_empty (m key))
returns (delete key) m = truth (is_there (m key))
returns (exists key) m = truth (is_there (m key))

unfoldable pub updates : Operation → Contents → Contents
unfolding with_key
updates (set key t) m = with_key key (some t) m
updates (get key) m = m
updates (delete key) m = with_key key none m
updates (exists key) m = m

unfoldable pub returns_all : List Operation → Contents → List Returned
unfolding returned_by returns updates
returns_all os m = returned_by returns updates os m

unfoldable pub updates_all : List Operation → Contents → Contents
unfolding updated_by updates
updates_all os m = updated_by updates os m

-- The calls of the SDK.
module _ {S : Type 0} (w : World S) (c : Client) where
  unfoldable pub run : Operation → Call S Returned
  unfolding kv_set kv_get kv_delete kv_exists
  run (set key t) = do u ← kv_set w c key t (pos 0); pure done
  run (get key) = do t ← kv_get w c key; pure (text t)
  run (delete key) = do b ← kv_delete w c key; pure (truth b)
  run (exists key) = do b ← kv_exists w c key; pure (truth b)

  unfoldable pub run_all : List Operation → Call S (List Returned)
  unfolding run_each run
  run_all os = run_each run os

-- The wire command of a call.
abbrev pub sent_for : Operation → Wire
sent_for (set key t) = wire "SET" (str key ∷ str t ∷ [])
sent_for (get key) = wire "GET" (str key ∷ [])
sent_for (delete key) = wire "DEL" (str key ∷ [])
sent_for (exists key) = wire "EXISTS" (str key ∷ [])

-- 1 for a key that is there, and 0.
abbrev pub count_of : Option Bytes → Value
count_of none = int64 (pos 0)
count_of (some t) = int64 (pos 1)

-- Documented of the server: it keeps a map, which SET, GET, DEL and EXISTS read and change.
pub record KeepsKeys {S : Type 0} (rpc : Bytes → List Value → Call S Value)
    (contents : S → Contents) : Type 0 where
  pub on_set :
      (key t : Bytes) (s : S)
      → (r : Value) × (u : S) × (rpc (codes "SET") (str key ∷ str t ∷ []) s ≡ (value r, u))
        × ((j : Bytes) → contents u j ≡ with_key key (some t) (contents s) j)
  pub on_get :
      (key : Bytes) (s : S)
      → (u : S) × (rpc (codes "GET") (str key ∷ []) s ≡ (value (reply_of (contents s key)), u))
        × ((j : Bytes) → contents u j ≡ contents s j)
  pub on_delete :
      (key : Bytes) (s : S)
      → (u : S) × (rpc (codes "DEL") (str key ∷ []) s ≡ (value (count_of (contents s key)), u))
        × ((j : Bytes) → contents u j ≡ with_key key none (contents s) j)
  pub on_exists :
      (key : Bytes) (s : S)
      → (u : S) × (rpc (codes "EXISTS") (str key ∷ []) s ≡ (value (count_of (contents s key)), u))
        × ((j : Bytes) → contents u j ≡ contents s j)
