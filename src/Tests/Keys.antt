-- ===== src/Tests/Keys.antt =====
-- A server that keeps a map of keys, and a program on it.
use synap_sdk_go.Prelude.{
  ◌≡◌, refl, false, true, some, none, List, [], ◌∷◌, if◌then◌else◌, arith, pos,
}
use synap_sdk_go.Bytes.{Bytes, codes, bytes_eq}
use synap_sdk_go.Value.{Value, str, nil, int}
use synap_sdk_go.Resp3.Outcome.{Outcome, value}
use synap_sdk_go.Managers.Rpc.{reply_of, scoped}
use synap_sdk_go.Managers.Expiry.{HoldsNaturals, seconds_of, expiry_of, kv_set-expires}
use synap_sdk_go.Command.Wire.{wire}
use synap_sdk_go.Managers.Keys.{
  Operation, set, get, delete, exists, done, text, truth, Contents, with_key, count_of, returns_all,
  updates_all, run_all, KeepsKeys,
}
use synap_sdk_go.Managers.Keys.Refinement.{run_all-refines}
use synap_sdk_go.Managers.KvStore.{kv_exists, kv_delete, kv_set}
use synap_sdk_go.Managers.HashManager.{hash_exists}
use synap_sdk_go.Managers.SetManager.{set_is_member}
use synap_sdk_go.Managers.Publish.{HoldsBytes}
use synap_sdk_go.Managers.Flags.{truth_of, flags-decoded}
use synap_sdk_go.Client.Calls.{◌>>=◌, pure}
use package.synap_sdk_go.Tests.Sample.{integers, world_of, plain}

abbrev on_key : Bytes → Bytes → List Value → Contents → Outcome Value × Contents
unfolding bytes_eq
on_key cmd key (str t ∷ []) s = (value (str (codes "OK")), with_key key (some t) s)
on_key cmd key rest s =
    if bytes_eq cmd (codes "GET")
    then (value (reply_of (s key)), s)
    else if bytes_eq cmd (codes "DEL")
    then (value (count_of (s key)), with_key key none s)
    else (value (count_of (s key)), s)

unfoldable pub keep : Bytes → List Value → Contents → Outcome Value × Contents
unfolding on_key
keep cmd (str key ∷ rest) s = on_key cmd key rest s
keep cmd args s = (value nil, s)

keep-KeepsKeys : KeepsKeys keep (λ s. s)
unfolding keep
keep-KeepsKeys = record {
  on_set = λ key t s. (_, _, refl, λ j. refl);
  on_get = λ key s. (_, refl, λ j. refl);
  on_delete = λ key s. (_, refl, λ j. refl);
  on_exists = λ key s. (_, refl, λ j. refl);
}

abbrev program : List Operation
program =
    set (codes "a") (222 ∷ 173 ∷ [])
    ∷ get (codes "a")
    ∷ exists (codes "b")
    ∷ delete (codes "a")
    ∷ get (codes "a")
    ∷ []

program_returns :
    returns_all program (λ key. none)
    ≡ done ∷ text (222 ∷ 173 ∷ []) ∷ truth false ∷ truth true ∷ text [] ∷ []
unfolding returns_all
program_returns = refl

run_all-refines_example :
    (u : Contents) × (run_all (world_of keep) plain program (λ key. none)
      ≡ (value (returns_all program (λ key. none)), u))
    × ((j : Bytes) → u j ≡ updates_all program (λ key. none) j)
run_all-refines_example =
    run_all-refines (world_of keep) plain refl refl refl (λ s. s) keep-KeepsKeys program
      (λ key. none) (λ key. none) (λ j. refl)

-- The numbers of a byte are exact in the sample's floats.
pub integers-HoldsBytes : HoldsBytes integers
integers-HoldsBytes b h = ground arith

abbrev pub nothing : Contents
nothing key = none

flags-decoded_example :
    (kv_exists (world_of keep) plain (codes "k") nothing
      ≡ (keep (codes "EXISTS") (str (codes "k") ∷ []) >>= λ v. pure (truth_of v)) nothing)
    × (kv_delete (world_of keep) plain (codes "k") nothing
        ≡ (keep (codes "DEL") (str (codes "k") ∷ []) >>= λ v. pure (truth_of v)) nothing)
    × (hash_exists (world_of keep) plain (codes "k") (codes "f") nothing
        ≡ (keep (codes "HEXISTS") (str (codes "k") ∷ str (codes "f") ∷ []) >>= λ v.
              pure (truth_of v))
            nothing)
    × (set_is_member (world_of keep) plain (codes "k") (codes "f") nothing
        ≡ (keep (codes "SISMEMBER") (str (codes "k") ∷ str (codes "f") ∷ []) >>= λ v.
              pure (truth_of v))
            nothing)
flags-decoded_example =
    flags-decoded (world_of keep) plain refl refl (codes "k") (codes "f") nothing

-- The natural numbers are exact in the sample's floats.
pub integers-HoldsNaturals : HoldsNaturals integers
integers-HoldsNaturals = record {
  sign = λ n lt. ground arith;
  exact = λ n lt. ground arith;
  zero_pattern = refl;
}

-- Half a second: the key never expires.
kv_set-expires_example :
    kv_set (world_of keep) plain (codes "k") (codes "v") (pos 500000000) nothing
    ≡ (let sent = scoped [] (
            wire "SET" (
              str (codes "k")
              ∷ str (codes "v")
              ∷ expiry_of (seconds_of integers (pos 500000000)))) in
          keep sent.cmd sent.args >>= λ v. pure tt)
        nothing
kv_set-expires_example =
    kv_set-expires (world_of keep) plain refl integers-HoldsNaturals (codes "k") (codes "v")
      (pos 500000000) nothing (omega arith)

half_second : expiry_of (seconds_of integers (pos 500000000)) ≡ []
half_second = refl

two_seconds : expiry_of (seconds_of integers (pos 2500000000)) ≡ str (codes "EX") ∷ int (pos 2) ∷ []
two_seconds = refl
