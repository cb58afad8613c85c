-- ===== src/Transaction/Atomic.antt =====
-- A transaction on the keys of a server, beside a program that goes on outside of it.
pub mod Queued
pub mod Refinement
use synap_sdk_go.Prelude.{◌≡◌, Bool, false, Option, none, some, List, [], ◌∷◌, ◌++◌}
use synap_sdk_go.Bytes.{Bytes, codes}
use synap_sdk_go.Value.{Value, Values, str, arr}
use synap_sdk_go.Resp3.Outcome.{Outcome, value, error}
use synap_sdk_go.Command.Route.{contains}
use synap_sdk_go.Client.Runs.{returned_by, updated_by, run_each}
use synap_sdk_go.Client.Calls.{Call, ◌>>=◌, pure}
use synap_sdk_go.Client.Http.{World, Client}
use synap_sdk_go.Managers.Keys.{
  Operation, set, get, delete, exists, Returned, done, text, truth, Contents, with_key, returns,
  updates, updates_all, run, KeepsKeys,
}
use package.synap_sdk_go.Transaction.{Tx, scope, multi, discard, exec, exec_result}
use synap_sdk_go.Response.Shapes.{El}

-- A call of the program: on the KVStore of the Tx, or on that of the client it was opened on.
pub data Action : Type 0 where
  inside outside : Operation → Action

-- What a call comes to: what it returns, or an error, after which the program goes on.
pub data Reply : Type 0 where
  returned : Returned → Reply
  refused : Reply

-- The promise: the keys as everybody sees them, and the writes that wait in the transaction.
pub record Plan : Type 0 where
  pub contents : Contents
  pub queued : List Operation

-- A transaction that was just opened.
abbrev pub start : Contents → Plan
start m = record { contents = m; queued = [] }

-- A read inside the transaction is refused; a Delete inside does not yet know of a key.
unfoldable pub replies : Action → Plan → Reply
unfolding returns
replies (outside o) p = returned (returns o p.contents)
replies (inside (set key t)) p = returned done
replies (inside (delete key)) p = returned (truth false)
replies (inside (get key)) p = refused
replies (inside (exists key)) p = refused

unfoldable pub plans : Action → Plan → Plan
unfolding updates
plans (outside o) p = record p { contents = updates o p.contents }
plans (inside (set key t)) p = record p { queued = p.queued ++ set key t ∷ [] }
plans (inside (delete key)) p = record p { queued = p.queued ++ delete key ∷ [] }
plans (inside (get key)) p = p
plans (inside (exists key)) p = p

unfoldable pub replies_all : List Action → Plan → List Reply
unfolding returned_by replies plans
replies_all todo p = returned_by replies plans todo p

unfoldable pub plans_all : List Action → Plan → Plan
unfolding updated_by plans
plans_all todo p = updated_by plans todo p

-- What the end of the transaction leaves: all its writes, in their order, or none.
unfoldable pub committed : Plan → Contents
unfolding updates_all
committed p = updates_all p.queued p.contents

-- The calls of the SDK.
module _ {S : Type 0} where
  abbrev reply_of_call : Outcome Returned × S → Outcome Reply × S
  reply_of_call (value r, s) = (value (returned r), s)
  reply_of_call (error e, s) = (value refused, s)
  reply_of_call (Outcome.panic, s) = (Outcome.panic, s)
  reply_of_call (Outcome.out_of_fuel, s) = (Outcome.out_of_fuel, s)

  module _ (w : World S) (c : Client) (id : Bytes) where
    unfoldable pub act : Action → Call S Reply
    unfolding run scope
    act (inside o) s = reply_of_call (run w (scope c id).client o s)
    act (outside o) s = reply_of_call (run w c o s)

    unfoldable pub act_all : List Action → Call S (List Reply)
    unfolding run_each act
    act_all todo = run_each act todo

    -- Multi, the calls, and Exec or Discard.
    unfoldable pub commit : List Action → Call S (List Reply × El exec_result)
    unfolding act_all multi exec scope
    commit rest = do
      opened ← multi w (scope c id)
      rs ← act_all rest
      result ← exec w (scope c id)
      pure (rs, result)

    unfoldable pub abandon : List Action → Call S (List Reply)
    unfolding act_all multi discard scope
    abandon rest = do
      opened ← multi w (scope c id)
      rs ← act_all rest
      closed ← discard w (scope c id)
      pure rs

-- The commands that touch the transactions of the server.
unfoldable pub is_control : Bytes → Bool
unfolding contains
is_control cmd =
    contains
      (codes "MULTI"
        ∷ codes "TXQUEUE"
        ∷ codes "EXEC"
        ∷ codes "DISCARD"
        ∷ codes "WATCH"
        ∷ codes "UNWATCH"
        ∷ [])
      cmd

-- Documented of the server: under an id it keeps the writes of an open MULTI, which EXEC applies in
-- their order and DISCARD drops; meanwhile the keys are as the other commands leave them. `pending`
-- is what waits under the id of one transaction.
pub record KeepsTransaction {S : Type 0} (rpc : Bytes → List Value → Call S Value) (id : Bytes)
    (contents : S → Contents) (pending : S → Option (List Operation)) : Type 0 where
  pub keys : KeepsKeys rpc contents
  pub on_other :
      (cmd : Bytes) (args : List Value) (s : S)
      → is_control cmd ≡ false
      → pending (rpc cmd args s).1 ≡ pending s
  pub on_multi :
      (s : S)
      → pending s ≡ none
      → (r : Value) × (u : S) × (rpc (codes "MULTI") (str id ∷ []) s ≡ (value r, u))
        × (contents u ≡ contents s)
        × (pending u ≡ some [])
  pub on_set :
      (key t : Bytes) (s : S) (q : List Operation)
      → pending s ≡ some q
      → (u : S) × (rpc (codes "TXQUEUE") (str id ∷ str (codes "SET") ∷ str key ∷ str t ∷ []) s
          ≡ (value (str (codes "QUEUED")), u))
        × (contents u ≡ contents s)
        × (pending u ≡ some (q ++ set key t ∷ []))
  pub on_delete :
      (key : Bytes) (s : S) (q : List Operation)
      → pending s ≡ some q
      → (u : S) × (rpc (codes "TXQUEUE") (str id ∷ str (codes "DEL") ∷ str key ∷ []) s
          ≡ (value (str (codes "QUEUED")), u))
        × (contents u ≡ contents s)
        × (pending u ≡ some (q ++ delete key ∷ []))
  pub on_exec :
      (s : S) (q : List Operation)
      → pending s ≡ some q
      → (results : Values) × (u : S) × (rpc (codes "EXEC") (str id ∷ []) s
          ≡ (value (arr results), u))
        × (contents u ≡ updates_all q (contents s))
        × (pending u ≡ none)
  pub on_discard :
      (s : S) (q : List Operation)
      → pending s ≡ some q
      → (r : Value) × (u : S) × (rpc (codes "DISCARD") (str id ∷ []) s ≡ (value r, u))
        × (contents u ≡ contents s)
        × (pending u ≡ none)
