-- ===== src/Transaction/Atomic/Refinement.antt =====
-- Whole transactions, against the promise.
use synap_sdk_go.Prelude.{
  ℕ, ◌≡◌, refl, ◌∙◌, ap, sym, true, false, Option, none, some, List, [], ◌∷◌,
}
use mathlib.Core.Path.{fun_ext}
use synap_sdk_go.Bytes.{Bytes, codes}
use synap_sdk_go.Value.{Values, to_list, str, arr}
use synap_sdk_go.Command.{synap_rpc}
use synap_sdk_go.Resp3.Outcome.{value}
use synap_sdk_go.Client.Http.{World, Client}
use synap_sdk_go.Client.Runs.{run_each-refines}
use synap_sdk_go.Managers.Keys.{
  Operation, set, get, delete, exists, Contents, updates_all, sent_for,
}
use synap_sdk_go.Managers.Keys.Refinement.{run-refines}
use package.synap_sdk_go.Transaction.{scope, multi}
use package.synap_sdk_go.Transaction.Control.{controls-sent, exec-outcome}
use package.synap_sdk_go.Transaction.Atomic.Queued.{
  run-inside_set, run-inside_delete, run-inside_get, run-inside_exists,
}
use package.synap_sdk_go.Transaction.Atomic.{
  Action, inside, outside, Plan, replies, plans, replies_all, plans_all, committed, act, act_all,
  commit, abandon, is_control, KeepsTransaction, start,
}

module _ {S : Type 0} (w : World S) (c : Client) (rpc : c.transport ≡ synap_rpc) (b : ℕ)
    (rest : Bytes) where
  module _ (zero_text : w.rt.float_positive 0 ≡ false) (plain : c.tx_client_id ≡ [])
      (contents : S → Contents) (pending : S → Option (List Operation))
      (server : KeepsTransaction w.rpc (b ∷ rest) contents pending) where
    -- The state of the server stands for a plan.
    record Stands (s : S) (p : Plan) : Type 0 where
      same : (j : Bytes) → contents s j ≡ p.contents j
      waits : pending s ≡ some p.queued

    unqueued : (o : Operation) → is_control (sent_for o).cmd ≡ false
    unfolding is_control
    unqueued (set key t) = refl
    unqueued (get key) = refl
    unqueued (delete key) = refl
    unqueued (exists key) = refl

    act-refines :
        (a : Action) (s : S) (p : Plan)
        → Stands s p
        → (u : S) × (act w c (b ∷ rest) a s ≡ (value (replies a p), u)) × Stands u (plans a p)
    unfolding act replies plans scope
    act-refines (outside o) s p h =
        let (u, e, k, left) =
          run-refines w c rpc plain zero_text contents server.keys o s p.contents h.same in
        (
          u,
          rw e,
          record {
            same = k;
            waits =
                ap pending (sym left)
                ∙ server.on_other (sent_for o).cmd (sent_for o).args s (unqueued o)
                ∙ h.waits;
          },
        )
    act-refines (inside (set key t)) s p h =
        let (u, e, k, q) = server.on_set key t s p.queued h.waits in
        (
          u,
          rw (run-inside_set w c rpc b rest zero_text key t s u (str (codes "QUEUED")) e),
          record { same = λ j. ap (λ m. m j) k ∙ h.same j; waits = q },
        )
    act-refines (inside (delete key)) s p h =
        let (u, e, k, q) = server.on_delete key s p.queued h.waits in
        (
          u,
          rw (run-inside_delete w c rpc b rest zero_text key s u e),
          record { same = λ j. ap (λ m. m j) k ∙ h.same j; waits = q },
        )
    act-refines (inside (get key)) s p h = (s, rw (run-inside_get w c rpc b rest key s), h)
    act-refines (inside (exists key)) s p h = (s, rw (run-inside_exists w c rpc b rest key s), h)

    act_all-refines :
        (todo : List Action) (s : S) (p : Plan)
        → Stands s p
        → (u : S) × (act_all w c (b ∷ rest) todo s ≡ (value (replies_all todo p), u))
          × Stands u (plans_all todo p)
    unfolding act_all replies_all plans_all
    act_all-refines todo s p h =
        run_each-refines (act w c (b ∷ rest)) replies plans (λ todo' s' p'. Stands s' p')
          (λ a todo' s' p' h'. act-refines a s' p' h') todo s p h

    opened :
        (s : S) (m : Contents)
        → ((j : Bytes) → contents s j ≡ m j)
        → pending s ≡ none
        → (u : S) × (multi w (scope c (b ∷ rest)) s ≡ (value tt, u)) × Stands u (start m)
    opened s m h n =
        let (r, u, e, k, q) = server.on_multi s n in
        (
          u,
          rw ((controls-sent w c rpc (b ∷ rest) [] [] s).0, e),
          record { same = λ j. ap (λ f. f j) k ∙ h j; waits = q },
        )

    -- Multi, the calls, Exec.
    commit-refines :
        (todo : List Action) (s : S) (m : Contents)
        → ((j : Bytes) → contents s j ≡ m j)
        → pending s ≡ none
        → (u : S) × (results : Values) × (commit w c (b ∷ rest) todo s
            ≡ (value (replies_all todo (start m), (true, (false, (to_list results, tt)))), u))
          × ((j : Bytes) → contents u j ≡ committed (plans_all todo (start m)) j)
          × (pending u ≡ none)
    unfolding commit committed
    commit-refines todo s m h n =
        let (t, e, k) = opened s m h n in
        let (v, f, l) = act_all-refines todo t (start m) k in
        let (rs, u, g, q, none_left) = server.on_exec v (plans_all todo (start m)).queued l.waits in
        (
          u,
          rs,
          rw (e, f, exec-outcome w c rpc (b ∷ rest) (arr rs) v u g),
          λ j.
              ap (λ g'. g' j) q
              ∙ ap (λ x. updates_all (plans_all todo (start m)).queued x j) (fun_ext l.same),
          none_left,
        )

    -- Multi, the calls, Discard.
    abandon-refines :
        (todo : List Action) (s : S) (m : Contents)
        → ((j : Bytes) → contents s j ≡ m j)
        → pending s ≡ none
        → (u : S) × (abandon w c (b ∷ rest) todo s ≡ (value (replies_all todo (start m)), u))
          × ((j : Bytes) → contents u j ≡ (plans_all todo (start m)).contents j)
          × (pending u ≡ none)
    unfolding abandon
    abandon-refines todo s m h n =
        let (t, e, k) = opened s m h n in
        let (v, f, l) = act_all-refines todo t (start m) k in
        let (r, u, g, q, none_left) =
          server.on_discard v (plans_all todo (start m)).queued l.waits in
        (
          u,
          rw (e, f, (controls-sent w c rpc (b ∷ rest) [] [] v).1, g),
          λ j. ap (λ g'. g' j) q ∙ l.same j,
          none_left,
        )

    -- On a server that keeps the writes of an open MULTI, a transaction of Set without a time to
    -- live and Delete over SynapRPC is atomic. Whatever calls the program makes in any order on the Tx
    -- and on the client outside of it, the calls outside see and change the keys as if there were no
    -- transaction; those inside change nothing, and reads among them are refused. Exec then succeeds
    -- and applies the writes all together, in their order; Discard in its place drops them, and the
    -- keys are as the calls outside left them. Zero is taken not to be positive.
    pub transaction-refines :
        (todo : List Action) (s : S) (m : Contents)
        → ((j : Bytes) → contents s j ≡ m j)
        → pending s ≡ none
        → ((u : S) × (results : Values) × (commit w c (b ∷ rest) todo s
              ≡ (value (replies_all todo (start m), (true, (false, (to_list results, tt)))), u))
            × ((j : Bytes) → contents u j ≡ committed (plans_all todo (start m)) j)
            × (pending u ≡ none))
          × ((u : S) × (abandon w c (b ∷ rest) todo s ≡ (value (replies_all todo (start m)), u))
              × ((j : Bytes) → contents u j ≡ (plans_all todo (start m)).contents j)
              × (pending u ≡ none))
    transaction-refines todo s m h n = (commit-refines todo s m h n, abandon-refines todo s m h n)
