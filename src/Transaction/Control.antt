-- ===== src/Transaction/Control.antt =====
-- The control commands of a transaction over SynapRPC.
use synap_sdk_go.Prelude.{◌≡◌, refl, ◌∙◌, ap, true, false, List, [], ◌∷◌, String}
use synap_sdk_go.Prelude.{map as list_map}
use synap_sdk_go.Command.Wire.{strs}
use synap_sdk_go.Payload.{payload_values}
use synap_sdk_go.Bytes.{Bytes, codes}
use synap_sdk_go.Value.{
  Value, nil, bool, int, int64, uint64, sized, float64, str, bytes, arr, dict, to_list,
}
use synap_sdk_go.Value.Maps.{lookup}
use synap_sdk_go.Value.Text.{Runtime, sprint}
use synap_sdk_go.Resp3.Outcome.{value}
use synap_sdk_go.Command.{synap_rpc}
use synap_sdk_go.Response.{Response, decode}
use synap_sdk_go.Command.Reply.{map_response_from_wire}
use synap_sdk_go.Response.Assign.Items.{assign-items}
use synap_sdk_go.Response.Assign.{assign}
use synap_sdk_go.Client.{normalize_ints}
use synap_sdk_go.Payload.{no_keys}
use synap_sdk_go.Response.Shapes.{El}
use synap_sdk_go.Client.Calls.{◌>>=◌, pure, bind_assoc}
use synap_sdk_go.Client.Http.{World, Client}
use synap_sdk_go.Managers.{or_invalid, strings_of}
use package.synap_sdk_go.Transaction.{
  scope, exec_result, control, exec, multi, discard, unwatch, watch,
}

-- What EXEC answers, as its caller sees it: the results in order, or an abort.
abbrev pub outcome_of : Value → El exec_result
outcome_of (arr vs) = (true, (false, (to_list vs, tt)))
outcome_of v = (false, (true, ([], tt)))

abbrev exec_answer : Runtime → Value → Response
unfolding map_response_from_wire normalize_ints
exec_answer rt v =
    Response.value (map_response_from_wire rt (codes "transaction.exec") (normalize_ints v))

module _ {S : Type 0} (w : World S) (c : Client) (rpc : c.transport ≡ synap_rpc) where
  exec-sent :
      (id : Bytes) (s : S)
      → control w (scope c id) "transaction.exec" no_keys s
        ≡ (w.rpc (codes "EXEC") (str id ∷ []) >>= λ v. pure (exec_answer w.rt v)) s
  unfolding control scope exec_answer
  exec-sent [] s = rw rpc
  exec-sent (b ∷ id) s = rw rpc

  exec_read :
      (v : Value) (t : S)
      → or_invalid w "transaction.exec" (decode w.rt w.json exec_result (exec_answer w.rt v)) t
        ≡ (value (outcome_of v), t)
  unfolding exec_answer decode lookup assign
  exec_read (arr vs) t = rw (assign-items w.rt [] vs)
  exec_read nil t = refl
  exec_read (bool b) t = refl
  exec_read (int n) t = refl
  exec_read (int64 n) t = refl
  exec_read (uint64 n) t = refl
  exec_read (sized k n) t = refl
  exec_read (float64 f) t = refl
  exec_read (str x) t = refl
  exec_read (bytes x) t = refl
  exec_read (dict m) t = refl

  -- If the server answers EXEC of the id of a transaction scope, then over SynapRPC Tx.Exec returns
  -- success with the results in their order if the answer is an array, and for every other answer,
  -- nil included, an abort without results.
  pub exec-outcome :
      (id : Bytes) (v : Value) (s t : S)
      → w.rpc (codes "EXEC") (str id ∷ []) s ≡ (value v, t)
      → exec w (scope c id) s ≡ (value (outcome_of v), t)
  unfolding exec
  exec-outcome id v s t e = rw (exec-sent id s, e) (exec_read v t)

  told :
      (command : String) (cmd : Bytes) (args : List Value) (s : S)
      → (w.rpc cmd args
            >>= (λ v.
                pure
                  (Response.value (map_response_from_wire w.rt (codes command) (normalize_ints v))))
            >>= λ raw. pure tt)
          s
        ≡ (w.rpc cmd args >>= λ v. pure tt) s
  told command cmd args s =
      bind_assoc (w.rpc cmd args)
        (λ v.
          pure (Response.value (map_response_from_wire w.rt (codes command) (normalize_ints v))))
        (λ raw. pure tt) s

  printed-strings_of :
      (ks : List Bytes)
      → strs (list_map (sprint w.rt) (to_list (payload_values w.rt (strings_of ks)))) ≡ strs ks
  unfolding payload_values sprint
  printed-strings_of [] = refl
  printed-strings_of (k ∷ ks) = rw (printed-strings_of ks)

  watch-sent :
      (id k : Bytes) (ks : List Bytes) (s : S)
      → watch w (scope c id) (k ∷ ks) s
        ≡ (w.rpc (codes "WATCH") (str id ∷ strs (k ∷ ks)) >>= λ v. pure tt) s
  unfolding watch control scope payload_values
  watch-sent [] k ks s = rw rpc (
      told "transaction.watch" (codes "WATCH")
        (str []
          ∷ strs (list_map (sprint w.rt) (to_list (payload_values w.rt (strings_of (k ∷ ks))))))
        s
      ∙ ap (λ xs. (w.rpc (codes "WATCH") (str [] ∷ xs) >>= λ v. pure tt) s)
          (printed-strings_of (k ∷ ks)))
  watch-sent (b ∷ id) k ks s = rw rpc (
      told "transaction.watch" (codes "WATCH")
        (str (b ∷ id)
          ∷ strs (list_map (sprint w.rt) (to_list (payload_values w.rt (strings_of (k ∷ ks))))))
        s
      ∙ ap (λ xs. (w.rpc (codes "WATCH") (str (b ∷ id) ∷ xs) >>= λ v. pure tt) s)
          (printed-strings_of (k ∷ ks)))

  control-sent :
      (id : Bytes) (s : S)
      → (multi w (scope c id) s ≡ (w.rpc (codes "MULTI") (str id ∷ []) >>= λ v. pure tt) s)
        × (discard w (scope c id) s ≡ (w.rpc (codes "DISCARD") (str id ∷ []) >>= λ v. pure tt) s)
        × (unwatch w (scope c id) s ≡ (w.rpc (codes "UNWATCH") (str id ∷ []) >>= λ v. pure tt) s)
  unfolding multi discard unwatch control scope
  control-sent [] s = (
    rw rpc (told "transaction.multi" (codes "MULTI") (str [] ∷ []) s),
    rw rpc (told "transaction.discard" (codes "DISCARD") (str [] ∷ []) s),
    rw rpc (told "transaction.unwatch" (codes "UNWATCH") (str [] ∷ []) s),
  )
  control-sent (b ∷ id) s = (
    rw rpc (told "transaction.multi" (codes "MULTI") (str (b ∷ id) ∷ []) s),
    rw rpc (told "transaction.discard" (codes "DISCARD") (str (b ∷ id) ∷ []) s),
    rw rpc (told "transaction.unwatch" (codes "UNWATCH") (str (b ∷ id) ∷ []) s),
  )

  -- Over SynapRPC Multi, Discard and Unwatch of a transaction scope, and its Watch of at least one
  -- key, execute exactly one command each, of that name, with the id of the scope and the very bytes
  -- of the keys, never inside TXQUEUE; where it is answered they succeed, whatever the answer says.
  pub controls-sent :
      (id k : Bytes) (ks : List Bytes) (s : S)
      → (multi w (scope c id) s ≡ (w.rpc (codes "MULTI") (str id ∷ []) >>= λ v. pure tt) s)
        × (discard w (scope c id) s ≡ (w.rpc (codes "DISCARD") (str id ∷ []) >>= λ v. pure tt) s)
        × (unwatch w (scope c id) s ≡ (w.rpc (codes "UNWATCH") (str id ∷ []) >>= λ v. pure tt) s)
        × (watch w (scope c id) (k ∷ ks) s
            ≡ (w.rpc (codes "WATCH") (str id ∷ strs (k ∷ ks)) >>= λ v. pure tt) s)
  controls-sent id k ks s = let (m, d, u) = control-sent id s in (m, d, u, watch-sent id k ks s)
