-- ===== src/Rpc/Transport/Execute.antt =====
-- How Execute of SynapRpcTransport ends, and what it does to the clients.
use synap_sdk_go.Prelude.{
  ◌≡◌, ◌⊎◌, inl, inr, refl, ℕ, Option, none, some, List, ◌∷◌, map, Bool-cases,
}
use synap_sdk_go.Bytes.{Bytes}
use synap_sdk_go.Value.{Value}
use synap_sdk_go.Value.Text.{Runtime}
use synap_sdk_go.Errors.{synap, server_error}
use synap_sdk_go.Resp3.Outcome.{Outcome, value, error, panic, out_of_fuel}
use synap_sdk_go.Client.Calls.{continue, ◌>>=◌}
use package.synap_sdk_go.Rpc.Values.{Thunder, IsLawful, to_wire, from_wire}
use package.synap_sdk_go.Rpc.Values.Ends.{from_wire-some}
use package.synap_sdk_go.Rpc.Transport.{
  called, Session, Network, Answer, refused, given, keep_client, dial_answer, call_answer,
  read_or_stop, dial, redial, connected, ensure_connected, call, close, execute,
}

module _ (T : Thunder) (net : Network T) where
  -- A value, or an error of the server.
  abbrev pub EndsWell : {A : Type 0} → Outcome A → Type 0
  EndsWell {A} r =
      ((a : A) × (r ≡ value a)) ⊎ ((text : Bytes) × (r ≡ error (synap (server_error text))))

  dial_answer-EndsWell :
      (a : Answer Unit) (t : Session T)
      → EndsWell (let (r, u) = dial_answer T net a t in continue r u (keep_client T net)).0
  dial_answer-EndsWell (refused text) t = inr (_, refl)
  dial_answer-EndsWell (given u) t = inl (t.dials, refl)

  connected-EndsWell : (held : Option ℕ) (t : Session T) → EndsWell (connected T net held t).0
  unfolding redial dial
  connected-EndsWell none t =
      dial_answer-EndsWell (net.connect (close T t).endpoint (close T t).config (close T t).log)
        (close T t)
  connected-EndsWell (some n) t = elim (Bool-cases (net.is_alive n t.log)) [
    | inl e ↦ rw e (inl (n, refl))
    | inr e ↦ rw e (
        dial_answer-EndsWell (net.connect (close T t).endpoint (close T t).config (close T t).log)
          (close T t))
  ]

  bind-EndsWell :
      {A B : Type 0} (x : Outcome A) (t : Session T) (f : A → Session T → Outcome B × Session T)
      → EndsWell x
      → ((a : A) (u : Session T) → EndsWell (f a u).0)
      → EndsWell (continue x t f).0
  bind-EndsWell (value a) t f e h = h a t
  bind-EndsWell (error x) t f (inl (a, p)) h = cc
  bind-EndsWell (error x) t f (inr (text, p)) h = inr (text, cc)
  bind-EndsWell panic t f (inl (a, p)) h = cc
  bind-EndsWell panic t f (inr (text, p)) h = cc
  bind-EndsWell out_of_fuel t f (inl (a, p)) h = cc
  bind-EndsWell out_of_fuel t f (inr (text, p)) h = cc

  call_answer-EndsWell : (a : Answer T.W) (t : Session T) → EndsWell (call_answer T net a t).0
  call_answer-EndsWell (refused text) t = inr (text, refl)
  call_answer-EndsWell (given w) t = inl (w, refl)

  module _ (rt : Runtime) where
    read-EndsWell : IsLawful T → (w : T.W) → EndsWell (read_or_stop T net (from_wire rt T w))
    read-EndsWell law w = let (v, e) = from_wire-some rt T law w in inl (v, rw e)

    -- Execute over SynapRPC always returns a value or a SynapError of the server kind: it neither
    -- panics nor, the values of the wire being finite, reads without an end.
    pub execute-EndsWell :
        (cmd : Bytes) (args : List Value) (t : Session T)
        → IsLawful T
        → EndsWell (execute T net rt cmd args t).0
    unfolding execute ensure_connected call
    execute-EndsWell cmd args t law =
        bind-EndsWell (ensure_connected T net t).0 (ensure_connected T net t).1
          (λ n. call T net n cmd (map (to_wire rt T) args) >>= λ result u.
            (read_or_stop T net (from_wire rt T result), u))
          (connected-EndsWell t.client t)
          λ n u.
            bind-EndsWell (call T net n cmd (map (to_wire rt T) args) u).0
              (call T net n cmd (map (to_wire rt T) args) u).1
              (λ result u'. (read_or_stop T net (from_wire rt T result), u'))
              (call_answer-EndsWell (net.call n cmd (map (to_wire rt T) args) u.log)
                (record u { log = called n cmd (map (to_wire rt T) args) ∷ u.log }))
              (λ w u'. read-EndsWell law w)
