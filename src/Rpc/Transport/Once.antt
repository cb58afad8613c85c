-- ===== src/Rpc/Transport/Once.antt =====
-- How often Execute of SynapRpcTransport sends a command, and what it answers by.
use synap_sdk_go.Prelude.{
  ◌≡◌, ◌≤◌, ◌+◌, refl, ◌∙◌, ℕ, suc, Option, none, some, List, [], ◌∷◌, map, arith, Bool-cases, inl,
  inr,
}
use synap_sdk_go.Bytes.{Bytes}
use synap_sdk_go.Value.{Value}
use synap_sdk_go.Value.Text.{Runtime}
use synap_sdk_go.Resp3.Outcome.{Outcome, value, error, panic, out_of_fuel}
use synap_sdk_go.Client.Calls.{continue}
use package.synap_sdk_go.Rpc.Values.{Thunder, to_wire, from_wire}
use package.synap_sdk_go.Rpc.Transport.{
  Event, dialled, hooked, closed, called, Session, Network, Answer, refused, given, keep_client,
  dial_answer, call_answer, read_or_stop, drop_client, dial, redial, connected, ensure_connected,
  call, close, execute,
}

-- How many commands were sent.
unfoldable pub calls : {T : Thunder} → List (Event T) → ℕ
calls [] = 0
calls (called n cmd args ∷ log) = suc (calls log)
calls (dialled n there ∷ log) = calls log
calls (hooked n ∷ log) = calls log
calls (closed n ∷ log) = calls log

module _ (T : Thunder) (net : Network T) where
  -- A connection was looked for: nothing was sent, and what was found is held.
  record IsQuiet (t : Session T) (x : Outcome ℕ × Session T) : Type 0 where
    same : calls x.1.log ≡ calls t.log
    holds : (n : ℕ) → x.0 ≡ value n → x.1.client ≡ some n

  drop_client-calls :
      (held : Option ℕ) (t : Session T) → calls (drop_client T held t).log ≡ calls t.log
  unfolding calls
  drop_client-calls none t = refl
  drop_client-calls (some n) t = refl

  keep_answer-IsQuiet :
      (a : Answer Unit) (t : Session T)
      → IsQuiet t (let (r, u) = dial_answer T net a t in continue r u (keep_client T net))
  unfolding calls
  keep_answer-IsQuiet (refused text) t = record { same = refl; holds = λ n e. absurd (cc e) }
  keep_answer-IsQuiet (given u) t = record { same = refl; holds = λ n e. cc e }

  redial-IsQuiet : (t : Session T) → IsQuiet t (redial T net t)
  unfolding redial dial close
  redial-IsQuiet t =
      let q =
        keep_answer-IsQuiet (net.connect (close T t).endpoint (close T t).config (close T t).log)
          (close T t) in
      record { same = q.same ∙ drop_client-calls t.client t; holds = q.holds }

  connected-IsQuiet :
      (held : Option ℕ) (t : Session T) → t.client ≡ held → IsQuiet t (connected T net held t)
  unfolding connected redial
  connected-IsQuiet none t h = redial-IsQuiet t
  connected-IsQuiet (some n) t h = elim (Bool-cases (net.is_alive n t.log)) [
    | inl e ↦ rw e (record { same = refl; holds = λ m p. cc (h, p) })
    | inr e ↦ rw e (redial-IsQuiet t)
  ]

  module _ (rt : Runtime) (cmd : Bytes) (args : List Value) where
    -- The value of the answer to one call, the only one since.
    abbrev pub IsAnswer : Session T → Session T → Value → Type 0
    unfolding to_wire
    IsAnswer t u v =
        (n : ℕ) × (before : List (Event T)) × (w : T.W) × (u.client ≡ some n)
        × (u.log ≡ called n cmd (map (to_wire rt T) args) ∷ before)
        × (calls before ≡ calls t.log)
        × (net.call n cmd (map (to_wire rt T) args) before ≡ given w)
        × (from_wire rt T w ≡ some v)

    abbrev IsOnce : Session T → Outcome Value × Session T → Type 0
    IsOnce t x =
        (calls x.1.log ≤ calls t.log + 1) × ((v : Value) → x.0 ≡ value v → IsAnswer t x.1 v)

    read_answer-IsAnswer :
        (found : Option Value) (v : Value) → read_or_stop T net found ≡ value v → found ≡ some v
    read_answer-IsAnswer none v e = absurd (cc e)
    read_answer-IsAnswer (some x) v e = cc e

    answer-IsOnce :
        (n : ℕ) (t u : Session T) (a : Answer T.W)
        → calls u.log ≡ calls t.log
        → u.client ≡ some n
        → net.call n cmd (map (to_wire rt T) args) u.log ≡ a
        → IsOnce t (
            let (r, x) =
              call_answer T net a
                (record u { log = called n cmd (map (to_wire rt T) args) ∷ u.log }) in
            continue r x (λ result y. (read_or_stop T net (from_wire rt T result), y)))
    unfolding calls IsAnswer
    answer-IsOnce n t u (refused text) s h e = (omega (arith, s), λ v p. absurd (cc p))
    answer-IsOnce n t u (given w) s h e = (
      omega (arith, s),
      λ v p. (n, u.log, w, h, refl, s, e, read_answer-IsAnswer (from_wire rt T w) v p),
    )

    send-IsOnce :
        (t : Session T) (x : Outcome ℕ) (u : Session T)
        → IsQuiet t (x, u)
        → IsOnce t (
            continue x u λ n. λ y.
              (let (r, z) = call T net n cmd (map (to_wire rt T) args) y in
                continue r z (λ result z'. (read_or_stop T net (from_wire rt T result), z'))))
    unfolding call
    send-IsOnce t (value n) u q =
        answer-IsOnce n t u (net.call n cmd (map (to_wire rt T) args) u.log) q.same (q.holds n refl)
          refl
    send-IsOnce t (error e) u q = (omega (arith, q.same), λ v p. absurd (cc p))
    send-IsOnce t panic u q = (omega (arith, q.same), λ v p. absurd (cc p))
    send-IsOnce t out_of_fuel u q = (omega (arith, q.same), λ v p. absurd (cc p))

    execute-IsOnce : (t : Session T) → IsOnce t (execute T net rt cmd args t)
    unfolding execute ensure_connected
    execute-IsOnce t =
        send-IsOnce t (connected T net t.client t).0 (connected T net t.client t).1
          (connected-IsQuiet t.client t refl)

    -- A value that Execute returns over SynapRPC is that of Thunder's answer to one call of this
    -- command with these arguments, made on the client that the transport then holds, and nothing
    -- else was sent before it or after it.
    pub execute-answered :
        (t : Session T) (v : Value)
        → (execute T net rt cmd args t).0 ≡ value v
        → IsAnswer t (execute T net rt cmd args t).1 v
    execute-answered t v e = (execute-IsOnce t).1 v e
