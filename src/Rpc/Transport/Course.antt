-- ===== src/Rpc/Transport/Course.antt =====
-- What Execute of SynapRpcTransport does by the answers of the network.
use synap_sdk_go.Prelude.{
  ◌≡◌, refl, ap, ℕ, ◌+◌, true, false, Bool-cases, inl, inr, Option, none, some, List, ◌∷◌, map,
}
use synap_sdk_go.Bytes.{Bytes}
use synap_sdk_go.Value.{Value}
use synap_sdk_go.Value.Text.{Runtime}
use synap_sdk_go.Errors.{synap, server_error}
use synap_sdk_go.Resp3.Outcome.{Outcome, value, error}
use synap_sdk_go.Client.Calls.{continue, ◌>>=◌}
use package.synap_sdk_go.Rpc.Values.{Thunder, IsLawful, to_wire, from_wire}
use package.synap_sdk_go.Rpc.Values.Ends.{from_wire-some}
use package.synap_sdk_go.Rpc.Transport.{
  dialled, called, closed, Session, Network, Answer, refused, given, keep_client, dial_answer,
  call_answer, read_or_stop, dial, redial, connected, ensure_connected, call, close, drop_client,
  dial_failed, execute,
}

module _ (T : Thunder) (net : Network T) where
  -- The transport without a client: it held none, or a dead one, which is closed first.
  pub data Cleared (t : Session T) : Session T → Type 0 where
    none_held : t.client ≡ none → Cleared t t
    dead_closed :
        (n : ℕ)
        → t.client ≡ some n
        → net.is_alive n t.log ≡ false
        → Cleared t (record t { client = none; log = closed n ∷ t.log })

  -- The client that serves a command, and the transport that holds it.
  pub data Serves (t : Session T) : ℕ → Session T → Type 0 where
    alive : (n : ℕ) → t.client ≡ some n → net.is_alive n t.log ≡ true → Serves t n t
    anew :
        (s : Session T)
        → Cleared t s
        → net.connect s.endpoint s.config s.log ≡ given tt
        → Serves t s.dials (record s {
          client = some s.dials;
          dials = s.dials + 1;
          log = dialled s.dials true ∷ s.log;
        })

  module _ (rt : Runtime) where
    abbrev pub sent : ℕ → Bytes → List Value → Session T → Session T
    unfolding to_wire
    sent n cmd args u = record u { log = called n cmd (map (to_wire rt T) args) ∷ u.log }

    -- How Execute ends.
    pub data Course (cmd : Bytes) (args : List Value) (t : Session T)
        : Outcome Value × Session T → Type 0 where
      -- no client serves, and the dial is refused: nothing is sent, and no client is held
      unreachable :
          (s : Session T) (text : Bytes)
          → Cleared t s
          → net.connect s.endpoint s.config s.log ≡ refused text
          → Course cmd args t (
            error (dial_failed T net s.endpoint text),
            record s { dials = s.dials + 1; log = dialled s.dials false ∷ s.log },
          )
      -- the command fails: its error, and the client stays held
      failed :
          (n : ℕ) (u : Session T) (text : Bytes)
          → Serves t n u
          → net.call n cmd (map (to_wire rt T) args) u.log ≡ refused text
          → Course cmd args t (error (synap (server_error text)), sent n cmd args u)
      -- the command is answered: the value that is read from the answer
      answered :
          (n : ℕ) (u : Session T) (w : T.W) (v : Value)
          → Serves t n u
          → net.call n cmd (map (to_wire rt T) args) u.log ≡ given w
          → from_wire rt T w ≡ some v
          → Course cmd args t (value v, sent n cmd args u)

    module _ (law : IsLawful T) (cmd : Bytes) (args : List Value) (t : Session T) where
      call_answer-Course :
          (n : ℕ) (u : Session T) (a : Answer T.W)
          → Serves t n u
          → net.call n cmd (map (to_wire rt T) args) u.log ≡ a
          → Course cmd args t (
              let (r, u') = call_answer T net a (sent n cmd args u) in
              continue r u' (λ w x. (read_or_stop T net (from_wire rt T w), x)))
      call_answer-Course n u (refused text) h e = failed n u text h e
      call_answer-Course n u (given w) h e =
          let (v, k) = from_wire-some rt T law w in rw k (answered n u w v h e k)

      served : ℕ → Session T → Outcome Value × Session T
      unfolding call to_wire from_wire
      served n u =
          (call T net n cmd (map (to_wire rt T) args) >>= λ w x.
          (read_or_stop T net (from_wire rt T w), x))
            u

      Serves-Course : (n : ℕ) (u : Session T) → Serves t n u → Course cmd args t (served n u)
      unfolding served call
      Serves-Course n u h =
          call_answer-Course n u (net.call n cmd (map (to_wire rt T) args) u.log) h refl

      dial_answer-Course :
          (s : Session T) (a : Answer Unit)
          → Cleared t s
          → net.connect s.endpoint s.config s.log ≡ a
          → Course cmd args t (
              let (r, u) = dial_answer T net a s in
              let (r', u') = continue r u (keep_client T net) in continue r' u' served)
      dial_answer-Course s (refused text) h e = unreachable s text h e
      dial_answer-Course s (given u) h e = Serves-Course s.dials _ (anew s h e)

      redial-Course :
          (s : Session T)
          → close T t ≡ s
          → Cleared t s
          → Course cmd args t (let (r, u) = redial T net t in continue r u served)
      unfolding redial dial
      redial-Course s e h =
          rw e (dial_answer-Course s (net.connect s.endpoint s.config s.log) h refl)

      connected-Course :
          (held : Option ℕ)
          → t.client ≡ held
          → Course cmd args t (let (r, u) = connected T net held t in continue r u served)
      unfolding close connected redial
      connected-Course none h = redial-Course t (ap (λ c. drop_client T c t) h) (none_held h)
      connected-Course (some n) h = elim (Bool-cases (net.is_alive n t.log)) [
        | inl e ↦ rw e (Serves-Course n t (alive n h e))
        | inr e ↦ rw e (redial-Course _ (ap (λ c. drop_client T c t) h) (dead_closed n h e))
      ]

    -- Execute over SynapRPC takes one of these courses, whatever it holds and the network answers.
    -- A client that is held and alive serves; else a dead one is closed and a new one dialled. Where
    -- the dial is refused the error names the endpoint, nothing is sent, and no client is held. Otherwise
    -- the command is sent once, to the client that serves, which stays held: where the call fails
    -- Execute returns its error, and where it is answered the value that fromWire reads. The values of
    -- the wire are finite.
    pub execute-Course :
        (cmd : Bytes) (args : List Value) (t : Session T)
        → IsLawful T
        → Course cmd args t (execute T net rt cmd args t)
    unfolding execute ensure_connected served
    execute-Course cmd args t law = connected-Course law cmd args t t.client refl
