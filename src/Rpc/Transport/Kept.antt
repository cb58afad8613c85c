-- ===== src/Rpc/Transport/Kept.antt =====
-- ensureConnected, dial and Close keep the books.
use synap_sdk_go.Prelude.{Bool-cases, inl, inr, ◌≡◌, refl, ℕ, Option, none, some, List, ◌∷◌}
use synap_sdk_go.Bytes.{Bytes}
use synap_sdk_go.Resp3.Outcome.{Outcome, value}
use synap_sdk_go.Client.Calls.{continue}
use package.synap_sdk_go.Rpc.Values.{Thunder}
use package.synap_sdk_go.Rpc.Transport.{
  Event, ClientConfig, Session, Network, Answer, refused, given, keep_client, dial_answer, dial,
  redial, connected, ensure_connected, close, call, call_answer, called,
}
use package.synap_sdk_go.Rpc.Transport.Balance.{
  IsBalanced, dial_failed-IsBalanced, dial_push-IsBalanced, dial_keep-IsBalanced, drop-IsBalanced,
}

abbrev pub BalancedWith : {T : Thunder} → List ℕ → Session T → Type 0
BalancedWith subs t = IsBalanced t.client t.dials t.log subs

abbrev holding : {T : Thunder} → Bytes → ClientConfig → ℕ → List (Event T) → Option ℕ → Session T
holding endpoint config dials log held = record {
  endpoint = endpoint;
  config = config;
  client = held;
  dials = dials;
  log = log;
}

-- A client that was dialled for a subscription goes to the books of those.
abbrev pub subs_with : {T : Thunder} → List ℕ → Outcome ℕ × Session T → List ℕ
subs_with subs (value n, t) = n ∷ subs
subs_with subs (r, t) = subs

module _ (T : Thunder) (subs : List ℕ) where
  close-holding :
      (endpoint : Bytes) (config : ClientConfig) (dials : ℕ) (log : List (Event T))
      (held : Option ℕ)
      → IsBalanced held dials log subs
      → BalancedWith subs (close T (holding endpoint config dials log held))
        × ((close T (holding endpoint config dials log held)).client ≡ none)
  unfolding close
  close-holding endpoint config dials log none b = (b, refl)
  close-holding endpoint config dials log (some m) b = (drop-IsBalanced dials log subs m b, refl)

  pub close-Balanced :
      (t : Session T)
      → BalancedWith subs t
      → BalancedWith subs (close T t) × ((close T t).client ≡ none)
  close-Balanced t b = close-holding t.endpoint t.config t.dials t.log t.client b

  module _ (net : Network T) where
    dial_answer-Balanced :
        (a : Answer Unit) (t : Session T)
        → BalancedWith subs t
        → BalancedWith (subs_with subs (dial_answer T net a t)) (dial_answer T net a t).1
    dial_answer-Balanced (refused text) t b = dial_failed-IsBalanced t.client t.dials t.log subs b
    dial_answer-Balanced (given u) t b = dial_push-IsBalanced t.client t.dials t.log subs b

    pub dial-Balanced :
        (t : Session T)
        → BalancedWith subs t
        → BalancedWith (subs_with subs (dial T net t)) (dial T net t).1
    unfolding dial
    dial-Balanced t b = dial_answer-Balanced (net.connect t.endpoint t.config t.log) t b

    keep_answer-Balanced :
        (a : Answer Unit) (t : Session T)
        → t.client ≡ none
        → BalancedWith subs t
        → BalancedWith subs
            (let (r, u) = dial_answer T net a t in continue r u (keep_client T net)).1
    keep_answer-Balanced (refused text) t e b = dial_failed-IsBalanced t.client t.dials t.log subs b
    keep_answer-Balanced (given u) t e b = dial_keep-IsBalanced t.dials t.log subs (rw e at b)

    redial-Balanced : (t : Session T) → BalancedWith subs t → BalancedWith subs (redial T net t).1
    unfolding redial dial
    redial-Balanced t b =
        let (c, e) = close-Balanced t b in
        keep_answer-Balanced (net.connect (close T t).endpoint (close T t).config (close T t).log)
          (close T t) e c

    connected-Balanced :
        (held : Option ℕ) (t : Session T)
        → BalancedWith subs t
        → BalancedWith subs (connected T net held t).1
    unfolding redial
    connected-Balanced none t b = redial-Balanced t b
    connected-Balanced (some n) t b = elim (Bool-cases (net.is_alive n t.log)) [
      | inl e ↦ rw e b
      | inr e ↦ rw e (redial-Balanced t b)
    ]

    pub ensure_connected-Balanced :
        (t : Session T) → BalancedWith subs t → BalancedWith subs (ensure_connected T net t).1
    unfolding ensure_connected
    ensure_connected-Balanced t b = connected-Balanced t.client t b

module _ (T : Thunder) (net : Network T) where
  call_answer_session : (a : Answer T.W) (t : Session T) → (call_answer T net a t).1 ≡ t
  call_answer_session (refused text) t = refl
  call_answer_session (given w) t = refl

  -- A call only stands in the log.
  pub call_session :
      (n : ℕ) (cmd : Bytes) (args : List T.W) (t : Session T)
      → (call T net n cmd args t).1 ≡ record t { log = called n cmd args ∷ t.log }
  unfolding call
  call_session n cmd args t =
      call_answer_session (net.call n cmd args t.log) (record t { log = called n cmd args ∷ t.log })
