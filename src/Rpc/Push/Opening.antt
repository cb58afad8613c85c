-- ===== src/Rpc/Push/Opening.antt =====
-- What SubscribePush and WatchPush do to the clients, in which order.
use synap_sdk_go.Prelude.{◌≡◌, refl, ◌+◌, true, false, Option, List, ◌∷◌, map}
use synap_sdk_go.Bytes.{Bytes, codes}
use synap_sdk_go.Errors.{synap, server_error}
use synap_sdk_go.Resp3.Outcome.{Outcome, value, error}
use synap_sdk_go.Client.Calls.{continue, ◌>>=◌, pure}
use package.synap_sdk_go.Rpc.Values.{Thunder}
use package.synap_sdk_go.Rpc.Transport.{
  Event, dialled, hooked, called, closed, Session, Network, Answer, refused, given, dial_answer,
  call_answer, dial_failed, dial, call,
}
use package.synap_sdk_go.Rpc.Push.{
  Subscription, subscription, open_push, subscribe_push, watch_push, watch_args, hook, or_close,
  subscribe_call,
}

module _ (T : Thunder) (net : Network T) (map_get : T.W → Bytes → Option T.W) where
  -- The transport after one more dial, with these events.
  abbrev pub after_dial : Session T → List (Event T) → Session T
  after_dial t log = record t { dials = t.dials + 1; log = log }

  -- What net.connect answers to a dial, and net.call to the command on the client that was dialled,
  -- with the hook in place.
  abbrev pub reached : Session T → Answer Unit
  reached t = net.connect t.endpoint t.config t.log

  abbrev pub replied : Bytes → List T.W → Session T → Answer T.W
  replied cmd args t = net.call t.dials cmd args (hooked t.dials ∷ dialled t.dials true ∷ t.log)

  -- The ways that opening a subscription ends, by the answers of the network. The client that the
  -- transport holds is never touched.
  pub data Opening (cmd : Bytes) (args : List T.W) (t : Session T)
      : Outcome Subscription × Session T → Type 0 where
    -- the dial is refused: an error, no client, and nothing is sent
    unreachable :
        (text : Bytes)
        → reached t ≡ refused text
        → Opening cmd args t (
          error (dial_failed T net t.endpoint text),
          after_dial t (dialled t.dials false ∷ t.log),
        )
    -- the dial succeeds and the command fails: an error, and the new client is closed
    rejected :
        (text : Bytes)
        → reached t ≡ given tt
        → replied cmd args t ≡ refused text
        → Opening cmd args t (
          error (synap (server_error text)),
          after_dial t (
              closed t.dials
              ∷ called t.dials cmd args
              ∷ hooked t.dials
              ∷ dialled t.dials true
              ∷ t.log),
        )
    -- the dial succeeds and the command is answered: a subscription, whose client stays open
    accepted :
        (ack : T.W)
        → reached t ≡ given tt
        → replied cmd args t ≡ given ack
        → Opening cmd args t (
          value (subscription T net map_get t.dials ack),
          after_dial t (called t.dials cmd args ∷ hooked t.dials ∷ dialled t.dials true ∷ t.log),
        )

  call_answer-Opening :
      (cmd : Bytes) (args : List T.W) (t : Session T) (a : Answer T.W)
      → reached t ≡ given tt
      → replied cmd args t ≡ a
      → Opening cmd args t (
          let (r, u) = or_close T net map_get t.dials (
            call_answer T net a (
              after_dial t
                (called t.dials cmd args ∷ hooked t.dials ∷ dialled t.dials true ∷ t.log))) in
          continue r u (λ ack. pure (subscription T net map_get t.dials ack)))
  call_answer-Opening cmd args t (refused text) h e = rejected text h e
  call_answer-Opening cmd args t (given ack) h e = accepted ack h e

  dial_answer-Opening :
      (cmd : Bytes) (args : List T.W) (t : Session T) (a : Answer Unit)
      → reached t ≡ a
      → Opening cmd args t (
          let (r, u) = dial_answer T net a t in
          continue r u λ n. hook T n >>= λ registered.
          subscribe_call T net map_get n cmd args >>= λ ack.
          pure (subscription T net map_get n ack))
  unfolding call
  dial_answer-Opening cmd args t (refused text) e = unreachable text e
  dial_answer-Opening cmd args t (given u) e =
      call_answer-Opening cmd args t (replied cmd args t) e refl

  -- SubscribePush and WatchPush dial a client of their own, register the hook, and only then send
  -- their command, so that no message is lost between. Where the network refuses the dial they fail and
  -- send nothing; where it answers the command with an error they fail with that error and close that
  -- client; and where it gives an acknowledgement they succeed with the subscription of that client,
  -- which stays open. The client that the transport holds is never touched.
  pub open_push-Opening :
      (topics : List Bytes) (pattern mode : Bytes) (t : Session T)
      → Opening (codes "SUBSCRIBE") (map T.string topics) t (subscribe_push T net map_get topics t)
        × Opening
            (codes "KV.WATCH")
            (watch_args T net map_get pattern mode)
            t
            (watch_push T net map_get pattern mode t)
  unfolding subscribe_push watch_push open_push dial
  open_push-Opening topics pattern mode t = (
    dial_answer-Opening (codes "SUBSCRIBE") (map T.string topics) t (reached t) refl,
    dial_answer-Opening (codes "KV.WATCH") (watch_args T net map_get pattern mode) t (reached t)
        refl,
  )
