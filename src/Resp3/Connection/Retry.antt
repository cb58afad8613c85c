-- ===== src/Resp3/Connection/Retry.antt =====
-- The second attempt of Execute, after a connection that turned out to be lost.
use synap_sdk_go.Prelude.{ℕ, zero, suc, ◌+◌, ◌≡◌, ◌⊎◌, inl, inr, Option, none, some, List, ◌∷◌}
use synap_sdk_go.Bytes.{Bytes}
use synap_sdk_go.Value.{Value}
use synap_sdk_go.Value.Text.{Runtime}
use synap_sdk_go.Errors.{SynapError, synap, wrapped}
use package.synap_sdk_go.Resp3.Outcome.{Outcome, value, error, of_result}
use package.synap_sdk_go.Resp3.Frame.{build_multibulk}
use package.synap_sdk_go.Resp3.Reader.{read_reply}
use package.synap_sdk_go.Resp3.Protocol.{Reply, encode, meaning, WellFormed}
use package.synap_sdk_go.Resp3.Connection.{Conn, Event, dialled, hung_up, sent, attempts, execute}
use package.synap_sdk_go.Resp3.Connection.Session.{live, IsFlat, flat-settles, flat-read}

module _ (rt : Runtime) (dial : ℕ → Option Conn) where
  -- An attempt that dials, with what it finds at the other end.
  attempt-dial :
      (n : ℕ) (frame : Bytes) (d m : ℕ) (s rest : Bytes) (log : List Event) (o : Outcome Value)
      → dial d ≡ some (record { accepts = suc m; incoming = s })
      → ((v : Value) × (o ≡ value v)) ⊎ ((e : SynapError) × (o ≡ error (synap e)))
      → read_reply rt s ≡ (o, rest)
      → attempts rt dial (suc n) frame (record { conn = none; dials = d; log = log })
        ≡ (o, live m rest (d + 1) (sent frame ∷ dialled ∷ log))
  unfolding attempts
  attempt-dial n frame d m s rest log o a (inl (v, e)) h = rw (a, h, e)
  attempt-dial n frame d m s rest log o a (inr (x, e)) h = rw (a, h, e)

  -- A connection that accepts no frame, or on which reading the reply fails.
  abbrev pub IsLost : ℕ → Bytes → Type 0
  IsLost zero s = Unit
  IsLost (suc n) s = (text rest : Bytes) × (read_reply rt s ≡ (error (wrapped text), rest))

  -- The frame is in the log already if the lost connection took it.
  abbrev pub lost_log : ℕ → Bytes → List Event → List Event
  lost_log zero frame log = log
  lost_log (suc n) frame log = sent frame ∷ log

  -- After a lost connection Execute dials once, writes the command again and returns the reply of
  -- the new connection, which is kept. A command whose frame was written and whose reply could not
  -- be read is thereby written twice.
  pub execute-lost :
      (cmd : Bytes) (args : List Value) (n : ℕ) (s : Bytes) (d m : ℕ) (r : Reply) (rest : Bytes)
      (log : List Event)
      → IsLost n s
      → dial d ≡ some (record { accepts = suc m; incoming = encode r rest })
      → WellFormed rt r
      → IsFlat rt r
      → let frame = build_multibulk rt cmd args in
        execute rt dial cmd args (live n s d log) ≡ (
          of_result (meaning rt r),
          live m rest (d + 1) (sent frame ∷ dialled ∷ hung_up ∷ lost_log n frame log),
        )
  execute-lost cmd args zero s d m r rest log h a w f =
      unfold execute attempts in
      attempt-dial 0 _ d m (encode r rest) rest (hung_up ∷ log) _ a (flat-settles rt dial r f)
        (flat-read rt dial r rest w f)
  execute-lost cmd args (suc n) s d m r rest log (text, behind, h) a w f =
      unfold execute attempts in
      rw h (
        attempt-dial 0 _ d m (encode r rest) rest
          (hung_up ∷ sent (build_multibulk rt cmd args) ∷ log) _ a (flat-settles rt dial r f)
          (flat-read rt dial r rest w f))
