-- ===== src/Resp3/Connection/Session.antt =====
-- Which reply answers which command on one connection.
use synap_sdk_go.Prelude.{
  ℕ, zero, suc, ◌+◌, ◌≡◌, refl, ap, ◌⊎◌, inl, inr, Option, some, List, [], ◌∷◌, map, arith, length,
  All,
}
use synap_sdk_go.Bytes.{Bytes}
use synap_sdk_go.Value.{Value}
use synap_sdk_go.Value.Text.{Runtime}
use synap_sdk_go.Errors.{SynapError, ok, synap, server_error}
use package.synap_sdk_go.Resp3.Outcome.{Outcome, value, error, of_result}
use package.synap_sdk_go.Resp3.Frame.{build_multibulk}
use package.synap_sdk_go.Resp3.Reader.{read_reply}
use package.synap_sdk_go.Resp3.Protocol.{
  Reply, Replies, failure, blob_error, array, reply, encode, encode_items, meaning, WellFormed,
  unread,
}
use package.synap_sdk_go.Resp3.Protocol.Whole.{read_reply-encode, read_reply-nested_error}
use package.synap_sdk_go.Resp3.Protocol.Steps.{unread-ok}
use package.synap_sdk_go.Resp3.Connection.{Conn, Event, sent, Transport, attempts, execute}

-- A transport with a connection that accepts n more frames and delivers the bytes s.
abbrev pub live : ℕ → Bytes → ℕ → List Event → Transport
live n s dials log = record {
  conn = some (record { accepts = n; incoming = s });
  dials = dials;
  log = log;
}

-- A reply that is a value, or an error as a whole.
abbrev pub IsFlat : Runtime → Reply → Type 0
IsFlat rt r =
    ((v : Value) × (meaning rt r ≡ ok v))
    ⊎ ((msg : Bytes) × (r ≡ failure msg))
    ⊎ ((msg : Bytes) × (r ≡ blob_error msg))

-- The bytes of replies, one behind the other.
abbrev pub encode_all : List Reply → Bytes → Bytes
encode_all [] rest = rest
encode_all (r ∷ rs) rest = encode r (encode_all rs rest)

abbrev pub Sent : Type 0
Sent = Bytes × List Value

module _ (rt : Runtime) (dial : ℕ → Option Conn) where
  -- A reply that is a value or an error of the server ends the first attempt.
  execute-live :
      (cmd : Bytes) (args : List Value) (n d : ℕ) (s rest : Bytes) (log : List Event)
      (o : Outcome Value)
      → ((v : Value) × (o ≡ value v)) ⊎ ((e : SynapError) × (o ≡ error (synap e)))
      → read_reply rt s ≡ (o, rest)
      → execute rt dial cmd args (live (suc n) s d log)
        ≡ (o, live n rest d (sent (build_multibulk rt cmd args) ∷ log))
  unfolding execute attempts
  execute-live cmd args n d s rest log o (inl (v, e)) h = rw (h, e)
  execute-live cmd args n d s rest log o (inr (x, e)) h = rw (h, e)

  flat-unread : (r : Reply) (rest : Bytes) → IsFlat rt r → unread rt r rest ≡ rest
  unfolding unread
  flat-unread r rest (inl (v, e)) = unread-ok rt r v rest e
  flat-unread r rest (inr (inl (msg, e))) = rw e
  flat-unread r rest (inr (inr (msg, e))) = rw e

  pub flat-settles :
      (r : Reply)
      → IsFlat rt r
      → let o = of_result (meaning rt r) in
        ((v : Value) × (o ≡ value v)) ⊎ ((e : SynapError) × (o ≡ error (synap e)))
  unfolding meaning
  flat-settles r (inl (v, e)) = inl (v, rw e)
  flat-settles r (inr (inl (msg, e))) = inr (server_error msg, rw e)
  flat-settles r (inr (inr (msg, e))) = inr (server_error msg, rw e)

  pub flat-read :
      (r : Reply) (rest : Bytes)
      → WellFormed rt r
      → IsFlat rt r
      → read_reply rt (encode r rest) ≡ (of_result (meaning rt r), rest)
  flat-read r rest h f = rw (read_reply-encode rt r rest h, flat-unread r rest f)

  -- One command on a live connection: its answer is the reply that comes next.
  pub execute-flat :
      (cmd : Bytes) (args : List Value) (n d : ℕ) (r : Reply) (rest : Bytes) (log : List Event)
      → WellFormed rt r
      → IsFlat rt r
      → execute rt dial cmd args (live (suc n) (encode r rest) d log)
        ≡ (of_result (meaning rt r), live n rest d (sent (build_multibulk rt cmd args) ∷ log))
  execute-flat cmd args n d r rest log h f =
      execute-live cmd args n d (encode r rest) rest log (of_result (meaning rt r))
        (flat-settles r f) (flat-read r rest h f)

  -- Commands one after the other.
  unfoldable pub execute_all : List Sent → Transport → List (Outcome Value) × Transport
  execute_all [] t = ([], t)
  execute_all ((cmd, args) ∷ cs) t =
      let (o, t') = execute rt dial cmd args t in let (os, t'') = execute_all cs t' in (o ∷ os, t'')

  abbrev pub frames_of : List Sent → List Event → List Event
  frames_of [] log = log
  frames_of ((cmd, args) ∷ cs) log = frames_of cs (sent (build_multibulk rt cmd args) ∷ log)

  -- On a connection that stays up, the replies answer the commands in their order, one each, if no
  -- error is nested in a reply; each command is written once, and nothing is dialled or closed.
  pub execute_all-in_order :
      (cs : List Sent) (rs : List Reply) (m n d : ℕ) (rest : Bytes) (log : List Event)
      → length cs ≡ length rs
      → m ≡ length cs + n
      → All (λ r. WellFormed rt r × IsFlat rt r) rs
      → execute_all cs (live m (encode_all rs rest) d log)
        ≡ (map (λ r. of_result (meaning rt r)) rs, live n rest d (frames_of cs log))
  unfolding execute_all
  execute_all-in_order [] [] m n d rest log e k h =
      ap (λ (x : ℕ). ([], live x rest d log)) (omega arith)
  execute_all-in_order [] (r ∷ rs) m n d rest log e k h = absurd (omega arith)
  execute_all-in_order (c ∷ cs) [] m n d rest log e k h = absurd (omega arith)
  execute_all-in_order (c ∷ cs) (r ∷ rs) zero n d rest log e k h = absurd (omega arith)
  execute_all-in_order ((cmd, args) ∷ cs) (r ∷ rs) (suc m) n d rest log e k ((w, f), hs) = rw (
    execute-flat cmd args m d r (encode_all rs rest) log w f,
    execute_all-in_order cs rs m n d rest (sent (build_multibulk rt cmd args) ∷ log) (omega arith)
        (omega arith) hs,
  )

  -- After a reply whose first element is an error the connection is kept with the other elements
  -- unread: the next command is answered by the second element, and its own reply stays behind.
  pub execute_all-nested_error :
      (c c' : Sent) (msg : Bytes) (r : Reply) (rs : Replies) (own : Bytes) (n d : ℕ)
      (log : List Event)
      → WellFormed rt (array (reply (failure msg) (reply r rs)))
      → IsFlat rt r
      → execute_all
          (c ∷ c' ∷ [])
          (live (suc (suc n)) (encode (array (reply (failure msg) (reply r rs))) own) d log)
        ≡ (
          error (synap (server_error msg)) ∷ of_result (meaning rt r) ∷ [],
          live n (encode_items rs own) d (frames_of (c ∷ c' ∷ []) log),
        )
  unfolding execute_all encode
  execute_all-nested_error (cmd, args) (cmd', args') msg r rs own n d log h f = rw (
    execute-live cmd args (suc n) d _ (encode r (encode_items rs own)) log _
        (inr (server_error msg, refl)) (read_reply-nested_error rt msg (reply r rs) own h),
    execute-flat cmd' args' n d r (encode_items rs own) (sent (build_multibulk rt cmd args) ∷ log)
        h.1.1.0 f,
  )
