-- ===== src/Resp3/Connection.antt =====
-- Resp3Transport of transport_resp3.go: doConnect, Execute and Close. A connection is what it will
-- still do: the number of writes that it will still accept, and the bytes that it will deliver
-- before the deadline of the call that reads them. The log has the effects, the newest first.
pub mod Bounds
pub mod Session
pub mod Retry
use synap_sdk_go.Prelude.{
  ℕ, zero, suc, ◌+◌, Bool, true, false, Option, none, some, List, [], ◌∷◌, ◌==◌, if◌then◌else◌,
  String,
}
use synap_sdk_go.Bytes.{Bytes, codes}
use synap_sdk_go.Value.{Value}
use synap_sdk_go.Value.Text.{Runtime}
use synap_sdk_go.Errors.{Error, synap, wrapped, is_synap_error}
use package.synap_sdk_go.Resp3.Outcome.{Outcome, value, error, panic, out_of_fuel}
use package.synap_sdk_go.Resp3.Frame.{build_multibulk}
use package.synap_sdk_go.Resp3.Reader.{read_reply}

pub record Conn : Type 0 where
  pub accepts : ℕ
  pub incoming : Bytes

pub data Event : Type 0 where
  dialled hung_up : Event
  sent : Bytes → Event

pub record Transport : Type 0 where
  pub conn : Option Conn
  pub dials : ℕ
  pub log : List Event

abbrev pub Run : Type 0
Run = Outcome Value × Transport

-- conn.Close(), conn = nil, reader = nil
unfoldable pub hang_up : Transport → Transport
hang_up t = record t { conn = none; log = hung_up ∷ t.log }

-- newResp3Transport; the host and the port are those that the dials go to.
abbrev pub new_resp3 : Transport
new_resp3 = record { conn = none; dials = 0; log = [] }

abbrev hang_up_old : Option Conn → Transport → Transport
hang_up_old none t = t
hang_up_old (some c) t = hang_up t

unfoldable pub close : Transport → Transport
unfolding hang_up
close t = hang_up_old t.conn t

module _ (rt : Runtime) (dial : ℕ → Option Conn) where
  -- What the n-th call of net.DialTimeout gives.
  unfoldable pub do_connect : Transport → Transport
  do_connect t = record t { conn = dial t.dials; dials = t.dials + 1; log = dialled ∷ t.log }

  -- The connection that an attempt begins with: a new one for the second attempt, or where there is
  -- none.
  abbrev reconnect : Bool → Option Conn → Transport → Transport
  reconnect last none t = do_connect t
  reconnect true (some c) t = do_connect (hang_up t)
  reconnect false (some c) t = t

  -- A failure of the first attempt is followed by the second one, `again`.
  abbrev retry : Bool → String → Run → Transport → Run
  retry true text again t = (error (wrapped (codes text)), t)
  retry false text again t = again

  -- What Execute makes of the reader's outcome, `t` with the connection behind the reply.
  abbrev finish : Bool → Outcome Value → Transport → (Transport → Run) → Run
  finish last (value v) t again = (value v, t)
  finish last (error e) t again =
      if is_synap_error e
      then (error e, t)
      else retry last "RESP3 read" (again (hang_up t)) (hang_up t)
  finish last panic t again = (panic, t)
  finish last out_of_fuel t again = (out_of_fuel, t)

  abbrev read_answer :
      Bool → Outcome Value × Bytes → ℕ → Bytes → Transport → (Transport → Run) → Run
  read_answer last (r, rest) accepts frame t again =
      finish last r
        (record t {
          conn = some (record { accepts = accepts; incoming = rest });
          log = sent frame ∷ t.log;
        })
        again

  abbrev write_to : Bool → ℕ → Bytes → Bytes → Transport → (Transport → Run) → Run
  write_to last zero incoming frame t again =
      retry last "RESP3 write" (again (hang_up t)) (hang_up t)
  write_to last (suc n) incoming frame t again =
      read_answer last (read_reply rt incoming) n frame t again

  abbrev exchange : Bool → Option Conn → Bytes → Transport → (Transport → Run) → Run
  exchange last none frame t again = retry last "RESP3 connect" (again t) t
  exchange last (some c) frame t again = write_to last c.accepts c.incoming frame t again

  abbrev attempt : Bool → Bytes → Transport → (Transport → Run) → Run
  attempt last frame t again =
      let t' = reconnect last t.conn t in exchange last t'.conn frame t' again

  -- The loop, with the attempts that are left; the one with none behind it is the last.
  unfoldable pub attempts : ℕ → Bytes → Transport → Run
  unfolding read_reply do_connect hang_up
  attempts zero frame t = (error (wrapped (codes "RESP3: exhausted reconnect attempts")), t)
  attempts (suc n) frame t = attempt (n == 0) frame t (attempts n frame)

  unfoldable pub execute : Bytes → List Value → Transport → Run
  unfolding attempts build_multibulk
  execute cmd args t = attempts 2 (build_multibulk rt cmd args) t
