-- ===== src/Resp3/Connection/Bounds.antt =====
-- How much a call of Execute does at most, what it writes, and the connection that it leaves.
use synap_sdk_go.Prelude.{
  ℕ, zero, suc, ◌+◌, ◌≤◌, ◌≡◌, ◌≢◌, refl, Bool, true, false, Option, none, some, List, [], ◌∷◌,
  arith, ◌==◌,
}
use synap_sdk_go.Bytes.{Bytes}
use synap_sdk_go.Value.{Value}
use synap_sdk_go.Value.Text.{Runtime}
use synap_sdk_go.Errors.{synap, wrapped}
use package.synap_sdk_go.Resp3.Outcome.{Outcome, value, error, panic, out_of_fuel}
use package.synap_sdk_go.Resp3.Frame.{build_multibulk}
use package.synap_sdk_go.Resp3.Reader.{read_reply}
use package.synap_sdk_go.Resp3.Reader.Total.{read_reply-ne-out_of_fuel}
use package.synap_sdk_go.Resp3.Connection.{
  Conn, Event, dialled, hung_up, sent, Transport, Run, hang_up, do_connect, reconnect, finish,
  write_to, exchange, attempts, execute,
}

-- The frames that were written.
abbrev pub count_sent : List Event → ℕ
count_sent [] = 0
count_sent (sent f ∷ log) = suc (count_sent log)
count_sent (dialled ∷ log) = count_sent log
count_sent (hung_up ∷ log) = count_sent log

-- A reply, also an error of the server, leaves a connection; every other failure leaves none.
abbrev pub Settled : Run → Type 0
Settled (value v, t) = t.conn ≢ none
Settled (error (synap e), t) = t.conn ≢ none
Settled (error (wrapped text), t) = t.conn ≡ none
Settled (panic, t) = t.conn ≢ none
Settled (out_of_fuel, t) = ⊥

-- A log that has grown from an older one by dials, hang-ups and writes of one frame.
pub data Extends (frame : Bytes) (old : List Event) : List Event → Type 0 where
  unchanged : Extends frame old old
  by_dial : {log : List Event} → Extends frame old log → Extends frame old (dialled ∷ log)
  by_hang_up : {log : List Event} → Extends frame old log → Extends frame old (hung_up ∷ log)
  by_frame : {log : List Event} → Extends frame old log → Extends frame old (sent frame ∷ log)

Extends-trans :
    (frame : Bytes) (a b c : List Event) → Extends frame a b → Extends frame b c → Extends frame a c
Extends-trans frame a b c x unchanged = x
Extends-trans frame a b _ x (by_dial y) = by_dial (Extends-trans frame a b _ x y)
Extends-trans frame a b _ x (by_hang_up y) = by_hang_up (Extends-trans frame a b _ x y)
Extends-trans frame a b _ x (by_frame y) = by_frame (Extends-trans frame a b _ x y)

-- At most k frames and k dials more than at `t`, and no other frame than this one.
pub record Within (k : ℕ) (frame : Bytes) (t : Transport) (run : Run) : Type 0 where
  pub only : Extends frame t.log run.1.log
  pub frames : count_sent run.1.log ≤ count_sent t.log + k
  pub calls : run.1.dials ≤ t.dials + k
  pub settled : Settled run

module _ (rt : Runtime) (dial : ℕ → Option Conn) where
  -- `again` is what a further attempt does on a transport without a connection.
  module _ (k : ℕ) (frame : Bytes) (again : Transport → Run)
      (ends : (t : Transport) → t.conn ≡ none → Within k frame t (again t)) where
    finish-Within :
        (last : Bool) (r : Outcome Value) (t : Transport)
        → r ≢ out_of_fuel
        → t.conn ≢ none
        → Within k frame t (finish rt dial last r t again)
    unfolding hang_up
    finish-Within last (value v) t h c = record {
      only = unchanged;
      frames = omega arith;
      calls = omega arith;
      settled = c;
    }
    finish-Within last (error (synap e)) t h c = record {
      only = unchanged;
      frames = omega arith;
      calls = omega arith;
      settled = c;
    }
    finish-Within true (error (wrapped text)) t h c = record {
      only = by_hang_up unchanged;
      frames = omega arith;
      calls = omega arith;
      settled = refl;
    }
    finish-Within false (error (wrapped text)) t h c =
        let w = ends (hang_up t) refl in
        record {
          only = Extends-trans frame t.log (hung_up ∷ t.log) _ (by_hang_up unchanged) w.only;
          frames = w.frames;
          calls = w.calls;
          settled = w.settled;
        }
    finish-Within last panic t h c = record {
      only = unchanged;
      frames = omega arith;
      calls = omega arith;
      settled = c;
    }
    finish-Within last out_of_fuel t h c = absurd (h refl)

    -- A step before the rest of the run, of one frame and one dial at most.
    after :
        (t t' : Transport) (run : Run)
        → count_sent t'.log ≤ count_sent t.log + 1
        → t'.dials ≤ t.dials + 1
        → Extends frame t.log t'.log
        → Within k frame t' run
        → Within (suc k) frame t run
    after t t' run f c x w = record {
      only = Extends-trans frame t.log t'.log _ x w.only;
      frames = omega (arith, w.frames);
      calls = omega (arith, w.calls);
      settled = w.settled;
    }

    write_to-Within :
        (last : Bool) (n : ℕ) (incoming : Bytes) (t t₀ : Transport)
        → count_sent t.log ≤ count_sent t₀.log
        → t.dials ≤ t₀.dials + 1
        → Extends frame t₀.log t.log
        → Within (suc k) frame t₀ (write_to rt dial last n incoming frame t again)
    unfolding hang_up
    write_to-Within true zero incoming t t₀ f c x = record {
      only = by_hang_up x;
      frames = omega arith;
      calls = omega arith;
      settled = refl;
    }
    write_to-Within false zero incoming t t₀ f c x =
        after t₀ (hang_up t) _ (omega arith) c (by_hang_up x) (ends (hang_up t) refl)
    write_to-Within last (suc n) incoming t t₀ f c x =
        after t₀
          (record t {
            conn = some (record { accepts = n; incoming = (read_reply rt incoming).1 });
            log = sent frame ∷ t.log;
          })
          _ (omega arith) c (by_frame x)
          (finish-Within last (read_reply rt incoming).0 _ (read_reply-ne-out_of_fuel rt incoming)
            (cc))

    exchange-Within :
        (last : Bool) (o : Option Conn) (t t₀ : Transport)
        → t.conn ≡ o
        → count_sent t.log ≤ count_sent t₀.log
        → t.dials ≤ t₀.dials + 1
        → Extends frame t₀.log t.log
        → Within (suc k) frame t₀ (exchange rt dial last o frame t again)
    exchange-Within true none t t₀ e f c x = record {
      only = x;
      frames = omega arith;
      calls = omega arith;
      settled = e;
    }
    exchange-Within false none t t₀ e f c x = after t₀ t _ (omega arith) c x (ends t e)
    exchange-Within last (some v) t t₀ e f c x =
        write_to-Within last v.accepts v.incoming t t₀ f c x

    attempt-Within :
        (last : Bool) (o : Option Conn) (t : Transport)
        → t.conn ≡ o
        → let t' = reconnect rt dial last o t in
          Within (suc k) frame t (exchange rt dial last t'.conn frame t' again)
    unfolding hang_up do_connect
    attempt-Within last none t e =
        exchange-Within last _ (do_connect rt dial t) t refl (omega arith) (omega arith)
          (by_dial unchanged)
    attempt-Within true (some x) t e =
        exchange-Within true _ (do_connect rt dial (hang_up t)) t refl (omega arith) (omega arith)
          (by_dial (by_hang_up unchanged))
    attempt-Within false (some x) t e =
        exchange-Within false _ t t refl (omega arith) (omega arith) unchanged

  attempts-Within :
      (n : ℕ) (frame : Bytes) (t : Transport)
      → t.conn ≡ none
      → Within n frame t (attempts rt dial n frame t)
  unfolding attempts
  attempts-Within zero frame t e = record {
    only = unchanged;
    frames = omega arith;
    calls = omega arith;
    settled = e;
  }
  attempts-Within (suc n) frame t e =
      attempt-Within n frame (attempts rt dial n frame) (attempts-Within n frame) (n == 0) _ t refl

  -- Execute ends with a value, an error or a panic, after two frames and two dials at most. It writes
  -- no frame but that of its command, and so never authenticates by itself. A value and an error of
  -- the server leave the transport with a connection, and so does a panic; every other error leaves it
  -- without one.
  pub execute-Within :
      (cmd : Bytes) (args : List Value) (t : Transport)
      → Within 2 (build_multibulk rt cmd args) t (execute rt dial cmd args t)
  unfolding execute attempts
  execute-Within cmd args t =
      attempt-Within 1 (build_multibulk rt cmd args) _
        (attempts-Within 1 (build_multibulk rt cmd args)) false _ t refl
