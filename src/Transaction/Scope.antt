-- ===== src/Transaction/Scope.antt =====
-- What the client of an open transaction executes over SynapRPC.
use synap_sdk_go.Prelude.{ℕ, ◌≡◌, refl, true, false, some, ◌∷◌, inl, inr, ◌⊎◌}
use synap_sdk_go.Bytes.{Bytes, codes}
use synap_sdk_go.Value.{Value, Entries, str}
use synap_sdk_go.Value.Maps.{without, lookup-insert_self}
use synap_sdk_go.Value.Text.{sprint}
use synap_sdk_go.Errors.{Error, Result, ok, err}
use synap_sdk_go.Resp3.Outcome.{error}
use synap_sdk_go.Command.{synap_rpc}
use synap_sdk_go.Command.Names.{is_transaction}
use synap_sdk_go.Command.Wire.{Wire, wire}
use synap_sdk_go.Command.Route.{is_queueable, queued_under, map_command_to_wire}
use synap_sdk_go.Command.Route.Laws.{client_id, queued-txqueue}
use synap_sdk_go.Command.Reply.{map_response_from_wire}
use synap_sdk_go.Payload.{Reflected, payload_to_map}
use synap_sdk_go.Response.{Response}
use synap_sdk_go.Client.{tagged, normalize_ints, send_command}
use synap_sdk_go.Client.Calls.{◌>>=◌, pure}
use synap_sdk_go.Client.Http.{World, Client}
use package.synap_sdk_go.Transaction.{scope}

queued_under-tagged :
    (command : Bytes) (b : ℕ) (id : Bytes) (m : Entries)
    → is_transaction command ≡ false
    → queued_under command (tagged (b ∷ id) m) ≡ some (str (b ∷ id))
unfolding queued_under tagged
queued_under-tagged command b id m h =
    rw (h, lookup-insert_self (codes "client_id") (str (b ∷ id)) m)

module _ {S : Type 0} (w : World S) (c : Client) (b : ℕ) (rest : Bytes) where
  -- The payload with the id, as the switch sees it.
  abbrev pub scoped_payload : Reflected → Entries
  unfolding tagged payload_to_map
  scoped_payload payload = tagged (b ∷ rest) (payload_to_map w.rt payload)

  abbrev pub reply_to : Bytes → Value → Response
  unfolding map_response_from_wire normalize_ints
  reply_to command v = Response.value (map_response_from_wire w.rt command (normalize_ints v))

  send_command-refused :
      (command : Bytes) (payload : Reflected) (e : Error) (s : S)
      → c.transport ≡ synap_rpc
      → map_command_to_wire w.rt command (scoped_payload payload) synap_rpc ≡ err e
      → send_command w (scope c (b ∷ rest)).client command payload s ≡ (error e, s)
  unfolding send_command scope scoped_payload
  send_command-refused command payload e s rpc h = rw (rpc, h)

  send_command-sent :
      (command : Bytes) (payload : Reflected) (sent : Wire) (s : S)
      → c.transport ≡ synap_rpc
      → map_command_to_wire w.rt command (scoped_payload payload) synap_rpc ≡ ok sent
      → send_command w (scope c (b ∷ rest)).client command payload s
        ≡ (w.rpc sent.cmd sent.args >>= λ v. pure (reply_to command v)) s
  unfolding send_command scope scoped_payload
  send_command-sent command payload sent s rpc h = rw (rpc, h)

  queued_under-scoped_payload :
      (command : Bytes) (payload : Reflected)
      → is_transaction command ≡ false
      → queued_under command (scoped_payload payload) ≡ some (str (b ∷ rest))
  unfolding scoped_payload
  queued_under-scoped_payload command payload h =
      queued_under-tagged command b rest (payload_to_map w.rt payload) h

  -- TXQUEUE of the command as it is without the id.
  abbrev pub queue_of : Wire → Wire
  queue_of inner = wire "TXQUEUE" (str (b ∷ rest) ∷ str inner.cmd ∷ inner.args)

  abbrev pub IsQueued : Bytes → Reflected → S → Wire → Type 0
  unfolding map_command_to_wire is_queueable send_command scope scoped_payload reply_to
  IsQueued command payload s inner =
      (map_command_to_wire w.rt command (without client_id (scoped_payload payload)) synap_rpc
        ≡ ok inner)
      × (is_queueable inner.cmd ≡ true)
      × (send_command w (scope c (b ∷ rest)).client command payload s
          ≡ (w.rpc (queue_of inner).cmd (queue_of inner).args >>= λ v. pure (reply_to command v)) s)

  abbrev pub IsRefused : Bytes → Reflected → S → Error → Type 0
  unfolding send_command scope
  IsRefused command payload s e =
      send_command w (scope c (b ∷ rest)).client command payload s ≡ (error e, s)

  -- Over SynapRPC a command that the client of a transaction scope with a non-empty id issues, other than those of the
  -- transaction.* family, either fails before anything is executed, with the state as it was, or it
  -- executes one TXQUEUE with the id of the scope, a command that the server can queue, and the
  -- arguments that this command has without the id.
  pub send_command-scoped :
      (command : Bytes) (payload : Reflected) (s : S)
      → c.transport ≡ synap_rpc
      → is_transaction command ≡ false
      → ((e : Error) × IsRefused command payload s e)
        ⊎ ((inner : Wire) × IsQueued command payload s inner)
  unfolding IsQueued IsRefused sprint
  send_command-scoped command payload s rpc h =
      go (map_command_to_wire w.rt command (scoped_payload payload) synap_rpc) refl
    where
      go :
          (r : Result Wire)
          → map_command_to_wire w.rt command (scoped_payload payload) synap_rpc ≡ r
          → ((e : Error) × IsRefused command payload s e)
            ⊎ ((inner : Wire) × IsQueued command payload s inner)
      go (err e) m = inl (e, send_command-refused command payload e s rpc m)
      go (ok sent) m =
          let (inner, i, q, e) =
            queued-txqueue w.rt command (scoped_payload payload) synap_rpc (str (b ∷ rest)) sent
              (queued_under-scoped_payload command payload h) m in
          inr (inner, (i, q, send_command-sent command payload (queue_of inner) s rpc (rw e at m)))
