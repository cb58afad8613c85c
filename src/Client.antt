-- ===== src/Client.antt =====
-- SynapClient of client.go: sendCommand with sendRPC, sendRESP3 and sendHTTP.
pub mod Calls
pub mod Runs
pub mod Http
use synap_sdk_go.Prelude.{
  ℕ, ◌%◌, ◌-◌, ◌^◌, Option, none, some, ℤ, pos, negsuc, to_int64, List, String, ◌++◌, if◌then◌else◌,
}
use synap_sdk_go.Bytes.{Bytes, codes, is_empty}
use synap_sdk_go.Value.{Value, Entries, int64, uint64, sized, str}
use synap_sdk_go.Value.Maps.{insert}
use synap_sdk_go.Value.Text.{Runtime}
use synap_sdk_go.Errors.{Error, synap, wrapped, Result, ok, err, error_text, invalid_response_error}
use synap_sdk_go.Command.{TransportMode, http, synap_rpc, resp3}
use synap_sdk_go.Command.Wire.{Wire}
use synap_sdk_go.Command.Route.{map_command_to_wire}
use synap_sdk_go.Command.Reply.{map_response_from_wire}
use synap_sdk_go.Payload.{Reflected, payload_to_map}
use synap_sdk_go.Response.{Response, Json, decode}
use synap_sdk_go.Response.Shapes.{Shape, El}
use Calls.{Call, ◌>>=◌, pure, fail, failed, of}
use Http.{World, Client, send_http}

-- normalizeInts
unfoldable pub normalize_ints : Value → Value
normalize_ints (sized k n) = int64 n
normalize_ints (uint64 n) = int64 (to_int64 n)
normalize_ints v = v

-- A client of a transaction names it in every payload.
unfoldable pub tagged : Bytes → Entries → Entries
unfolding insert
tagged id m = if is_empty id then m else insert (codes "client_id") (str id) m

abbrev or_unmarshalled : {S A : Type 0} → String → Option A → Call S A
or_unmarshalled text none = failed text
or_unmarshalled text (some a) = pure a

module _ {S : Type 0} (w : World S) where
  unfoldable pub send_rpc : Client → Bytes → Reflected → Call S Response
  unfolding normalize_ints tagged payload_to_map map_command_to_wire map_response_from_wire
  send_rpc c command payload = do
    sent ← of (
        map_command_to_wire w.rt command (tagged c.tx_client_id (payload_to_map w.rt payload))
          synap_rpc)
    result ← w.rpc sent.cmd sent.args
    pure (Response.value (map_response_from_wire w.rt command (normalize_ints result)))

  unfoldable pub send_resp3 : Client → Bytes → Reflected → Call S Response
  unfolding tagged map_command_to_wire map_response_from_wire
  send_resp3 c command payload = do
    raw ← or_unmarshalled "synap: marshal payload" (w.json.marshal_payload payload)
    sent ←
        of (
          map_command_to_wire w.rt command (tagged c.tx_client_id (w.json.unmarshal_map raw)) resp3)
    result ← w.resp3 sent.cmd sent.args
    answer ←
        or_unmarshalled "synap: marshal resp3 response"
          (w.rt.marshal (map_response_from_wire w.rt command result))
    pure (Response.json answer)

  abbrev send_over : TransportMode → Client → Bytes → Reflected → Call S Response
  send_over synap_rpc c command payload = send_rpc c command payload
  send_over resp3 c command payload = send_resp3 c command payload
  send_over http c command payload = send_http w c command payload

  unfoldable pub send_command : Client → Bytes → Reflected → Call S Response
  unfolding send_rpc send_resp3 send_http
  send_command c command payload = send_over c.transport c command payload
