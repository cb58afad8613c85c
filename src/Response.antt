-- ===== src/Response.antt =====
-- response.go: the typed targets of Decode, and assign on the reply of the SynapRPC transport.
pub mod Shapes
pub mod Assign
use synap_sdk_go.Prelude.{Bool, true, false, ◌||◌, Option, some, List}
use synap_sdk_go.Bytes.{Bytes, codes, bytes_eq, is_empty}
use synap_sdk_go.Value.{Value, Entries, nil}
use synap_sdk_go.Value.Text.{Runtime}
use synap_sdk_go.Errors.{Result}
use synap_sdk_go.Payload.{Reflected}
use Shapes.{Shape, El, zero_of}
use Assign.{assign}

-- A reply in JSON, or typed values that came over SynapRPC.
pub data Response : Type 0 where
  json : Bytes → Response
  value : Value → Response

-- responseEnvelope
pub record Envelope : Type 0 where
  pub success : Bool
  pub payload : Bytes
  pub error : Option Bytes

-- What is used of encoding/json. Encoding and decoding fail on none.
pub record Json : Type 0 where
  -- into a target of each shape that holds its zero value
  pub unmarshal : (s : Shape) → Bytes → Result (El s)
  -- into a map[string]interface{}, which a failure leaves empty
  pub unmarshal_map : Bytes → Entries
  pub envelope : Bytes → Option Envelope
  pub marshal_payload : Reflected → Option Bytes
  -- a commandEnvelope of a command, a request id and a payload
  pub marshal_command : Bytes → Bytes → Bytes → Option Bytes
  -- into a map[string]json.RawMessage; null is the map that is nil
  pub unmarshal_fields : Bytes → Option (Option (List (Bytes × Bytes)))
  pub marshal_fields : List (Bytes × Bytes) → Option Bytes
  pub marshal_text : Bytes → Option Bytes

-- Decode into a new variable.
unfoldable pub decode : Runtime → Json → (s : Shape) → Response → Result (El s)
unfolding assign
decode rt j s (json raw) = j.unmarshal s raw
decode rt j s (value v) = assign rt s (zero_of s) v

unfoldable pub is_null : Response → Bool
unfolding bytes_eq
is_null (json raw) = is_empty raw || bytes_eq raw (codes "null")
is_null (value nil) = true
is_null (value v) = false

-- Raw: what came over SynapRPC is encoded anew.
unfoldable pub raw : Runtime → Response → Option Bytes
raw rt (json text) = some text
raw rt (value v) = rt.marshal v
