-- ===== src/Client/Http.antt =====
-- sendHTTP of client.go with withClientID, applyAuth and newRequestID, and what a client uses of the
-- world: the interface that its transports fill.
pub mod Splice
pub mod Answers
use synap_sdk_go.Prelude.{
  ℕ, Bool, ◌+◌, ◌-◌, ◌/◌, ◌%◌, ◌||◌, not, Option, none, some, List, [], ◌∷◌, String, ◌++◌, ltb,
  if◌then◌else◌, take, drop,
}
use synap_sdk_go.Bytes.{Bytes, codes, bytes_eq}
use synap_sdk_go.Bytes.Decimal.{format_nat}
use synap_sdk_go.Value.{Value}
use synap_sdk_go.Value.Text.{Runtime}
use synap_sdk_go.Errors.{synap, server_error}
use synap_sdk_go.Command.{TransportMode}
use synap_sdk_go.Resp3.Outcome.{value, panic}
use synap_sdk_go.Payload.{Reflected}
use synap_sdk_go.Response.{Response, Json, Envelope}
use package.synap_sdk_go.Client.Calls.{Call, ◌>>=◌, pure, fail, failed, within}

-- The fields of the Config that a request depends on.
pub record Client : Type 0 where
  pub transport : TransportMode
  pub endpoint : Bytes
  pub auth_token : Bytes
  pub username : Bytes
  pub password : Bytes
  pub tx_client_id : Bytes

pub record Request : Type 0 where
  pub url : Bytes
  pub authorization : Option Bytes
  pub body : Bytes

pub record Reply : Type 0 where
  pub status : ℕ
  pub body : Option Bytes

-- The calls of Execute of the two native transports, whether http.NewRequestWithContext takes a URL,
-- http.Client.Do with io.ReadAll, which may fail on the body, and rand.Read for sixteen bytes.
pub record World (S : Type 0) : Type 0 where
  pub rt : Runtime
  pub json : Json
  pub base64 : Bytes → Bytes
  pub rpc : Bytes → List Value → Call S Value
  pub resp3 : Bytes → List Value → Call S Value
  pub is_url : Bytes → Bool
  pub post : Request → Call S Reply
  pub random : Call S Bytes

-- The header that applyAuth sets.
abbrev basic_auth : (Bytes → Bytes) → Bytes → Bytes → Option Bytes
basic_auth base64 [] password = none
basic_auth base64 (u ∷ username) password =
    some (codes "Basic " ++ base64 ((u ∷ username) ++ b':' ∷ password))

abbrev authorization_of : (Bytes → Bytes) → Bytes → Bytes → Bytes → Option Bytes
authorization_of base64 [] username password = basic_auth base64 username password
authorization_of base64 (b ∷ token) username password = some (codes "Bearer " ++ b ∷ token)

unfoldable pub apply_auth : (Bytes → Bytes) → Client → Option Bytes
apply_auth base64 c = authorization_of base64 c.auth_token c.username c.password

-- %02x of each byte
abbrev hex_digit : ℕ → ℕ
hex_digit n = if ltb n 10 then b'0' + n else b'a' + (n - 10)

unfoldable pub hex : Bytes → Bytes
hex [] = []
hex (b ∷ s) = hex_digit (b / 16) ∷ hex_digit (b % 16) ∷ hex s

-- b[6] & 0x0f | 0x40 and b[8] & 0x3f | 0x80
abbrev stamped : Bytes → Bytes
stamped (a ∷ b ∷ c ∷ d ∷ e ∷ f ∷ g ∷ h ∷ i ∷ s) =
    a ∷ b ∷ c ∷ d ∷ e ∷ f ∷ (g % 16 + 64) ∷ h ∷ (i % 64 + 128) ∷ s
stamped s = s

-- The text of sixteen random bytes as a UUID.
unfoldable pub uuid_text : Bytes → Bytes
unfolding hex
uuid_text raw =
    let b = stamped raw in
    hex (take 4 b)
    ++ b'-'
      ∷ (hex (take 2 (drop 4 b))
          ++ b'-'
            ∷ (hex (take 2 (drop 6 b))
                ++ b'-' ∷ (hex (take 2 (drop 8 b)) ++ b'-' ∷ hex (take 6 (drop 10 b)))))

-- m[k] = v on raw fields
unfoldable pub put : Bytes → Bytes → List (Bytes × Bytes) → List (Bytes × Bytes)
unfolding bytes_eq
put k v [] = (k, v) ∷ []
put k v ((j, u) ∷ m) = if bytes_eq j k then (k, v) ∷ m else (j, u) ∷ put k v m

module _ {S : Type 0} (w : World S) where
  unfoldable pub new_request_id : Call S Bytes
  unfolding uuid_text
  new_request_id = do raw ← w.random; pure (uuid_text raw)

  abbrev or_failed : {A : Type 0} → String → Option A → Call S A
  or_failed text none = failed text
  or_failed text (some a) = pure a

  -- A store into a nil map panics.
  abbrev fields_or_panic : Option (List (Bytes × Bytes)) → Call S (List (Bytes × Bytes))
  fields_or_panic none s = (panic, s)
  fields_or_panic (some m) s = (value m, s)

  abbrev fields_of : Bytes → Call S (List (Bytes × Bytes))
  fields_of [] = pure []
  fields_of (b ∷ payload) =
      or_failed "synap: splice client_id" (w.json.unmarshal_fields (b ∷ payload))
      >>= fields_or_panic

  unfoldable pub with_client_id : Bytes → Bytes → Call S Bytes
  unfolding put
  with_client_id payload id = do
    fields ← fields_of payload
    encoded ← or_failed "synap: encode client_id" (w.json.marshal_text id)
    or_failed "synap: re-encode payload"
        (w.json.marshal_fields (put (codes "client_id") encoded fields))

  unfoldable pub spliced : Bytes → Bytes → Call S Bytes
  unfolding with_client_id
  spliced [] payload = pure payload
  spliced (b ∷ id) payload = with_client_id payload (b ∷ id)

  abbrev text_or_unknown : Option Bytes → Bytes
  text_or_unknown none = codes "unknown error"
  text_or_unknown (some msg) = msg

  abbrev answered : Envelope → Call S Response
  answered env =
      if env.success
      then pure (Response.json env.payload)
      else fail (synap (server_error (text_or_unknown env.error)))

  -- The test of the status, and the envelope.
  unfoldable pub read_body : ℕ → Bytes → Call S Response
  unfolding format_nat
  read_body status body =
      if ltb status 200 || not (ltb status 300)
      then fail (synap (server_error (codes "HTTP " ++ (format_nat status ++ codes ": " ++ body))))
      else (or_failed "synap: unmarshal response" (w.json.envelope body) >>= answered)

  unfoldable pub read_answer : Reply → Call S Response
  unfolding read_body
  read_answer r = do body ← or_failed "synap: read response body" r.body; read_body r.status body

  abbrev post_to : Request → Call S Reply
  post_to r =
      if w.is_url r.url then within "synap: http" (w.post r) else failed "synap: build request"

  unfoldable pub send_http : Client → Bytes → Reflected → Call S Response
  unfolding new_request_id apply_auth read_answer spliced
  send_http c command payload = do
    raw ← or_failed "synap: marshal payload" (w.json.marshal_payload payload)
    spliced_raw ← spliced c.tx_client_id raw
    id ← within "synap: generate request_id" new_request_id
    body ← or_failed "synap: marshal envelope" (w.json.marshal_command command id spliced_raw)
    reply ←
        post_to (record { url = c.endpoint; authorization = apply_auth w.base64 c; body = body })
    read_answer reply
