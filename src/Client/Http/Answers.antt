-- ===== src/Client/Http/Answers.antt =====
-- What sendHTTP posts, and what it makes of the answer.
use synap_sdk_go.Prelude.{
  ◌≡◌, refl, ℕ, ◌&&◌, ◌||◌, not, true, false, Bool, Bool-cases, inl, inr, Option, none, some, ◌++◌,
  leb, ltb, if◌then◌else◌, arith,
}
use synap_sdk_go.Bytes.{Bytes, codes}
use synap_sdk_go.Bytes.Decimal.{format_nat}
use synap_sdk_go.Errors.{synap, wrapped, server_error}
use synap_sdk_go.Payload.{Reflected}
use synap_sdk_go.Response.{Response, Json, Envelope}
use synap_sdk_go.Resp3.Outcome.{Outcome, value, error}
use synap_sdk_go.Client.Calls.{◌>>=◌}
use package.synap_sdk_go.Client.Http.{
  World, Client, Request, Reply, apply_auth, uuid_text, read_body, read_answer, spliced, send_http,
  answered, or_failed, new_request_id,
}

-- What an answer is worth: the payload of an envelope of success under a status of 2xx.
abbrev success_verdict : Bool → Bytes → Option Bytes → Outcome Response
success_verdict true payload text = value (Response.json payload)
success_verdict false payload none = error (synap (server_error (codes "unknown error")))
success_verdict false payload (some text) = error (synap (server_error text))

abbrev envelope_verdict : Option Envelope → Outcome Response
envelope_verdict none = error (wrapped (codes "synap: unmarshal response"))
envelope_verdict (some e) = success_verdict e.success e.payload e.error

abbrev body_verdict : Json → ℕ → Option Bytes → Outcome Response
body_verdict json status none = error (wrapped (codes "synap: read response body"))
body_verdict json status (some body) =
    if leb 200 status && leb status 299
    then envelope_verdict (json.envelope body)
    else error (synap (server_error (codes "HTTP " ++ (format_nat status ++ codes ": " ++ body))))

abbrev pub verdict : Json → Reply → Outcome Response
verdict json r = body_verdict json r.status r.body

module _ {S : Type 0} (w : World S) (c : Client) where
  unfoldable pub request_of : Bytes → Request
  unfolding apply_auth
  request_of body = record { url = c.endpoint; authorization = apply_auth w.base64 c; body = body }

  success-verdict :
      (ok : Bool) (payload : Bytes) (text : Option Bytes) (s : S)
      → answered w (record { success = ok; payload = payload; error = text }) s
        ≡ (success_verdict ok payload text, s)
  success-verdict true payload text s = refl
  success-verdict false payload none s = refl
  success-verdict false payload (some text) s = refl

  envelope-verdict :
      (e : Option Envelope) (s : S)
      → (or_failed w "synap: unmarshal response" e >>= answered w) s ≡ (envelope_verdict e, s)
  envelope-verdict none s = refl
  envelope-verdict (some e) s = success-verdict e.success e.payload e.error s

  within_range : (n : ℕ) → (ltb n 200 || not (ltb n 300)) ≡ not (leb 200 n && leb n 299)
  within_range n = ground arith

  read_answer-verdict :
      (status : ℕ) (body : Option Bytes) (s : S)
      → read_answer w (record { status = status; body = body }) s
        ≡ (body_verdict w.json status body, s)
  unfolding read_answer read_body
  read_answer-verdict status none s = refl
  read_answer-verdict status (some body) s = elim (Bool-cases (leb 200 status && leb status 299)) [
    | inl e ↦ rw (within_range status, e) (envelope-verdict (w.json.envelope body) s)
    | inr e ↦ rw (within_range status, e)
  ]

  -- If the payload is encoded, with the client_id of a transaction spliced in, the random bytes are
  -- there and the envelope is encoded, and the server answers the request, then sendHTTP posts that
  -- request once, with the endpoint and the Authorization header of the client; for a status of 200
  -- to 299 it returns the payload of an envelope of success, and otherwise fails, by the status and
  -- the body, by the error of the envelope, or because the body is not there or not an envelope.
  pub send_http-verdict :
      (command raw payload_text random body : Bytes) (payload : Reflected) (reply : Reply)
      (s s1 s2 s3 : S)
      → w.json.marshal_payload payload ≡ some raw
      → spliced w c.tx_client_id raw s ≡ (value payload_text, s1)
      → w.random s1 ≡ (value random, s2)
      → w.json.marshal_command command (uuid_text random) payload_text ≡ some body
      → w.is_url c.endpoint ≡ true
      → w.post (request_of body) s2 ≡ (value reply, s3)
      → send_http w c command payload s ≡ (verdict w.json reply, s3)
  unfolding send_http new_request_id request_of
  send_http-verdict command raw payload_text random body payload reply s s1 s2 s3 e f g h i p =
      rw (e, f, g, h, i, p) (read_answer-verdict reply.status reply.body s3)
