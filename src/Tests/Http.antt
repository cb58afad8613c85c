-- ===== src/Tests/Http.antt =====
-- sendHTTP against a server that answers by an envelope, and an encoding of objects of two fields.
use synap_sdk_go.Prelude.{
  ℕ, Bool, ◌&&◌, suc, ◌≡◌, refl, ◌∙◌, ap, sym, true, false, Option, none, some, List, [], ◌∷◌, ◌++◌,
  length, take, drop, take-length-append, drop-length-append, if◌then◌else◌,
}
use synap_sdk_go.Bytes.{Bytes, codes, bytes_eq}
use synap_sdk_go.Value.{no_entries}
use synap_sdk_go.Errors.{Result, ok, wrapped, err}
use synap_sdk_go.Response.Shapes.{Shape, El}
use synap_sdk_go.Rpc.Utf8.{is_utf8}
use synap_sdk_go.Payload.{string}
use synap_sdk_go.Response.{Json}
use synap_sdk_go.Resp3.Outcome.{value, error}
use synap_sdk_go.Client.Http.{World, send_http, put, uuid_text, with_client_id, spliced}
use synap_sdk_go.Client.Http.Splice.{
  raw_field, HasText, field_read, on_raw, decoded_of, KeepsFields, with_client_id-fields,
}
use synap_sdk_go.Client.Http.Answers.{request_of, verdict, send_http-verdict}
use package.synap_sdk_go.Tests.Sample.{integers, plain}

-- The lengths of three of the four strings, and the strings; the keys are UTF-8.
abbrev encode : List (Bytes × Bytes) → Option Bytes
encode ((k, v) ∷ (j, u) ∷ []) = some (length k ∷ length v ∷ length j ∷ (k ++ (v ++ (j ++ u))))
encode m = none

abbrev checked : Bytes → Bytes → Bytes → Bytes → Option (Option (List (Bytes × Bytes)))
unfolding is_utf8
checked k v j u = if is_utf8 k && is_utf8 j then some (some ((k, v) ∷ (j, u) ∷ [])) else none

abbrev decoded : Bytes → Option (Option (List (Bytes × Bytes)))
unfolding checked
decoded (a ∷ b ∷ c ∷ r) =
    let s = drop a r in let t = drop b s in checked (take a r) (take b s) (take c t) (drop c t)
decoded s = none

decoded-two :
    (k v j u : Bytes)
    → is_utf8 k ≡ true
    → is_utf8 j ≡ true
    → decoded (length k ∷ length v ∷ length j ∷ (k ++ (v ++ (j ++ u))))
      ≡ some (some ((k, v) ∷ (j, u) ∷ []))
unfolding decoded checked
decoded-two k v j u h h' = rw (
  take-length-append k (v ++ (j ++ u)),
  drop-length-append k (v ++ (j ++ u)),
  take-length-append v (j ++ u),
  drop-length-append v (j ++ u),
  take-length-append j u,
  drop-length-append j u,
  h,
  h',
)

checked-HasText :
    (k v j u : Bytes) (m : List (Bytes × Bytes)) (valid valid' : Bool)
    → is_utf8 k ≡ valid
    → is_utf8 j ≡ valid'
    → (if valid && valid' then some (some ((k, v) ∷ (j, u) ∷ [])) else none) ≡ some (some m)
    → HasText m
unfolding HasText
checked-HasText k v j u m true true h h' e =
    let same : (k, v) ∷ (j, u) ∷ [] ≡ m = cc e in rw (← same) (h, (h', tt))
checked-HasText k v j u m true false h h' e = absurd (cc e)
checked-HasText k v j u m false valid' h h' e = absurd (cc e)

decoded-HasText : (s : Bytes) (m : List (Bytes × Bytes)) → decoded s ≡ some (some m) → HasText m
unfolding decoded checked
decoded-HasText (a ∷ b ∷ c ∷ r) m e =
    checked-HasText (take a r) (take b (drop a r)) (take c (drop b (drop a r)))
      (drop c (drop b (drop a r))) m _ _ refl refl e
decoded-HasText [] m e = absurd (cc e)
decoded-HasText (a ∷ []) m e = absurd (cc e)
decoded-HasText (a ∷ b ∷ []) m e = absurd (cc e)

-- Only texts are decoded, each from itself.
abbrev text_only : (s : Shape) → Bytes → Result (El s)
text_only Shape.string raw = ok raw
text_only s raw = err (wrapped [])

two_fields : Json
unfolding decoded
two_fields = record {
  unmarshal = text_only;
  unmarshal_map = λ raw. no_entries;
  envelope = λ raw. some (record { success = false; payload = []; error = some raw });
  marshal_payload = λ p. some (codes "{}");
  marshal_command = λ command id payload. some (command ++ payload);
  unmarshal_fields = decoded;
  marshal_fields = encode;
  marshal_text = λ s. some s;
}

on_raw_same : (o : Option Bytes) → o ≡ on_raw (λ u. u) o
on_raw_same none = refl
on_raw_same (some u) = refl

encode-decoded :
    (m : List (Bytes × Bytes)) (out : Bytes)
    → HasText m
    → encode m ≡ some out
    → (fields : List (Bytes × Bytes)) × (decoded out ≡ some (some fields))
      × ((k : Bytes) → raw_field k fields ≡ on_raw (λ u. u) (raw_field k m))
unfolding HasText
encode-decoded [] out h e = absurd (cc e)
encode-decoded ((k, v) ∷ []) out h e = absurd (cc e)
encode-decoded ((k, v) ∷ (j, u) ∷ p ∷ m) out h e = absurd (cc e)
encode-decoded ((k, v) ∷ (j, u) ∷ []) out h e =
    let same : length k ∷ length v ∷ length j ∷ (k ++ (v ++ (j ++ u))) ≡ out = cc e in
    (
      (k, v) ∷ (j, u) ∷ [],
      ap decoded (sym same) ∙ decoded-two k v j u h.0 h.1.0,
      λ i. on_raw_same (raw_field i ((k, v) ∷ (j, u) ∷ [])),
    )

two_fields-KeepsFields : KeepsFields two_fields
unfolding two_fields
two_fields-KeepsFields = record {
  tidy = λ u. u;
  text_keys = decoded-HasText;
  read_back = encode-decoded;
  same_value = λ s u. refl;
  text_back = λ text out h e. cc;
}

-- Every request is answered by 200 and its body, which the envelope reads as an error.
echo : World ℕ
unfolding two_fields
echo = record {
  rt = integers;
  json = two_fields;
  base64 = λ s. s;
  rpc = λ cmd args s. (error (wrapped []), s);
  resp3 = λ cmd args s. (error (wrapped []), s);
  is_url = λ url. true;
  post = λ r s. (value (record { status = 200; body = some r.body }), suc s);
  random = λ s. (value (codes "0123456789abcdef"), s);
}

abbrev fields : List (Bytes × Bytes)
fields = (codes "key", codes "v") ∷ (codes "client_id", codes "old") ∷ []

abbrev encoded : Bytes
encoded = 1 ∷ 9 ∷ (codes "key" ++ (codes "v" ++ (codes "client_id" ++ codes "old")))

abbrev renamed : List (Bytes × Bytes)
renamed = (codes "key", codes "v") ∷ (codes "client_id", codes "new") ∷ []

abbrev renamed_text : Bytes
renamed_text = 3 ∷ 1 ∷ 9 ∷ (codes "key" ++ (codes "v" ++ (codes "client_id" ++ codes "new")))

with_client_id-fields_example :
    (with_client_id echo (3 ∷ encoded) (codes "new") 0 ≡ (value renamed_text, 0))
    × (read : List (Bytes × Bytes)) × (two_fields.unmarshal_fields renamed_text ≡ some (some read))
    × (field_read two_fields Shape.string (codes "client_id") read ≡ some (some (codes "new")))
    × ((shape : Shape) (k : Bytes)
        → field_read two_fields shape k read ≡ (
            if bytes_eq (codes "client_id") k
            then some (decoded_of (two_fields.unmarshal shape (codes "new")))
            else field_read two_fields shape k fields))
unfolding echo two_fields decoded checked put
with_client_id-fields_example =
    with_client_id-fields echo (3 ∷ encoded) (codes "new") (codes "new") renamed_text fields 0
      two_fields-KeepsFields refl refl refl refl

request_id : uuid_text (codes "0123456789abcdef") ≡ codes "30313233-3435-4637-b839-616263646566"
unfolding uuid_text
request_id = refl

send_http-verdict_example :
    send_http echo plain (codes "kv.get") (string (codes "k")) 0
    ≡ (verdict two_fields (record { status = 200; body = some (codes "kv.get{}") }), 1)
unfolding echo two_fields spliced request_of
send_http-verdict_example =
    send_http-verdict echo plain (codes "kv.get") (codes "{}") (codes "{}")
      (codes "0123456789abcdef") (codes "kv.get{}") (string (codes "k"))
      (record { status = 200; body = some (codes "kv.get{}") }) 0 0 0 1 refl refl refl refl refl
      refl
