-- ===== src/Managers.antt =====
-- The module managers of the SDK. Each method sends one command through its client and decodes the
-- reply; this file has what they share.
pub mod Types
pub mod KvStore
pub mod QueueManager
pub mod StreamManager
pub mod PubSubManager
pub mod HashManager
pub mod ListManager
pub mod SetManager
pub mod Rpc
pub mod Keys
pub mod Publish
pub mod Flags
pub mod Expiry
pub mod Settles
pub mod Queue
pub mod Stream
use synap_sdk_go.Prelude.{zero, suc, true, ℤ, pos, negsuc, ◌++◌, String, List, [], ◌∷◌, false}
use synap_sdk_go.Bytes.{Bytes, codes}
use synap_sdk_go.Errors.{Error, Result, synap, wrapped, ok, err, error_text, invalid_response_error}
use synap_sdk_go.Payload.{
  ref, integer, nil_pointer, Reflected, Sequence, Fields, string, struct, seq, no_items, next,
  no_fields, field,
}
use synap_sdk_go.Response.{Response, decode}
use synap_sdk_go.Response.Shapes.{Shape, El}
use synap_sdk_go.Client.{send_command}
use synap_sdk_go.Client.Calls.{Call, ◌>>=◌, pure, fail}
use synap_sdk_go.Client.Http.{World, Client}

-- Payloads: a field under its tag, in front of others, and a slice of strings.
abbrev pub with_field : String → Reflected → Fields → Fields
with_field name r fs = field (codes name) false r fs

abbrev pub with_text : String → Bytes → Fields → Fields
with_text name s fs = with_field name (string s) fs

abbrev pub strings_of : List Bytes → Sequence
strings_of [] = no_items
strings_of (s ∷ ss) = next (string s) (strings_of ss)

abbrev pub with_texts : String → List Bytes → Fields → Fields
with_texts name ss fs = with_field name (seq (strings_of ss)) fs

-- An omitempty field that is set only where the number is positive.
abbrev pub positive : ℤ → Reflected
positive (pos zero) = nil_pointer
positive (pos (suc n)) = ref (integer (pos (suc n)))
positive (negsuc n) = nil_pointer

abbrev pub optional : String → Reflected → Fields → Fields
optional name r fs = field (codes name) true r fs

-- A result struct with one field.
abbrev pub one : String → Shape → Shape
one name s = Shape.struct (
    synap_sdk_go.Response.Shapes.Fields.field (codes name) s
      synap_sdk_go.Response.Shapes.Fields.no_fields)

-- err.Error()
abbrev pub text_of : Error → Bytes
text_of (synap e) = error_text e
text_of (wrapped text) = text

module _ {S : Type 0} (w : World S) where
  abbrev pub or_invalid : {A : Type 0} → String → Result A → Call S A
  or_invalid command (ok a) = pure a
  or_invalid command (err e) =
      fail (synap (invalid_response_error (codes command ++ (codes ": " ++ text_of e))))

  -- sendCommand, then Decode into a new variable.
  unfoldable pub ask : Client → String → Fields → (s : Shape) → Call S (El s)
  unfolding send_command decode error_text
  ask c command payload s = do
    raw ← send_command w c (codes command) (struct payload)
    or_invalid command (decode w.rt w.json s raw)

  -- A method that looks at no reply.
  unfoldable pub tell : Client → String → Fields → Call S Unit
  unfolding send_command
  tell c command payload = do raw ← send_command w c (codes command) (struct payload); pure tt
