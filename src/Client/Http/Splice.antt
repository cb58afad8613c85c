-- ===== src/Client/Http/Splice.antt =====
-- withClientID: the client_id in an encoded payload.
use synap_sdk_go.Prelude.{
  ◌≡◌, refl, ap, ◌∙◌, All, Bool, true, false, Bool-cases, inl, inr, Option, none, some, List, [],
  ◌∷◌, if◌then◌else◌, arith,
}
use synap_sdk_go.Bytes.{Bytes, codes, bytes_eq, bytes_eq_iff}
use synap_sdk_go.Errors.{Result, ok, err}
use synap_sdk_go.Response.{Json}
use synap_sdk_go.Response.Shapes.{Shape, El}
use synap_sdk_go.Rpc.Utf8.{is_utf8}
use synap_sdk_go.Resp3.Outcome.{value}
use package.synap_sdk_go.Client.Http.{World, put, with_client_id}

-- The raw value of a field, if it is there.
unfoldable pub raw_field : Bytes → List (Bytes × Bytes) → Option Bytes
unfolding bytes_eq
raw_field k [] = none
raw_field k ((j, u) ∷ m) = if bytes_eq j k then some u else raw_field k m

raw_field-put :
    (k key v : Bytes) (m : List (Bytes × Bytes))
    → raw_field k (put key v m) ≡ (if bytes_eq key k then some v else raw_field k m)
unfolding raw_field put
raw_field-put k key v [] = refl
raw_field-put k key v ((j, u) ∷ m) =
    ground
      (arith, raw_field-put k key v m, bytes_eq_iff j key, bytes_eq_iff key k, bytes_eq_iff j k)

-- The keys of an object.
unfoldable pub HasText : List (Bytes × Bytes) → Type 0
unfolding is_utf8
HasText m = All (λ f. is_utf8 f.0 ≡ true) m

-- What is decoded, if it is.
abbrev pub decoded_of : {A : Type 0} → Result A → Option A
decoded_of (ok a) = some a
decoded_of (err e) = none

abbrev pub on_raw : {A : Type 0} → (Bytes → A) → Option Bytes → Option A
on_raw f none = none
on_raw f (some u) = some (f u)

on_raw-if :
    {A : Type 0} (b : Bool) (f : Bytes → A) (u : Bytes) (o : Option Bytes)
    → on_raw f (if b then some u else o) ≡ (if b then some (f u) else on_raw f o)
on_raw-if true f u o = refl
on_raw-if false f u o = refl

module _ (json : Json) where
  -- Whether a name is in an object, and what its value is to a variable of a shape, if it fits one.
  unfoldable pub field_read : (s : Shape) → Bytes → List (Bytes × Bytes) → Option (Option (El s))
  unfolding raw_field
  field_read s k m = on_raw (λ u. decoded_of (json.unmarshal s u)) (raw_field k m)

  -- The fields of an encoded payload, of which the empty text has none.
  abbrev pub fields_in : Bytes → Option (Option (List (Bytes × Bytes)))
  fields_in [] = some (some [])
  fields_in (b ∷ payload) = json.unmarshal_fields (b ∷ payload)

-- Documented of encoding/json: the keys of an object that is decoded are UTF-8. An object with such
-- keys is encoded with each raw value compacted and <, > and & escaped, `tidy`, and so it is read
-- back; what a raw value is decoded to stays the same. A UTF-8 text is read back.
pub record KeepsFields (json : Json) : Type 0 where
  pub tidy : Bytes → Bytes
  pub text_keys :
      (payload : Bytes) (m : List (Bytes × Bytes))
      → json.unmarshal_fields payload ≡ some (some m)
      → HasText m
  pub read_back :
      (m : List (Bytes × Bytes)) (out : Bytes)
      → HasText m
      → json.marshal_fields m ≡ some out
      → (fields : List (Bytes × Bytes)) × (json.unmarshal_fields out ≡ some (some fields))
        × ((k : Bytes) → raw_field k fields ≡ on_raw tidy (raw_field k m))
  pub same_value :
      (s : Shape) (u : Bytes)
      → decoded_of (json.unmarshal s (tidy u)) ≡ decoded_of (json.unmarshal s u)
  pub text_back :
      (text out : Bytes)
      → is_utf8 text ≡ true
      → json.marshal_text text ≡ some out
      → json.unmarshal Shape.string out ≡ ok text

put-HasText :
    (key v : Bytes) (m : List (Bytes × Bytes))
    → is_utf8 key ≡ true
    → HasText m
    → HasText (put key v m)
unfolding put HasText
put-HasText key v [] h a = (h, tt)
put-HasText key v ((j, u) ∷ m) h a = elim (Bool-cases (bytes_eq j key)) [
  | inl e ↦ rw e (h, a.1)
  | inr e ↦ rw e (a.0, put-HasText key v m h a.1)
]

module _ {S : Type 0} (w : World S) where
  same-tidy :
      (keeps : KeepsFields w.json) (s : Shape) (o : Option Bytes)
      → on_raw (λ u. decoded_of (w.json.unmarshal s u)) (on_raw keeps.tidy o)
        ≡ on_raw (λ u. decoded_of (w.json.unmarshal s u)) o
  same-tidy keeps s none = refl
  same-tidy keeps s (some u) = ap some (keeps.same_value s u)

  text_keys-fields_in :
      (payload : Bytes) (m : List (Bytes × Bytes))
      → KeepsFields w.json
      → fields_in w.json payload ≡ some (some m)
      → HasText m
  unfolding HasText
  text_keys-fields_in [] m keeps e = let none_there : [] ≡ m = cc e in rw (← none_there) tt
  text_keys-fields_in (b ∷ payload) m keeps e = keeps.text_keys (b ∷ payload) m e

  with_client_id-made :
      (payload id encoded out : Bytes) (m : List (Bytes × Bytes)) (s : S)
      → fields_in w.json payload ≡ some (some m)
      → w.json.marshal_text id ≡ some encoded
      → w.json.marshal_fields (put (codes "client_id") encoded m) ≡ some out
      → with_client_id w payload id s ≡ (value out, s)
  unfolding with_client_id
  with_client_id-made [] id encoded out m s decoded named made =
      let none_there : [] ≡ m = cc decoded in
      let made_alone : w.json.marshal_fields (put (codes "client_id") encoded []) ≡ some out =
        ap (λ x. w.json.marshal_fields (put (codes "client_id") encoded x)) none_there ∙ made in
      rw (named, made_alone)
  with_client_id-made (b ∷ payload) id encoded out m s decoded named made =
      rw (decoded, named, made)

  -- If encoding/json decodes the payload of a command into an object, or the payload is empty, and if it
  -- encodes the id, which is UTF-8, and what is made of both, withClientID returns an object again.
  -- Under client_id it has a text that is decoded to the id, whatever the payload had there. Under every
  -- other name it has a field exactly if the payload has one, and a variable of any type gets the same
  -- value from it, or none. Of encoding/json it is taken that it brings back what it encodes, up to the
  -- spaces and the escapes inside a raw value.
  pub with_client_id-fields :
      (payload id encoded out : Bytes) (m : List (Bytes × Bytes)) (s : S)
      → KeepsFields w.json
      → is_utf8 id ≡ true
      → fields_in w.json payload ≡ some (some m)
      → w.json.marshal_text id ≡ some encoded
      → w.json.marshal_fields (put (codes "client_id") encoded m) ≡ some out
      → (with_client_id w payload id s ≡ (value out, s))
        × (fields : List (Bytes × Bytes)) × (w.json.unmarshal_fields out ≡ some (some fields))
        × (field_read w.json Shape.string (codes "client_id") fields ≡ some (some id))
        × ((shape : Shape) (k : Bytes)
            → field_read w.json shape k fields ≡ (
                if bytes_eq (codes "client_id") k
                then some (decoded_of (w.json.unmarshal shape encoded))
                else field_read w.json shape k m))
  unfolding field_read is_utf8
  with_client_id-fields payload id encoded out m s keeps valid decoded named made =
      let (fields, back, same) =
        keeps.read_back (put (codes "client_id") encoded m) out
          (put-HasText (codes "client_id") encoded m refl
            (text_keys-fields_in payload m keeps decoded))
          made in
      let read : (shape : Shape) (k : Bytes)
          → field_read w.json shape k fields ≡ (
              if bytes_eq (codes "client_id") k
              then some (decoded_of (w.json.unmarshal shape encoded))
              else field_read w.json shape k m) =
        λ shape k.
          ap (on_raw (λ u. decoded_of (w.json.unmarshal shape u))) (same k)
          ∙ same-tidy keeps shape (raw_field k (put (codes "client_id") encoded m))
          ∙ rw (raw_field-put k (codes "client_id") encoded m) (
              on_raw-if (bytes_eq (codes "client_id") k)
                (λ u. decoded_of (w.json.unmarshal shape u)) encoded (raw_field k m)) in
      (
        with_client_id-made payload id encoded out m s decoded named made,
        fields,
        back,
        read Shape.string (codes "client_id") ∙ rw (keeps.text_back id encoded valid named),
        read,
      )
