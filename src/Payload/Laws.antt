-- ===== src/Payload/Laws.antt =====
-- What payloadToMap holds under the name of a field of a struct, and under a key of a map.
use native.Mathlib.Omega.{arith}
use synap_sdk_go.Prelude.{
  ◌≡◌, refl, sym, Bool, true, false, ◌||◌, Option, none, some, if◌then◌else◌,
}
use synap_sdk_go.Bytes.{Bytes, bytes_eq, bytes_eq_sound}
use synap_sdk_go.Value.{Value, Entries, no_entries}
use synap_sdk_go.Value.Maps.{lookup, insert, lookup-insert}
use synap_sdk_go.Value.Text.{Runtime}
use package.synap_sdk_go.Payload.{
  Keyed, no_keys, key, map, keyed_map, Fields, struct, no_fields, field, is_skipped, payload_value,
  struct_map, payload_to_map,
}

unfoldable pub has_field : Bytes → Fields → Bool
unfolding bytes_eq
has_field name no_fields = false
has_field name (field f o r fs) = bytes_eq f name || has_field name fs

-- Fields with different names.
unfoldable pub IsDistinct : Fields → Type 0
unfolding has_field
IsDistinct no_fields = Unit
IsDistinct (field f o r fs) = (has_field f fs ≡ false) × IsDistinct fs

unfoldable pub has_key : Bytes → Keyed → Bool
unfolding bytes_eq
has_key name no_keys = false
has_key name (key k r m) = bytes_eq k name || has_key name m

-- A map has a key once.
unfoldable pub IsMap : Keyed → Type 0
unfolding has_key
IsMap no_keys = Unit
IsMap (key k r m) = (has_key k m ≡ false) × IsMap m

abbrev or_else : Option Value → Option Value → Option Value
or_else none w = w
or_else (some v) w = some v

or_else-none : (v : Option Value) → or_else v none ≡ v
or_else-none none = refl
or_else-none (some v) = refl

module _ (rt : Runtime) where
  -- The value of the first field of a name, unless it is skipped.
  unfoldable pub field_sent : Fields → Bytes → Option Value
  unfolding bytes_eq is_skipped payload_value
  field_sent no_fields name = none
  field_sent (field f o r fs) name =
      if bytes_eq f name
      then (if is_skipped rt o r then none else some (payload_value rt r))
      else field_sent fs name

  field_sent-has_field :
      (name : Bytes) (fs : Fields) → has_field name fs ≡ false → field_sent fs name ≡ none
  unfolding field_sent has_field
  field_sent-has_field name no_fields h = refl
  field_sent-has_field name (field f o r fs) h = ground (arith, field_sent-has_field name fs)

  field_sent-behind :
      (f name : Bytes) (fs : Fields)
      → has_field f fs ≡ false
      → bytes_eq f name ≡ true
      → field_sent fs name ≡ none
  field_sent-behind f name fs h e =
      field_sent-has_field name fs (rw (sym (bytes_eq_sound f name e)) h)

  lookup-struct_map :
      (name : Bytes) (fs : Fields) (out : Entries)
      → IsDistinct fs
      → lookup name (struct_map rt fs out) ≡ or_else (field_sent fs name) (lookup name out)
  unfolding field_sent struct_map IsDistinct
  lookup-struct_map name no_fields out h = refl
  lookup-struct_map name (field f o r fs) out h = ground (
    arith,
    lookup-struct_map name fs out h.1,
    lookup-struct_map name fs (insert f (payload_value rt r) out) h.1,
    lookup-insert f name (payload_value rt r) out,
    field_sent-behind f name fs h.0,
  )

  pub lookup-payload_to_map :
      (fs : Fields) (name : Bytes)
      → IsDistinct fs
      → lookup name (payload_to_map rt (struct fs)) ≡ field_sent fs name
  unfolding payload_to_map lookup
  lookup-payload_to_map fs name h =
      rw (lookup-struct_map name fs no_entries h, or_else-none (field_sent fs name))

  -- The value of a key of a map, as the payload has it.
  unfoldable pub key_sent : Keyed → Bytes → Option Value
  unfolding bytes_eq payload_value
  key_sent no_keys name = none
  key_sent (key k r m) name = if bytes_eq k name then some (payload_value rt r) else key_sent m name

  key_sent-has_key : (name : Bytes) (m : Keyed) → has_key name m ≡ false → key_sent m name ≡ none
  unfolding key_sent has_key
  key_sent-has_key name no_keys h = refl
  key_sent-has_key name (key k r m) h = ground (arith, key_sent-has_key name m)

  key_sent-behind :
      (k name : Bytes) (m : Keyed)
      → has_key k m ≡ false
      → bytes_eq k name ≡ true
      → key_sent m name ≡ none
  key_sent-behind k name m h e = key_sent-has_key name m (rw (sym (bytes_eq_sound k name e)) h)

  lookup-keyed_map :
      (name : Bytes) (m : Keyed) (out : Entries)
      → IsMap m
      → lookup name (keyed_map rt m out) ≡ or_else (key_sent m name) (lookup name out)
  unfolding key_sent payload_value IsMap
  lookup-keyed_map name no_keys out h = refl
  lookup-keyed_map name (key k r m) out h = ground (
    arith,
    lookup-keyed_map name m (insert k (payload_value rt r) out) h.1,
    lookup-insert k name (payload_value rt r) out,
    key_sent-behind k name m h.0,
  )

  pub lookup-map :
      (m : Keyed) (name : Bytes)
      → IsMap m
      → lookup name (payload_to_map rt (map m)) ≡ key_sent m name
  unfolding payload_to_map lookup
  lookup-map m name h = rw (lookup-keyed_map name m no_entries h, or_else-none (key_sent m name))
