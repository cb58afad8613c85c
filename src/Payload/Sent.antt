-- ===== src/Payload/Sent.antt =====
-- What payloadToMap makes of a struct, against Go's rules for its fields and their values.
use synap_sdk_go.Prelude.{
  ◌≡◌, refl, sym, ◌∙◌, ◌≢◌, Bool, true, false, inl, inr, Bool-cases, arith, Option, none, some, ℕ,
  zero, ℤ, pos, [], if◌then◌else◌,
}
use synap_sdk_go.Bytes.{Bytes, bytes_eq}
use synap_sdk_go.Value.{Value, Values, nil, bool, float64, str, arr, dict, no_values, item}
use synap_sdk_go.Value.Maps.{lookup}
use synap_sdk_go.Value.Text.{Runtime}
use package.synap_sdk_go.Payload.{
  Reflected, string, bytes, boolean, integer, unsigned, float, nil_pointer, nil_interface, other,
  ref, seq, map, Sequence, no_items, next, Keyed, no_keys, key, is_empty_value, payload_values,
  Fields, struct, no_fields, field, is_skipped, payload_value, payload_to_map,
}
use package.synap_sdk_go.Payload.Laws.{
  IsDistinct, IsMap, field_sent, key_sent, lookup-payload_to_map, lookup-map,
}

-- The first field of a name: whether its tag has omitempty, and its value.
unfoldable pub field_of : Fields → Bytes → Option (Bool × Reflected)
unfolding bytes_eq
field_of no_fields name = none
field_of (field f o r fs) name = if bytes_eq f name then some (o, r) else field_of fs name

unfoldable pub value_at : Keyed → Bytes → Option Reflected
unfolding bytes_eq
value_at no_keys name = none
value_at (key k r m) name = if bytes_eq k name then some r else value_at m name

module _ (rt : Runtime) where
  -- The values that Go's omitempty takes for empty.
  pub data IsEmpty : Reflected → Type 0 where
    no_text : IsEmpty (string [])
    no_bytes : IsEmpty (bytes [])
    is_false : IsEmpty (boolean false)
    zero_integer : IsEmpty (integer (pos 0))
    zero_unsigned : IsEmpty (unsigned 0)
    zero_float : (f : ℕ) → rt.float_nonzero f ≡ false → IsEmpty (float f)
    nil_reference : IsEmpty nil_pointer
    nil_value : IsEmpty nil_interface
    empty_sequence : IsEmpty (seq no_items)
    empty_map : IsEmpty (map no_keys)

  -- What a value is sent as: strings and byte slices byte for byte as strings, every number as a
  -- float64, a pointer as what it leads to, a list item by item, and a map or struct inside as
  -- payloadToMap makes it of that map or struct alone.
  mutual
    pub data Means : Reflected → Value → Type 0 where
      text : (s : Bytes) → Means (string s) (str s)
      binary : (s : Bytes) → Means (bytes s) (str s)
      truth : (b : Bool) → Means (boolean b) (bool b)
      number : (n : ℤ) → Means (integer n) (float64 (rt.float_of_int n))
      natural : (n : ℕ) → Means (unsigned n) (float64 (rt.float_of_int (pos n)))
      real : (f : ℕ) → Means (float f) (float64 f)
      nothing : Means nil_pointer nil
      no_value : Means nil_interface nil
      unsupported : Means other nil
      through : (r : Reflected) (v : Value) → Means r v → Means (ref r) v
      items : (s : Sequence) (vs : Values) → MeanAll s vs → Means (seq s) (arr vs)
      keyed : (m : Keyed) → Means (map m) (dict (payload_to_map rt (map m)))
      nested : (fs : Fields) → Means (struct fs) (dict (payload_to_map rt (struct fs)))

    pub data MeanAll : Sequence → Values → Type 0 where
      end : MeanAll no_items no_values
      more :
          (r : Reflected) (s : Sequence) (v : Value) (vs : Values)
          → Means r v
          → MeanAll s vs
          → MeanAll (next r s) (item v vs)

  -- What stands in the map for a field: nothing for a nil pointer, and nothing for an empty value
  -- where the tag has omitempty; otherwise what the value means.
  pub data Sent : Option (Bool × Reflected) → Option Value → Type 0 where
    absent : Sent none none
    nil_left_out : (o : Bool) → Sent (some (o, nil_pointer)) none
    empty_left_out : (r : Reflected) → IsEmpty r → Sent (some (true, r)) none
    required :
        (r : Reflected) (v : Value) → r ≢ nil_pointer → Means r v → Sent (some (false, r)) (some v)
    filled :
        (r : Reflected) (v : Value) → (IsEmpty r → ⊥) → Means r v → Sent (some (true, r)) (some v)

  -- What stands in the map for a key of a map: what its value means, also a nil pointer.
  pub data Held : Option Reflected → Option Value → Type 0 where
    no_key : Held none none
    held : (r : Reflected) (v : Value) → Means r v → Held (some r) (some v)

  is_empty_value-IsEmpty : (r : Reflected) → is_empty_value rt r ≡ true → IsEmpty r
  unfolding is_empty_value
  is_empty_value-IsEmpty (string []) h = no_text
  is_empty_value-IsEmpty (bytes []) h = no_bytes
  is_empty_value-IsEmpty (boolean false) h = is_false
  is_empty_value-IsEmpty (integer (pos zero)) h = zero_integer
  is_empty_value-IsEmpty (unsigned zero) h = zero_unsigned
  is_empty_value-IsEmpty (float f) h = zero_float f (ground (arith, h))
  is_empty_value-IsEmpty nil_pointer h = nil_reference
  is_empty_value-IsEmpty nil_interface h = nil_value
  is_empty_value-IsEmpty (seq no_items) h = empty_sequence
  is_empty_value-IsEmpty (map no_keys) h = empty_map
  is_empty_value-IsEmpty r h = absurd (ground (arith, h))

  IsEmpty-is_empty_value : (r : Reflected) → IsEmpty r → is_empty_value rt r ≡ true
  unfolding is_empty_value
  IsEmpty-is_empty_value r no_text = refl
  IsEmpty-is_empty_value r no_bytes = refl
  IsEmpty-is_empty_value r is_false = refl
  IsEmpty-is_empty_value r zero_integer = refl
  IsEmpty-is_empty_value r zero_unsigned = refl
  IsEmpty-is_empty_value r (zero_float f h) = rw h
  IsEmpty-is_empty_value r nil_reference = refl
  IsEmpty-is_empty_value r nil_value = refl
  IsEmpty-is_empty_value r empty_sequence = refl
  IsEmpty-is_empty_value r empty_map = refl

  mutual
    unfolding payload_value payload_to_map

    payload_value-Means : (r : Reflected) → Means r (payload_value rt r)
    payload_value-Means (string s) = text s
    payload_value-Means (bytes s) = binary s
    payload_value-Means (boolean b) = truth b
    payload_value-Means (integer n) = number n
    payload_value-Means (unsigned n) = natural n
    payload_value-Means (float f) = real f
    payload_value-Means nil_pointer = nothing
    payload_value-Means nil_interface = no_value
    payload_value-Means other = unsupported
    payload_value-Means (ref r) = through r (payload_value rt r) (payload_value-Means r)
    payload_value-Means (seq s) = items s (payload_values rt s) (payload_values-MeanAll s)
    payload_value-Means (map m) = keyed m
    payload_value-Means (struct fs) = nested fs

    payload_values-MeanAll : (s : Sequence) → MeanAll s (payload_values rt s)
    payload_values-MeanAll no_items = end
    payload_values-MeanAll (next r s) =
        more r s (payload_value rt r) (payload_values rt s) (payload_value-Means r)
          (payload_values-MeanAll s)

  clash : (true ≡ false) → ⊥
  clash h = cc

  is_skipped-true : (r : Reflected) → is_skipped rt true r ≡ is_empty_value rt r
  unfolding is_skipped is_empty_value
  is_skipped-true nil_pointer = refl
  is_skipped-true r = refl

  ne_nil_pointer : (r : Reflected) → is_skipped rt false r ≡ false → r ≢ nil_pointer
  unfolding is_skipped
  ne_nil_pointer nil_pointer h = cc
  ne_nil_pointer r h = λ e. cc

  is_skipped-required :
      (r : Reflected) (skipped : Bool)
      → is_skipped rt false r ≡ skipped
      → Sent (some (false, r)) (if skipped then none else some (payload_value rt r))
  unfolding is_skipped
  is_skipped-required nil_pointer true h = nil_left_out false
  is_skipped-required r false h =
      required r (payload_value rt r) (ne_nil_pointer r h) (payload_value-Means r)
  is_skipped-required r true h = absurd cc

  is_skipped-optional :
      (r : Reflected) (skipped : Bool)
      → is_skipped rt true r ≡ skipped
      → Sent (some (true, r)) (if skipped then none else some (payload_value rt r))
  is_skipped-optional r true h =
      empty_left_out r (is_empty_value-IsEmpty r (sym (is_skipped-true r) ∙ h))
  is_skipped-optional r false h =
      filled r (payload_value rt r)
        (λ e. clash (sym (IsEmpty-is_empty_value r e) ∙ sym (is_skipped-true r) ∙ h))
        (payload_value-Means r)

  sent_if-Sent :
      (o : Bool) (r : Reflected)
      → Sent (some (o, r)) (if is_skipped rt o r then none else some (payload_value rt r))
  sent_if-Sent false r = is_skipped-required r (is_skipped rt false r) refl
  sent_if-Sent true r = is_skipped-optional r (is_skipped rt true r) refl

  field_sent-Sent : (fs : Fields) (name : Bytes) → Sent (field_of fs name) (field_sent rt fs name)
  unfolding field_sent field_of
  field_sent-Sent no_fields name = absent
  field_sent-Sent (field f o r fs) name = elim (Bool-cases (bytes_eq f name)) [
    | inl e ↦ rw e (sent_if-Sent o r)
    | inr e ↦ rw e (field_sent-Sent fs name)
  ]

  key_sent-Held : (m : Keyed) (name : Bytes) → Held (value_at m name) (key_sent rt m name)
  unfolding key_sent value_at
  key_sent-Held no_keys name = no_key
  key_sent-Held (key k r m) name = elim (Bool-cases (bytes_eq k name)) [
    | inl e ↦ rw e (held r (payload_value rt r) (payload_value-Means r))
    | inr e ↦ rw e (key_sent-Held m name)
  ]

  -- For a struct whose fields have different names, payloadToMap holds under the name of a field what
  -- its value means: strings and byte slices byte for byte as strings, numbers as float64, pointers as
  -- what they lead to, lists item by item, and maps and structs inside as payloadToMap makes them of
  -- these alone. It holds nothing there for a nil pointer, nor, where the tag has omitempty, for false,
  -- zero, nil, and an empty text, list or map; and nothing under a name that no field has. For a map it
  -- holds under every key what the value of that key means, also where it is empty or nil, and nothing
  -- under any other.
  pub payload_to_map-Sent :
      (fs : Fields) (m : Keyed) (name : Bytes)
      → IsDistinct fs
      → IsMap m
      → Sent (field_of fs name) (lookup name (payload_to_map rt (struct fs)))
        × Held (value_at m name) (lookup name (payload_to_map rt (map m)))
  payload_to_map-Sent fs m name h k = (
    rw (lookup-payload_to_map rt fs name h) (field_sent-Sent fs name),
    rw (lookup-map rt m name k) (key_sent-Held m name),
  )
