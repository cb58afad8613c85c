-- ===== src/Payload.antt =====
-- payload.go: a payload as reflection sees it, and payloadToMap.
pub mod Laws
pub mod Sent
pub mod Tags
use synap_sdk_go.Prelude.{
  ℕ, Bool, not, true, false, ◌&&◌, Option, none, some, ℤ, pos, is_nonzero, List, [], ◌==◌,
  if◌then◌else◌,
}
use synap_sdk_go.Bytes.{Bytes, is_empty}
use synap_sdk_go.Value.{
  Value, Values, Entries, nil, bool, float64, str, arr, dict, no_values, item, no_entries, entry,
}
use synap_sdk_go.Value.Maps.{insert}
use synap_sdk_go.Value.Text.{Runtime}

-- A reflect.Value by its kind, all widths of a kind as one. `ref` is a pointer or an interface that
-- is not nil, `seq` a slice or array, but for []byte; a field has its name from the tag, and whether
-- the tag has omitempty. Unexported fields and those of the tag "-" are left out.
mutual
  pub data Reflected : Type 0 where
    string bytes : Bytes → Reflected
    boolean : Bool → Reflected
    integer : ℤ → Reflected
    unsigned float : ℕ → Reflected
    nil_pointer nil_interface other : Reflected
    ref : Reflected → Reflected
    seq : Sequence → Reflected
    map : Keyed → Reflected
    struct : Fields → Reflected

  pub data Sequence : Type 0 where
    no_items : Sequence
    next : Reflected → Sequence → Sequence

  pub data Keyed : Type 0 where
    no_keys : Keyed
    key : Bytes → Reflected → Keyed → Keyed

  pub data Fields : Type 0 where
    no_fields : Fields
    field : Bytes → (omit_empty : Bool) → Reflected → Fields → Fields

-- Whether a map or slice has no element.
abbrev is_empty_keyed : Keyed → Bool
is_empty_keyed no_keys = true
is_empty_keyed (key k r m) = false

abbrev is_empty_sequence : Sequence → Bool
is_empty_sequence no_items = true
is_empty_sequence (next r s) = false

module _ (rt : Runtime) where
  unfoldable pub is_empty_value : Reflected → Bool
  is_empty_value (string s) = is_empty s
  is_empty_value (bytes s) = is_empty s
  is_empty_value (boolean b) = not b
  is_empty_value (integer n) = not (is_nonzero n)
  is_empty_value (unsigned n) = n == 0
  is_empty_value (float f) = not (rt.float_nonzero f)
  is_empty_value nil_pointer = true
  is_empty_value nil_interface = true
  is_empty_value (seq s) = is_empty_sequence s
  is_empty_value (map m) = is_empty_keyed m
  is_empty_value r = false

  -- The fields that payloadToMap leaves out.
  unfoldable pub is_skipped : Bool → Reflected → Bool
  unfolding is_empty_value
  is_skipped omit_empty nil_pointer = true
  is_skipped omit_empty r = omit_empty && is_empty_value r

  unfoldable mutual
    unfolding insert is_skipped

    payload_value : Reflected → Value
    payload_value (string s) = str s
    payload_value (bytes s) = str s
    payload_value (boolean b) = bool b
    payload_value (integer n) = float64 (rt.float_of_int n)
    payload_value (unsigned n) = float64 (rt.float_of_int (pos n))
    payload_value (float f) = float64 f
    payload_value nil_pointer = nil
    payload_value nil_interface = nil
    payload_value other = nil
    payload_value (ref r) = payload_value r
    payload_value (seq s) = arr (payload_values s)
    payload_value (map m) = dict (keyed_map m no_entries)
    payload_value (struct fs) = dict (struct_map fs no_entries)

    pub payload_values : Sequence → Values
    payload_values no_items = no_values
    payload_values (next r s) = item (payload_value r) (payload_values s)

    pub keyed_map : Keyed → Entries → Entries
    keyed_map no_keys out = out
    keyed_map (key k r m) out = keyed_map m (insert k (payload_value r) out)

    -- The loop over the fields.
    struct_map : Fields → Entries → Entries
    struct_map no_fields out = out
    struct_map (field name omit_empty r fs) out =
        let v = payload_value r in
        struct_map fs (if is_skipped omit_empty r then out else insert name v out)

  unfoldable pub payload_to_map : Reflected → Entries
  unfolding payload_value
  payload_to_map (ref r) = payload_to_map r
  payload_to_map (map m) = keyed_map m no_entries
  payload_to_map (struct fs) = struct_map fs no_entries
  payload_to_map r = no_entries
