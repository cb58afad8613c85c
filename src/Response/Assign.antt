-- ===== src/Response/Assign.antt =====
-- assign of response.go with asStringValue, asInt and asFloat.
pub mod RoundTrip
pub mod Items
use synap_sdk_go.Prelude.{
  ℕ, ◌%◌, ◌^◌, Bool, true, false, Option, none, some, List, [], ◌∷◌, ℤ, pos, negsuc, is_nonzero,
}
use synap_sdk_go.Bytes.{Bytes, codes}
use synap_sdk_go.Bytes.Decimal.{format_int, parse_int}
use synap_sdk_go.Value.{
  Value, Values, Entries, nil, bool, int64, float64, str, bytes, arr, dict, no_values, item,
  no_entries, entry,
}
use synap_sdk_go.Value.Maps.{lookup}
use synap_sdk_go.Value.Text.{Runtime, bool_text}
use synap_sdk_go.Errors.{Result, ok, err, wrapped, ◌>>=◌}
use package.synap_sdk_go.Response.Shapes.{Shape, Fields, El, ElFields, zero_of}

abbrev pub cannot_decode : {A : Type 0} → Result A
cannot_decode = err (wrapped (codes "synap: cannot decode"))

abbrev or_syntax : {A : Type 0} → Option A → Result A
or_syntax none = err (wrapped (codes "strconv: parsing"))
or_syntax (some a) = ok a

-- A nil reply sets the target to its zero value.
abbrev pub unless_nil : (s : Shape) → Value → Result (El s) → Result (El s)
unless_nil s nil r = ok (zero_of s)
unless_nil s v r = r

abbrev some_or_zero : (s : Shape) → Option (El s) → El s
some_or_zero s none = zero_of s
some_or_zero s (some x) = x

assign_all : {A : Type 0} → (Value → Result A) → Values → Result (List A)
assign_all f no_values = ok []
assign_all f (item v vs) = f v >>= λ a. assign_all f vs >>= λ as'. ok (a ∷ as')

assign_entries : {A : Type 0} → (Value → Result A) → Entries → Result (List (Bytes × A))
assign_entries f no_entries = ok []
assign_entries f (entry k v m) = f v >>= λ a. assign_entries f m >>= λ as'. ok ((k, a) ∷ as')

abbrev to_slice : {A : Type 0} → (Value → Result A) → Value → Result (List A)
to_slice f (arr vs) = assign_all f vs
to_slice f v = cannot_decode

abbrev to_map : {A : Type 0} → (Value → Result A) → Value → Result (List (Bytes × A))
to_map f (dict m) = assign_entries f m
to_map f v = cannot_decode

-- A field that the reply lacks keeps what it holds.
abbrev to_field : (s : Shape) → El s → (Value → Result (El s)) → Option Value → Result (El s)
to_field s x f none = ok x
to_field s x f (some v) = f v

abbrev to_struct : {A : Type 0} → (Entries → Result A) → Value → Result A
to_struct f (dict m) = f m
to_struct f v = cannot_decode

module _ (rt : Runtime) where
  unfoldable pub as_string : Value → Result Bytes
  unfolding format_int bool_text
  as_string (str s) = ok s
  as_string (bytes s) = ok s
  as_string (int64 n) = ok (format_int n)
  as_string (float64 f) = ok (rt.format_float f)
  as_string (bool b) = ok (bool_text b)
  as_string v = cannot_decode

  unfoldable pub as_int : Value → Result ℤ
  unfolding parse_int
  as_int (int64 n) = ok n
  as_int (float64 f) = ok (rt.int_of_float f)
  as_int (str s) = or_syntax (parse_int s)
  as_int (bool true) = ok (pos 1)
  as_int (bool false) = ok (pos 0)
  as_int v = cannot_decode

  unfoldable pub as_float : Value → Result ℕ
  as_float (float64 f) = ok f
  as_float (int64 n) = ok (rt.float_of_int n)
  as_float (str s) = or_syntax (rt.parse_float s)
  as_float v = cannot_decode

  unfoldable pub as_bool : Value → Result Bool
  as_bool (bool b) = ok b
  as_bool (int64 n) = ok (is_nonzero n)
  as_bool (float64 f) = ok (rt.float_nonzero f)
  as_bool v = cannot_decode

  -- SetUint keeps the low bits.
  abbrev to_uint : ℕ → ℤ → Result ℕ
  to_uint bits (pos n) = ok (n % 2 ^ bits)
  to_uint bits (negsuc n) = cannot_decode

  mutual
    unfolding lookup assign_all assign_entries as_string as_int as_float as_bool

    to_shape : (s : Shape) → El s → Value → Result (El s)
    to_shape Shape.string x v = unless_nil Shape.string v (as_string v)
    to_shape Shape.bool x v = unless_nil Shape.bool v (as_bool v)
    to_shape Shape.int x v = unless_nil Shape.int v (as_int v)
    to_shape Shape.float x v = unless_nil Shape.float v (as_float v)
    to_shape Shape.bytes x v = unless_nil Shape.bytes v (as_string v)
    to_shape Shape.any x v = ok v
    to_shape (Shape.uint bits) x v = unless_nil (Shape.uint bits) v (as_int v >>= to_uint bits)
    to_shape (Shape.ptr s) x v =
        unless_nil (Shape.ptr s) v (to_shape s (some_or_zero s x) v >>= λ y. ok (some y))
    to_shape (Shape.slice s) x v =
        unless_nil (Shape.slice s) v (to_slice (to_shape s (zero_of s)) v)
    to_shape (Shape.dict s) x v = unless_nil (Shape.dict s) v (to_map (to_shape s (zero_of s)) v)
    to_shape (Shape.struct fs) x v = unless_nil (Shape.struct fs) v (to_struct (to_fields fs x) v)

    to_fields : (fs : Fields) → ElFields fs → Entries → Result (ElFields fs)
    to_fields Fields.no_fields x m = ok tt
    to_fields (Fields.field name s fs) x m =
        to_field s x.0 (to_shape s x.0) (lookup name m) >>= λ y.
        to_fields fs x.1 m >>= λ ys. ok (y, ys)

  -- Into a target of shape s that holds x.
  unfoldable pub assign : (s : Shape) → El s → Value → Result (El s)
  unfolding to_shape
  assign s x v = to_shape s x v
