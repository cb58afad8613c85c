-- ===== src/Response/Assign/RoundTrip.antt =====
-- assign of response.go against the value that a typed reply is sent as.
use native.Mathlib.Omega.{arith}
use native.Mathlib.Nat.{mod-eq_of_lt}
use synap_sdk_go.Prelude.{
  ◌<◌, ◌≡◌, refl, ◌^◌, Bool, true, false, ◌||◌, none, some, List, [], ◌∷◌, pos, InInt64,
}
use synap_sdk_go.Bytes.{Bytes, bytes_eq, bytes_eq_refl}
use synap_sdk_go.Value.{
  Value, Values, Entries, nil, bool, int64, float64, str, arr, dict, no_values, item, no_entries,
  entry,
}
use synap_sdk_go.Value.Maps.{lookup}
use synap_sdk_go.Value.Text.{Runtime}
use synap_sdk_go.Errors.{Result, ok, ◌>>=◌}
use package.synap_sdk_go.Response.Shapes.{Shape, Fields, El, ElFields, zero_of}
use package.synap_sdk_go.Response.Assign.{
  some_or_zero, assign, to_shape, to_fields, unless_nil, assign_all, assign_entries, as_string,
  as_int, as_float, as_bool,
}

items_of : {A : Type 0} → (A → Value) → List A → Values
items_of f [] = no_values
items_of f (a ∷ as') = item (f a) (items_of f as')

entries_of : {A : Type 0} → (A → Value) → List (Bytes × A) → Entries
entries_of f [] = no_entries
entries_of f ((k, a) ∷ m) = entry k (f a) (entries_of f m)

-- The value that Execute returns for data of a shape: an int64 for every integer, a string for text
-- and for bytes, a map for a struct, nil for a nil pointer.
unfoldable mutual
  unfolding items_of entries_of

  pub value_of : (s : Shape) → El s → Value
  value_of Shape.string y = str y
  value_of Shape.bool y = bool y
  value_of Shape.int y = int64 y
  value_of Shape.float y = float64 y
  value_of Shape.bytes y = str y
  value_of Shape.any y = y
  value_of (Shape.uint bits) y = int64 (pos y)
  value_of (Shape.ptr s) none = nil
  value_of (Shape.ptr s) (some y) = value_of s y
  value_of (Shape.slice s) ys = arr (items_of (value_of s) ys)
  value_of (Shape.dict s) m = dict (entries_of (value_of s) m)
  value_of (Shape.struct fs) ys = dict (fields_of fs ys)

  fields_of : (fs : Fields) → ElFields fs → Entries
  fields_of Fields.no_fields ys = no_entries
  fields_of (Fields.field name s fs) ys = entry name (value_of s ys.0) (fields_of fs ys.1)

-- The shapes of which some value is sent as nil.
abbrev pub is_nullable : Shape → Bool
is_nullable Shape.any = true
is_nullable (Shape.ptr s) = true
is_nullable s = false

has_field : Bytes → Fields → Bool
unfolding bytes_eq
has_field name Fields.no_fields = false
has_field name (Fields.field f s fs) = bytes_eq name f || has_field name fs

Each : {A : Type 0} → (A → Type 0) → List A → Type 0
Each P [] = Unit
Each P (a ∷ as') = P a × Each P as'

-- Integers fit int64 and the width of their target, no pointer leads to what may itself be nil, and the
-- fields of a struct have different names.
unfoldable mutual
  unfolding Each has_field

  pub Fits : (s : Shape) → El s → Type 0
  Fits (Shape.uint bits) y = (y < 2 ^ bits) × (y < 2 ^ 63)
  Fits Shape.int y = InInt64 y
  Fits (Shape.ptr s) none = Unit
  Fits (Shape.ptr s) (some y) = (is_nullable s ≡ false) × Fits s y
  Fits (Shape.slice s) ys = Each (Fits s) ys
  Fits (Shape.dict s) m = Each (λ p. Fits s p.1) m
  Fits (Shape.struct fs) ys = FitsFields fs ys
  Fits s y = Unit

  FitsFields : (fs : Fields) → ElFields fs → Type 0
  FitsFields Fields.no_fields ys = Unit
  FitsFields (Fields.field name s fs) ys =
      (has_field name fs ≡ false) × Fits s ys.0 × FitsFields fs ys.1

-- The fields of a struct stand in a map under their names.
Agrees : (fs : Fields) → ElFields fs → Entries → Type 0
unfolding lookup value_of
Agrees Fields.no_fields ys m = Unit
Agrees (Fields.field name s fs) ys m = (lookup name m ≡ some (value_of s ys.0)) × Agrees fs ys.1 m

entry-Agrees :
    (fs : Fields) (ys : ElFields fs) (name : Bytes) (v : Value) (m : Entries)
    → has_field name fs ≡ false
    → Agrees fs ys m
    → Agrees fs ys (entry name v m)
unfolding Agrees has_field lookup
entry-Agrees Fields.no_fields ys name v m h a = tt
entry-Agrees (Fields.field f s fs) ys name v m h a =
    ((ground (arith, a.0)), entry-Agrees fs ys.1 name v m (ground arith) a.1)

fields_of-Agrees :
    (fs : Fields) (ys : ElFields fs) → FitsFields fs ys → Agrees fs ys (fields_of fs ys)
unfolding Agrees fields_of Fits lookup
fields_of-Agrees Fields.no_fields ys h = tt
fields_of-Agrees (Fields.field name s fs) ys h = (
  ground (arith, bytes_eq_refl name),
  entry-Agrees fs ys.1 name (value_of s ys.0) (fields_of fs ys.1) h.0
      (fields_of-Agrees fs ys.1 h.2),
)

unless_nil-value_of :
    (s t : Shape) (y : El s) (r : Result (El t))
    → is_nullable s ≡ false
    → unless_nil t (value_of s y) r ≡ r
unfolding value_of
unless_nil-value_of Shape.string t y r h = refl
unless_nil-value_of Shape.bool t y r h = refl
unless_nil-value_of Shape.int t y r h = refl
unless_nil-value_of Shape.float t y r h = refl
unless_nil-value_of Shape.bytes t y r h = refl
unless_nil-value_of Shape.any t y r h = cc
unless_nil-value_of (Shape.uint bits) t y r h = refl
unless_nil-value_of (Shape.ptr s) t y r h = cc
unless_nil-value_of (Shape.slice s) t y r h = refl
unless_nil-value_of (Shape.dict s) t y r h = refl
unless_nil-value_of (Shape.struct fs) t y r h = refl

assign_all-items_of :
    {A : Type 0} (P : A → Type 0) (f : Value → Result A) (g : A → Value)
    → ((a : A) → P a → f (g a) ≡ ok a)
    → (as' : List A) → Each P as'
    → assign_all f (items_of g as') ≡ ok as'
unfolding assign_all items_of Each
assign_all-items_of P f g h [] e = refl
assign_all-items_of P f g h (a ∷ as') e = rw (h a e.0, assign_all-items_of P f g h as' e.1)

assign_entries-entries_of :
    {A : Type 0} (P : A → Type 0) (f : Value → Result A) (g : A → Value)
    → ((a : A) → P a → f (g a) ≡ ok a)
    → (m : List (Bytes × A)) → Each (λ p. P p.1) m
    → assign_entries f (entries_of g m) ≡ ok m
unfolding assign_entries entries_of Each
assign_entries-entries_of P f g h [] e = refl
assign_entries-entries_of P f g h ((k, a) ∷ m) e =
    rw (h a e.0, assign_entries-entries_of P f g h m e.1)

module _ (rt : Runtime) where
  mutual
    unfolding assign to_shape Agrees Fits value_of as_string as_int as_float as_bool

    to_shape-value_of : (s : Shape) (x y : El s) → Fits s y → to_shape rt s x (value_of s y) ≡ ok y
    to_shape-value_of Shape.string x y h = refl
    to_shape-value_of Shape.bool x y h = refl
    to_shape-value_of Shape.int x y h = refl
    to_shape-value_of Shape.float x y h = refl
    to_shape-value_of Shape.bytes x y h = refl
    to_shape-value_of Shape.any x y h = refl
    to_shape-value_of (Shape.uint bits) x y h = rw (mod-eq_of_lt h.0)
    to_shape-value_of (Shape.ptr s) x none h = refl
    to_shape-value_of (Shape.ptr s) x (some y) h = rw (
      unless_nil-value_of s (Shape.ptr s) y
          (to_shape rt s (some_or_zero s x) (value_of s y) >>= λ z. ok (some z)) h.0,
      to_shape-value_of s (some_or_zero s x) y h.1,
    )
    to_shape-value_of (Shape.slice s) x ys h =
        assign_all-items_of (Fits s) (to_shape rt s (zero_of s)) (value_of s)
          (to_shape-value_of s (zero_of s)) ys h
    to_shape-value_of (Shape.dict s) x m h =
        assign_entries-entries_of (Fits s) (to_shape rt s (zero_of s)) (value_of s)
          (to_shape-value_of s (zero_of s)) m h
    to_shape-value_of (Shape.struct fs) x ys h =
        to_fields-Agrees fs x ys (fields_of fs ys) h (fields_of-Agrees fs ys h)

    to_fields-Agrees :
        (fs : Fields) (x ys : ElFields fs) (m : Entries)
        → FitsFields fs ys
        → Agrees fs ys m
        → to_fields rt fs x m ≡ ok ys
    to_fields-Agrees Fields.no_fields x ys m h a = refl
    to_fields-Agrees (Fields.field name s fs) x ys m h a =
        rw (a.0, to_shape-value_of s x.0 ys.0 h.1, to_fields-Agrees fs x.1 ys.1 m h.2 a.1)

  -- Decoding the value that Execute returns for any data (an int64 for each integer, a string for text
  -- and for bytes) gives exactly that data, whatever the target held before. The integers of the data
  -- fit int64 and their targets, pointers lead to nothing that may be nil, and structs have fields of
  -- different names.
  pub assign-value_of : (s : Shape) (x y : El s) → Fits s y → assign rt s x (value_of s y) ≡ ok y
  unfolding assign
  assign-value_of s x y h = to_shape-value_of s x y h
