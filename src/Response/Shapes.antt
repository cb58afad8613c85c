-- ===== src/Response/Shapes.antt =====
-- The Go types that replies are decoded into, as far as assign of response.go tells them apart.
use synap_sdk_go.Prelude.{ℕ, Bool, false, Option, none, List, [], ℤ, pos}
use synap_sdk_go.Bytes.{Bytes}
use synap_sdk_go.Value.{Value, nil}

-- `int` is int and int64, `uint` has its width; `bytes` is []byte, `any` is interface{}; a map has
-- string keys, and a struct its exported fields with the names of their tags.
mutual
  pub data Shape : Type 0 where
    string bool int float bytes any : Shape
    uint : ℕ → Shape
    ptr slice dict : Shape → Shape
    struct : Fields → Shape

  pub data Fields : Type 0 where
    no_fields : Fields
    field : Bytes → Shape → Fields → Fields

-- The values of a shape. A nil slice or map is an empty one.
abbrev mutual
  pub El : Shape → Type 0
  El string = Bytes
  El bool = Bool
  El int = ℤ
  El float = ℕ
  El bytes = Bytes
  El any = Value
  El (uint bits) = ℕ
  El (ptr s) = Option (El s)
  El (slice s) = List (El s)
  El (dict s) = List (Bytes × El s)
  El (struct fs) = ElFields fs

  pub ElFields : Fields → Type 0
  ElFields no_fields = Unit
  ElFields (field name s fs) = El s × ElFields fs

-- reflect.Zero; the pattern of the float 0 is 0.
abbrev mutual
  pub zero_of : (s : Shape) → El s
  zero_of string = []
  zero_of bool = false
  zero_of int = pos 0
  zero_of float = 0
  zero_of bytes = []
  zero_of any = nil
  zero_of (uint bits) = 0
  zero_of (ptr s) = none
  zero_of (slice s) = []
  zero_of (dict s) = []
  zero_of (struct fs) = zero_fields fs

  pub zero_fields : (fs : Fields) → ElFields fs
  zero_fields no_fields = tt
  zero_fields (field name s fs) = (zero_of s, zero_fields fs)
