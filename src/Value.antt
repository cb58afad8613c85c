-- ===== src/Value.antt =====
-- Values of the type interface{} as the client passes them about: a constructor for each dynamic
-- type that the sources make or test for. A float64 is its 64-bit pattern.
pub mod Maps
pub mod Text
use synap_sdk_go.Prelude.{ℕ, Bool, ℤ, List, [], ◌∷◌}
use synap_sdk_go.Bytes.{Bytes}

-- The integer types that only normalizeInts tells apart.
pub data Sized : Type 0 where
  int8 int16 int32 uint8 uint16 uint32 : Sized

-- `Values` is []interface{}, `Entries` is map[string]interface{} in some order of its keys.
mutual
  pub data Value : Type 0 where
    nil : Value
    bool : Bool → Value
    int : ℤ → Value
    int64 : ℤ → Value
    uint64 : ℕ → Value
    sized : Sized → ℤ → Value
    float64 : ℕ → Value
    str : Bytes → Value
    bytes : Bytes → Value
    arr : Values → Value
    dict : Entries → Value

  pub data Values : Type 0 where
    no_values : Values
    item : Value → Values → Values

  pub data Entries : Type 0 where
    no_entries : Entries
    entry : Bytes → Value → Entries → Entries

abbrev pub of_list : List Value → Values
of_list [] = no_values
of_list (v ∷ vs) = item v (of_list vs)

abbrev pub to_list : Values → List Value
to_list no_values = []
to_list (item v vs) = v ∷ to_list vs
