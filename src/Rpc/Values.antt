-- ===== src/Rpc/Values.antt =====
-- toWire and fromWire of transport_rpc.go, over the values of the Thunder wire.
pub mod Ends
pub mod RoundTrip
use synap_sdk_go.Prelude.{
  ℕ, zero, suc, ◌<◌, ◌≡◌, Bool, true, Option, none, some, ℤ, List, [], ◌∷◌, to_int64, All,
  if◌then◌else◌,
}
use synap_sdk_go.Bytes.{Bytes}
use synap_sdk_go.Value.{
  Value, Values, Entries, nil, bool, int, int64, uint64, sized, float64, str, bytes, arr, dict,
  no_values, item, no_entries, entry,
}
use synap_sdk_go.Value.Maps.{insert}
use synap_sdk_go.Value.Text.{Runtime, sprint}
use package.synap_sdk_go.Rpc.Utf8.{is_utf8}

-- What Kind says of a wire value, with what the As… of that kind returns.
pub data View (W : Type 0) : Type 0 where
  null other : View W
  boolean : Bool → View W
  integer : ℤ → View W
  float : ℕ → View W
  string binary : Bytes → View W
  array : List W → View W
  map : List (W × W) → View W

-- wire.Value of github.com/hivellm/thunder-go/wire: its constructors, and how it is taken apart.
-- `rank` is the depth of a value.
pub record Thunder : Type 1 where
  pub W : Type 0
  pub null : W
  pub boolean : Bool → W
  pub integer : ℤ → W
  pub float : ℕ → W
  pub string : Bytes → W
  pub binary : Bytes → W
  pub array : List W → W
  pub map : List (W × W) → W
  pub view : W → View W
  pub rank : W → ℕ

-- Documented of it: a value is taken apart into what it was made from, a string only where it is
-- UTF-8, and it is a finite tree.
pub record IsLawful (T : Thunder) : Type 0 where
  pub view-null : T.view T.null ≡ View.null
  pub view-boolean : (b : Bool) → T.view (T.boolean b) ≡ View.boolean b
  pub view-integer : (n : ℤ) → T.view (T.integer n) ≡ View.integer n
  pub view-float : (f : ℕ) → T.view (T.float f) ≡ View.float f
  pub view-string : (s : Bytes) → is_utf8 s ≡ true → T.view (T.string s) ≡ View.string s
  pub view-binary : (s : Bytes) → T.view (T.binary s) ≡ View.binary s
  pub view-array : (ws : List T.W) → T.view (T.array ws) ≡ View.array ws
  pub view-map : (ps : List (T.W × T.W)) → T.view (T.map ps) ≡ View.map ps
  pub rank-array :
      (w : T.W) (ws : List T.W) → T.view w ≡ View.array ws → All (λ v. T.rank v < T.rank w) ws
  pub rank-map :
      (w : T.W) (ps : List (T.W × T.W))
      → T.view w ≡ View.map ps
      → All (λ p. (T.rank p.0 < T.rank w) × (T.rank p.1 < T.rank w)) ps

module _ (rt : Runtime) (T : Thunder) where
  -- A string that is not UTF-8 travels as binary.
  unfoldable pub text_to_wire : Bytes → T.W
  unfolding is_utf8
  text_to_wire s = if is_utf8 s then T.string s else T.binary s

  unfoldable mutual
    unfolding text_to_wire sprint

    pub to_wire : Value → T.W
    to_wire nil = T.null
    to_wire (bool b) = T.boolean b
    to_wire (str s) = text_to_wire s
    to_wire (bytes s) = T.binary s
    to_wire (int n) = T.integer n
    to_wire (int64 n) = T.integer n
    to_wire (uint64 n) = T.integer (to_int64 n)
    to_wire (float64 f) = T.float f
    to_wire (arr vs) = T.array (to_wires vs)
    to_wire (dict m) = T.map (to_pairs m)
    to_wire (sized k n) = T.string (sprint rt (sized k n))

    pub to_wires : Values → List T.W
    to_wires no_values = []
    to_wires (item v vs) = to_wire v ∷ to_wires vs

    -- The key of an entry is not tested.
    pub to_pairs : Entries → List (T.W × T.W)
    to_pairs no_entries = []
    to_pairs (entry k v m) = (T.string k, to_wire v) ∷ to_pairs m

  infixl 5 ◌>>=◌
  abbrev ◌>>=◌ : {A B : Type 0} → Option A → (A → Option B) → Option B
  none >>= f = none
  some a >>= f = f a

  -- The loops over an array and a map; `read` is the recursive call.
  unfoldable pub read_items : (T.W → Option Value) → List T.W → Option Values
  read_items read [] = some no_values
  read_items read (w ∷ ws) = do v ← read w; vs ← read_items read ws; some (item v vs)

  unfoldable pub read_pairs : (T.W → Option Value) → List (T.W × T.W) → Entries → Option Entries
  unfolding insert sprint
  read_pairs read [] m = some m
  read_pairs read ((k, w) ∷ ps) m = do
    key ← read k
    v ← read w
    read_pairs read ps (insert (sprint rt key) v m)

  unfoldable pub of_view : (T.W → Option Value) → View T.W → Option Value
  unfolding read_items read_pairs
  of_view read View.null = some nil
  of_view read (View.boolean b) = some (bool b)
  of_view read (View.integer n) = some (int64 n)
  of_view read (View.float f) = some (float64 f)
  of_view read (View.string s) = some (str s)
  of_view read (View.binary s) = some (str s)
  of_view read (View.array ws) = do vs ← read_items read ws; some (arr vs)
  of_view read (View.map ps) = do m ← read_pairs read ps no_entries; some (dict m)
  of_view read View.other = some nil

  -- The fuel bounds the depth of the value; `none` is lack of fuel.
  unfoldable pub read_wire : ℕ → T.W → Option Value
  unfolding of_view
  read_wire zero w = none
  read_wire (suc n) w = of_view (read_wire n) (T.view w)

  unfoldable pub from_wire : T.W → Option Value
  unfolding read_wire
  from_wire w = read_wire (suc (T.rank w)) w
