-- ===== src/Rpc/Values/RoundTrip.antt =====
-- fromWire reads back what toWire made of a Go value.
use synap_sdk_go.Prelude.{
  ℕ, zero, suc, All-imp, ◌<◌, ◌≡◌, refl, none, some, List, All, arith, to_int64, Bool-cases, inl,
  inr, ap, true, pos, negsuc, ℤ,
}
use synap_sdk_go.Bytes.{Bytes, bytes_eq_iff}
use synap_sdk_go.Bytes.Decimal.{IsDigit, format_int, format_nat, format_nat-IsDigit}
use synap_sdk_go.Value.{
  Sized, Value, Values, Entries, nil, bool, int, int64, uint64, sized, float64, str, bytes, arr,
  dict, no_values, item, no_entries, entry,
}
use synap_sdk_go.Value.Maps.{lookup, insert, lookup-insert}
use synap_sdk_go.Value.Text.{Runtime, sprint}
use package.synap_sdk_go.Rpc.Utf8.{is_utf8, is_utf8-ascii}
use package.synap_sdk_go.Rpc.Values.{
  Thunder, IsLawful, text_to_wire, to_wire, to_wires, to_pairs, read_items, read_pairs, of_view,
  read_wire, from_wire,
}

-- What is left of a Go value behind the wire: every integer is an int64, every kind of string a
-- string, and a small integer type its text.
unfoldable mutual
  unfolding sprint

  pub read_back : Runtime → Value → Value
  read_back rt (int n) = int64 n
  read_back rt (uint64 n) = int64 (to_int64 n)
  read_back rt (sized k n) = str (sprint rt (sized k n))
  read_back rt (bytes s) = str s
  read_back rt (arr vs) = arr (read_back_all rt vs)
  read_back rt (dict m) = dict (read_back_entries rt m)
  read_back rt v = v

  pub read_back_all : Runtime → Values → Values
  read_back_all rt no_values = no_values
  read_back_all rt (item v vs) = item (read_back rt v) (read_back_all rt vs)

  pub read_back_entries : Runtime → Entries → Entries
  read_back_entries rt no_entries = no_entries
  read_back_entries rt (entry k v m) = entry k (read_back rt v) (read_back_entries rt m)

-- Every map in a value has each of its keys once, as Go maps do, and its keys are UTF-8.
unfoldable mutual
  unfolding lookup

  pub IsSendable : Value → Type 0
  IsSendable (arr vs) = AllSendable vs
  IsSendable (dict m) = EntriesSendable m
  IsSendable v = Unit

  pub AllSendable : Values → Type 0
  AllSendable no_values = Unit
  AllSendable (item v vs) = IsSendable v × AllSendable vs

  pub EntriesSendable : Entries → Type 0
  EntriesSendable no_entries = Unit
  EntriesSendable (entry k v m) =
      (lookup k m ≡ none) × (is_utf8 k ≡ true) × IsSendable v × EntriesSendable m

-- No key of the first map is in the second.
IsFresh : Entries → Entries → Type 0
unfolding lookup
IsFresh no_entries out = Unit
IsFresh (entry k v m) out = (lookup k out ≡ none) × IsFresh m out

insert-IsFresh :
    (m : Entries) (k : Bytes) (v : Value) (out : Entries)
    → lookup k m ≡ none
    → IsFresh m out
    → IsFresh m (insert k v out)
unfolding IsFresh lookup
insert-IsFresh no_entries k v out h f = tt
insert-IsFresh (entry j u m) k v out h f = (
  ground (arith, lookup-insert k j v out, bytes_eq_iff j k, bytes_eq_iff k j),
  insert-IsFresh m k v out (ground arith) f.1,
)

append_entries : Entries → Entries → Entries
append_entries no_entries r = r
append_entries (entry k v m) r = entry k v (append_entries m r)

insert-append_entries :
    (k : Bytes) (v : Value) (out r : Entries)
    → lookup k out ≡ none
    → append_entries (insert k v out) r ≡ append_entries out (entry k v r)
unfolding append_entries insert lookup
insert-append_entries k v no_entries r h = refl
insert-append_entries k v (entry j u m) r h = ground (arith, insert-append_entries k v m r)

empty-IsFresh : (m : Entries) → IsFresh m no_entries
unfolding IsFresh
empty-IsFresh no_entries = tt
empty-IsFresh (entry k v m) = (refl, empty-IsFresh m)

append_entries-empty : (m : Entries) → append_entries m no_entries ≡ m
unfolding append_entries
append_entries-empty no_entries = refl
append_entries-empty (entry k v m) = ap (entry k v) (append_entries-empty m)

digits-ascii : (s : Bytes) → All IsDigit s → All (λ b. b < 0x80) s
digits-ascii s h = All-imp IsDigit (λ b. b < 0x80) (λ b d. ground arith) s h

format_int-ascii : (i : ℤ) → All (λ b. b < 0x80) (format_int i)
unfolding format_int
format_int-ascii (pos n) = digits-ascii (format_nat n) (format_nat-IsDigit n)
format_int-ascii (negsuc n) =
    (omega arith, digits-ascii (format_nat (suc n)) (format_nat-IsDigit (suc n)))

module _ (rt : Runtime) (T : Thunder) (law : IsLawful T) where
  view-text_to_wire :
      (n : ℕ) (s : Bytes)
      → of_view rt T (read_wire rt T n) (T.view (text_to_wire rt T s)) ≡ some (str s)
  unfolding text_to_wire of_view
  view-text_to_wire n s = elim (Bool-cases (is_utf8 s)) [
    | inl e ↦ rw (e, law.view-string s e)
    | inr e ↦ rw (e, law.view-binary s)
  ]

  sized-is_utf8 : (z : Sized) (i : ℤ) → is_utf8 (sprint rt (sized z i)) ≡ true
  unfolding sprint
  sized-is_utf8 z i = is_utf8-ascii (format_int i) (format_int-ascii i)

  below_array : (n : ℕ) (ws : List T.W) → T.rank (T.array ws) < suc n → All (λ w. T.rank w < n) ws
  below_array n ws h =
      All-imp (λ w. T.rank w < T.rank (T.array ws)) (λ w. T.rank w < n) (λ w lt. omega arith) ws
        (law.rank-array (T.array ws) ws (law.view-array ws))

  below_map :
      (n : ℕ) (ps : List (T.W × T.W))
      → T.rank (T.map ps) < suc n
      → All (λ p. (T.rank p.0 < n) × (T.rank p.1 < n)) ps
  below_map n ps h =
      All-imp (λ p. (T.rank p.0 < T.rank (T.map ps)) × (T.rank p.1 < T.rank (T.map ps)))
        (λ p. (T.rank p.0 < n) × (T.rank p.1 < n)) (λ p lt. omega arith) ps
        (law.rank-map (T.map ps) ps (law.view-map ps))

  read_key :
      (n : ℕ) (k : Bytes) → is_utf8 k ≡ true → read_wire rt T (suc n) (T.string k) ≡ some (str k)
  unfolding read_wire
  read_key n k h = rw (law.view-string k h)

  mutual
    unfolding append_entries read_pairs sprint IsFresh read_wire to_wire read_back IsSendable
        of_view read_items

    read_wire-to_wire :
        (n : ℕ) (v : Value)
        → IsSendable v
        → T.rank (to_wire rt T v) < suc n
        → read_wire rt T (suc n) (to_wire rt T v) ≡ some (read_back rt v)
    read_wire-to_wire n nil k h = rw law.view-null
    read_wire-to_wire n (bool b) k h = rw (law.view-boolean b)
    read_wire-to_wire n (int i) k h = rw (law.view-integer i)
    read_wire-to_wire n (int64 i) k h = rw (law.view-integer i)
    read_wire-to_wire n (uint64 i) k h = rw (law.view-integer (to_int64 i))
    read_wire-to_wire n (sized z i) k h =
        rw (law.view-string (sprint rt (sized z i)) (sized-is_utf8 z i))
    read_wire-to_wire n (float64 f) k h = rw (law.view-float f)
    read_wire-to_wire n (str s) k h = view-text_to_wire n s
    read_wire-to_wire n (bytes s) k h = rw (law.view-binary s)
    read_wire-to_wire n (arr vs) k h = rw (
      law.view-array (to_wires rt T vs),
      read_items-to_wires n vs k (below_array n (to_wires rt T vs) h),
    )
    read_wire-to_wire n (dict m) k h = rw (
      law.view-map (to_pairs rt T m),
      read_pairs-to_pairs n m no_entries k (empty-IsFresh m) (below_map n (to_pairs rt T m) h),
    )

    read_items-to_wires :
        (n : ℕ) (vs : Values)
        → AllSendable vs
        → All (λ w. T.rank w < n) (to_wires rt T vs)
        → read_items rt T (read_wire rt T n) (to_wires rt T vs) ≡ some (read_back_all rt vs)
    read_items-to_wires n no_values k h = refl
    read_items-to_wires zero (item v vs) k h = elim h.0 [ ]
    read_items-to_wires (suc n) (item v vs) k h =
        rw (read_wire-to_wire n v k.0 h.0, read_items-to_wires (suc n) vs k.1 h.1)

    read_pairs-to_pairs :
        (n : ℕ) (m out : Entries)
        → EntriesSendable m
        → IsFresh m out
        → All (λ p. (T.rank p.0 < n) × (T.rank p.1 < n)) (to_pairs rt T m)
        → read_pairs rt T (read_wire rt T n) (to_pairs rt T m) out
          ≡ some (append_entries out (read_back_entries rt m))
    read_pairs-to_pairs n no_entries out k f h = rw (append_entries-empty out)
    read_pairs-to_pairs zero (entry key v m) out k f h = elim h.0.0 [ ]
    read_pairs-to_pairs (suc n) (entry key v m) out k f h =
        rw
          (
            read_key n key k.1,
            read_wire-to_wire n v k.2 h.0.1,
            read_pairs-to_pairs (suc n) m (insert key (read_back rt v) out) k.3
                (insert-IsFresh m key (read_back rt v) out k.0 f.1) h.1,
          )
          (ap some (insert-append_entries key (read_back rt v) out (read_back_entries rt m) f.0))

  -- Whatever Go value toWire is given, binary strings included, fromWire reads it back from the wire
  -- as what is left of it: the same value, with every integer an int64, every kind of string a
  -- string, and a small integer type as text. Each key of a map stands there once and is UTF-8.
  pub from_wire-to_wire :
      (v : Value) → IsSendable v → from_wire rt T (to_wire rt T v) ≡ some (read_back rt v)
  unfolding from_wire
  from_wire-to_wire v k = read_wire-to_wire (T.rank (to_wire rt T v)) v k (omega arith)
