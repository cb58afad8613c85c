-- ===== src/Rpc/Values/Ends.antt =====
-- fromWire ends on every value of the wire, and reads back what toWire made of a Go value.
use synap_sdk_go.Prelude.{
  ℕ, zero, suc, All-imp, ◌<◌, ◌≡◌, refl, Option, some, List, [], ◌∷◌, All, arith,
}
use synap_sdk_go.Value.{
  Value, Values, Entries, nil, bool, int64, float64, str, arr, dict, no_values, item, no_entries,
}
use synap_sdk_go.Value.Maps.{insert}
use synap_sdk_go.Value.Text.{Runtime, sprint}
use package.synap_sdk_go.Rpc.Values.{
  View, Thunder, IsLawful, read_items, read_pairs, of_view, read_wire, from_wire,
}

module _ (rt : Runtime) (T : Thunder) where
  -- The call returns a value.
  abbrev Reads : (T.W → Option Value) → T.W → Type 0
  Reads read w = (v : Value) × (read w ≡ some v)

  read_items-some :
      (read : T.W → Option Value) (ws : List T.W)
      → All (Reads read) ws
      → (vs : Values) × (read_items rt T read ws ≡ some vs)
  unfolding read_items
  read_items-some read [] h = (no_values, refl)
  read_items-some read (w ∷ ws) h =
      let (v, e) = h.0 in let (vs, es) = read_items-some read ws h.1 in (item v vs, rw (e, es))

  read_pairs-some :
      (read : T.W → Option Value) (ps : List (T.W × T.W)) (m : Entries)
      → All (λ p. Reads read p.0 × Reads read p.1) ps
      → (out : Entries) × (read_pairs rt T read ps m ≡ some out)
  unfolding read_pairs
  read_pairs-some read [] m h = (m, refl)
  read_pairs-some read ((k, w) ∷ ps) m h =
      let (key, e) = h.0.0 in
      let (v, f) = h.0.1 in
      let (out, g) = read_pairs-some read ps (insert (sprint rt key) v m) h.1 in (out, rw (e, f) g)

  module _ (law : IsLawful T) where
    of_view-some :
        (n : ℕ) (w : T.W) (x : View T.W)
        → ((v : T.W) → T.rank v < n → Reads (read_wire rt T n) v)
        → T.view w ≡ x
        → T.rank w < suc n
        → (v : Value) × (of_view rt T (read_wire rt T n) x ≡ some v)
    unfolding of_view
    of_view-some n w View.null ih e h = (nil, refl)
    of_view-some n w View.other ih e h = (nil, refl)
    of_view-some n w (View.boolean b) ih e h = (bool b, refl)
    of_view-some n w (View.integer k) ih e h = (int64 k, refl)
    of_view-some n w (View.float f) ih e h = (float64 f, refl)
    of_view-some n w (View.string s) ih e h = (str s, refl)
    of_view-some n w (View.binary s) ih e h = (str s, refl)
    of_view-some n w (View.array ws) ih e h =
        let (vs, q) = read_items-some (read_wire rt T n) ws (
          All-imp (λ v. T.rank v < T.rank w) (Reads (read_wire rt T n)) (λ v lt. ih v (omega arith))
            ws (law.rank-array w ws e)) in
        (arr vs, rw q)
    of_view-some n w (View.map ps) ih e h =
        let (m, q) = read_pairs-some (read_wire rt T n) ps no_entries (
          All-imp (λ p. (T.rank p.0 < T.rank w) × (T.rank p.1 < T.rank w))
            (λ p. Reads (read_wire rt T n) p.0 × Reads (read_wire rt T n) p.1)
            (λ p lt. (ih p.0 (omega arith), ih p.1 (omega arith))) ps (law.rank-map w ps e)) in
        (dict m, rw q)

    read_wire-some : (n : ℕ) (w : T.W) → T.rank w < n → (v : Value) × (read_wire rt T n w ≡ some v)
    unfolding read_wire
    read_wire-some zero w h = elim h [ ]
    read_wire-some (suc n) w h = of_view-some n w (T.view w) (read_wire-some n) refl h

    -- fromWire ends with a Go value on every value of the wire: the fuel, one more than its depth,
    -- never runs out.
    pub from_wire-some : (w : T.W) → (v : Value) × (from_wire rt T w ≡ some v)
    unfolding from_wire
    from_wire-some w = read_wire-some (suc (T.rank w)) w (omega arith)
