-- ===== src/Tests/Wire.antt =====
-- A wire of trees that is taken apart into what it was made from, and a network that dials and
-- answers: the first client is dead from the start, later ones live.
use synap_sdk_go.Prelude.{
  ℕ, suc, ◌+◌, ◌<◌, ◌≡◌, refl, ap, arith, Bool, not, ◌==◌, ℤ, pos, List, [], ◌∷◌, All,
}
use synap_sdk_go.Bytes.{Bytes}
use synap_sdk_go.Rpc.Values.{View, Thunder, IsLawful}
use synap_sdk_go.Rpc.Transport.{Network, given}

mutual
  pub data Tree : Type 0 where
    null : Tree
    boolean : Bool → Tree
    integer : ℤ → Tree
    float : ℕ → Tree
    string binary : Bytes → Tree
    array : Trees → Tree
    map : Pairs → Tree

  pub data Trees : Type 0 where
    no_trees : Trees
    tree : Tree → Trees → Trees

  pub data Pairs : Type 0 where
    no_pairs : Pairs
    pair : Tree → Tree → Pairs → Pairs

abbrev pub trees : List Tree → Trees
trees [] = no_trees
trees (t ∷ ts) = tree t (trees ts)

abbrev trees_of : Trees → List Tree
trees_of no_trees = []
trees_of (tree t ts) = t ∷ trees_of ts

abbrev pub pairs : List (Tree × Tree) → Pairs
pairs [] = no_pairs
pairs ((k, v) ∷ ps) = pair k v (pairs ps)

abbrev pairs_of : Pairs → List (Tree × Tree)
pairs_of no_pairs = []
pairs_of (pair k v ps) = (k, v) ∷ pairs_of ps

abbrev view_tree : Tree → View Tree
view_tree null = View.null
view_tree (boolean b) = View.boolean b
view_tree (integer n) = View.integer n
view_tree (float f) = View.float f
view_tree (string s) = View.string s
view_tree (binary s) = View.binary s
view_tree (array ts) = View.array (trees_of ts)
view_tree (map ps) = View.map (pairs_of ps)

-- The number of trees in a tree.
unfoldable mutual
  size : Tree → ℕ
  size (array ts) = suc (sizes ts)
  size (map ps) = suc (pair_sizes ps)
  size t = 1

  sizes : Trees → ℕ
  sizes no_trees = 0
  sizes (tree t ts) = size t + sizes ts

  pair_sizes : Pairs → ℕ
  pair_sizes no_pairs = 0
  pair_sizes (pair k v ps) = size k + (size v + pair_sizes ps)

unfoldable pub trees_wire : Thunder
unfolding size
trees_wire = record {
  W = Tree;
  null = null;
  boolean = boolean;
  integer = integer;
  float = float;
  string = string;
  binary = binary;
  array = λ ts. array (trees ts);
  map = λ ps. map (pairs ps);
  view = view_tree;
  rank = size;
}

trees_of-trees : (ts : List Tree) → trees_of (trees ts) ≡ ts
trees_of-trees [] = refl
trees_of-trees (t ∷ ts) = ap (λ us. t ∷ us) (trees_of-trees ts)

pairs_of-pairs : (ps : List (Tree × Tree)) → pairs_of (pairs ps) ≡ ps
pairs_of-pairs [] = refl
pairs_of-pairs ((k, v) ∷ ps) = ap (λ qs. (k, v) ∷ qs) (pairs_of-pairs ps)

sizes-below : (n : ℕ) (ts : Trees) → sizes ts < n → All (λ t. size t < n) (trees_of ts)
unfolding size
sizes-below n no_trees h = tt
sizes-below n (tree t ts) h = (omega arith, sizes-below n ts (omega arith))

pair_sizes-below :
    (n : ℕ) (ps : Pairs)
    → pair_sizes ps < n
    → All (λ p. (size p.0 < n) × (size p.1 < n)) (pairs_of ps)
unfolding size
pair_sizes-below n no_pairs h = tt
pair_sizes-below n (pair k v ps) h =
    ((omega arith, omega arith), pair_sizes-below n ps (omega arith))

size-array :
    (w : Tree) (ws : List Tree) → view_tree w ≡ View.array ws → All (λ v. size v < size w) ws
unfolding size
size-array null ws e = absurd (cc e)
size-array (boolean b) ws e = absurd (cc e)
size-array (integer n) ws e = absurd (cc e)
size-array (float f) ws e = absurd (cc e)
size-array (string s) ws e = absurd (cc e)
size-array (binary s) ws e = absurd (cc e)
size-array (map ps) ws e = absurd (cc e)
size-array (array ts) ws e =
    let same : trees_of ts ≡ ws = cc e in rw same at (sizes-below (suc (sizes ts)) ts (omega arith))

size-map :
    (w : Tree) (ps : List (Tree × Tree))
    → view_tree w ≡ View.map ps
    → All (λ p. (size p.0 < size w) × (size p.1 < size w)) ps
unfolding size
size-map null ps e = absurd (cc e)
size-map (boolean b) ps e = absurd (cc e)
size-map (integer n) ps e = absurd (cc e)
size-map (float f) ps e = absurd (cc e)
size-map (string s) ps e = absurd (cc e)
size-map (binary s) ps e = absurd (cc e)
size-map (array ts) ps e = absurd (cc e)
size-map (map qs) ps e =
    let same : pairs_of qs ≡ ps = cc e in
    rw same at (pair_sizes-below (suc (pair_sizes qs)) qs (omega arith))

pub trees_wire-IsLawful : IsLawful trees_wire
unfolding trees_wire
trees_wire-IsLawful = record {
  view-null = refl;
  view-boolean = λ b. refl;
  view-integer = λ n. refl;
  view-float = λ f. refl;
  view-string = λ s h. refl;
  view-binary = λ s. refl;
  view-array = λ ws. ap View.array (trees_of-trees ws);
  view-map = λ ps. ap View.map (pairs_of-pairs ps);
  rank-array = size-array;
  rank-map = size-map;
}

-- Client 0 is dead from the start; every call is answered by an array of an integer and a text that
-- is not UTF-8.
unfoldable pub answer : trees_wire.W
unfolding trees_wire
answer = array (trees (integer (pos 7) ∷ binary (222 ∷ 173 ∷ []) ∷ []))

unfoldable pub network : Network trees_wire
unfolding trees_wire answer
network = record {
  connect = λ endpoint config log. given tt;
  is_alive = λ n log. not (n == 0);
  call = λ n cmd args log. given answer;
}
