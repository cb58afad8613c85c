-- ===== src/Rpc/Transport/Balance.antt =====
-- Which clients are open after a history, and the books that must agree with it: the client that the
-- transport holds, and those of the subscriptions.
use synap_sdk_go.Prelude.{
  ℕ, ◌+◌, ◌≤◌, ◌≡◌, Bool, true, false, ◌||◌, ◌&&◌, Option, none, some, List, [], ◌∷◌, ◌==◌, arith,
  if◌then◌else◌,
}
use package.synap_sdk_go.Rpc.Values.{Thunder}
use package.synap_sdk_go.Rpc.Transport.{Event, dialled, hooked, closed, called}

unfoldable pub is_open : {T : Thunder} → ℕ → List (Event T) → Bool
is_open n [] = false
is_open n (dialled m given ∷ log) = if m == n then given else is_open n log
is_open n (closed m ∷ log) = if m == n then false else is_open n log
is_open n (hooked m ∷ log) = is_open n log
is_open n (called m cmd args ∷ log) = is_open n log

abbrev pub is_held : Option ℕ → ℕ → Bool
is_held none n = false
is_held (some m) n = m == n

unfoldable pub has : List ℕ → ℕ → Bool
has [] n = false
has (m ∷ ms) n = m == n || has ms n

unfoldable pub remove : ℕ → List ℕ → List ℕ
remove n [] = []
remove n (m ∷ ms) = let rest = remove n ms in if m == n then rest else m ∷ rest

has-remove : (n m : ℕ) (ms : List ℕ) → has (remove n ms) m ≡ (if n == m then false else has ms m)
unfolding has remove
has-remove n m [] = ground arith
has-remove n m (k ∷ ms) = ground (arith, has-remove n m ms)

-- Exactly the clients of the books are open, none stands there twice over, and no number is open
-- that has not been given out.
pub record IsBalanced {T : Thunder} (held : Option ℕ) (dials : ℕ) (log : List (Event T))
    (subs : List ℕ) : Type 0 where
  pub books : (n : ℕ) → is_open n log ≡ (is_held held n || has subs n)
  pub apart : (n : ℕ) → (is_held held n && has subs n) ≡ false
  pub fresh : (n : ℕ) → dials ≤ n → is_open n log ≡ false

module _ {T : Thunder} (held : Option ℕ) (dials : ℕ) (log : List (Event T)) (subs : List ℕ) where
  pub dial_failed-IsBalanced :
      IsBalanced held dials log subs → IsBalanced held (dials + 1) (dialled dials false ∷ log) subs
  unfolding is_open
  dial_failed-IsBalanced b = record {
    books = λ n. ground (arith, b.books n, b.fresh n);
    apart = b.apart;
    fresh = λ n h. ground (arith, b.fresh n);
  }

  pub dial_push-IsBalanced :
      IsBalanced held dials log subs
      → IsBalanced held (dials + 1) (dialled dials true ∷ log) (dials ∷ subs)
  unfolding is_open has
  dial_push-IsBalanced b = record {
    books = λ n. ground (arith, b.books n, b.fresh n);
    apart = λ n. ground (arith, b.apart n, b.books n, b.fresh n);
    fresh = λ n h. ground (arith, b.fresh n);
  }

  pub close_push-IsBalanced :
      (m : ℕ)
      → has subs m ≡ true
      → IsBalanced held dials log subs
      → IsBalanced held dials (closed m ∷ log) (remove m subs)
  unfolding is_open
  close_push-IsBalanced m h b = record {
    books = λ n. ground (arith, b.books n, b.apart n, has-remove m n subs);
    apart = λ n. ground (arith, b.apart n, has-remove m n subs);
    fresh = λ n le. ground (arith, b.fresh n);
  }

module _ {T : Thunder} (dials : ℕ) (log : List (Event T)) (subs : List ℕ) where
  pub dial_keep-IsBalanced :
      IsBalanced none dials log subs
      → IsBalanced (some dials) (dials + 1) (dialled dials true ∷ log) subs
  unfolding is_open
  dial_keep-IsBalanced b = record {
    books = λ n. ground (arith, b.books n, b.fresh n);
    apart = λ n. ground (arith, b.books n, b.fresh n);
    fresh = λ n h. ground (arith, b.fresh n);
  }

  pub drop-IsBalanced :
      (m : ℕ) → IsBalanced (some m) dials log subs → IsBalanced none dials (closed m ∷ log) subs
  unfolding is_open
  drop-IsBalanced m b = record {
    books = λ n. ground (arith, b.books n, b.apart n);
    apart = λ n. ground arith;
    fresh = λ n le. ground (arith, b.fresh n);
  }
