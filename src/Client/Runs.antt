-- ===== src/Client/Runs.antt =====
-- Programs that make one call after the other, and what is promised of them.
use synap_sdk_go.Prelude.{◌≡◌, refl, List, [], ◌∷◌}
use synap_sdk_go.Resp3.Outcome.{value}
use package.synap_sdk_go.Client.Calls.{Call, ◌>>=◌, pure}

-- What the calls return and leave on an abstract state.
module _ {O R M : Type 0} (returns : O → M → R) (updates : O → M → M) where
  unfoldable pub returned_by : List O → M → List R
  returned_by [] m = []
  returned_by (o ∷ os) m = returns o m ∷ returned_by os (updates o m)

module _ {O M : Type 0} (updates : O → M → M) where
  unfoldable pub updated_by : List O → M → M
  updated_by [] m = m
  updated_by (o ∷ os) m = updated_by os (updates o m)

module _ {S O R : Type 0} (run : O → Call S R) where
  unfoldable pub run_each : List O → Call S (List R)
  run_each [] = pure []
  run_each (o ∷ os) = do r ← run o; rs ← run_each os; pure (r ∷ rs)

-- Where every call does what is promised of it, a program does. `Stands os s m` says that the state s
-- stands for m and that the calls os may come.
module _ {S O R M : Type 0} (run : O → Call S R) (returns : O → M → R) (updates : O → M → M)
    (Stands : List O → S → M → Type 0)
    (step : (o : O) (os : List O) (s : S) (m : M)
      → Stands (o ∷ os) s m
      → (u : S) × (run o s ≡ (value (returns o m), u)) × Stands os u (updates o m)) where
  pub run_each-refines :
      (os : List O) (s : S) (m : M)
      → Stands os s m
      → (u : S) × (run_each run os s ≡ (value (returned_by returns updates os m), u))
        × Stands [] u (updated_by updates os m)
  unfolding run_each returned_by updated_by
  run_each-refines [] s m h = (s, refl, h)
  run_each-refines (o ∷ os) s m h =
      let (t, e, k) = step o os s m h in
      let (u, f, l) = run_each-refines os t (updates o m) k in (u, rw (e, f), l)
