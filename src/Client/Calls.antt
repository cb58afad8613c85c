-- ===== src/Client/Calls.antt =====
-- Calls of the client: they change the state S of the transports and the world behind them, and end
-- like a call that reads a connection.
use synap_sdk_go.Prelude.{String, ◌≡◌, refl}
use synap_sdk_go.Bytes.{codes}
use synap_sdk_go.Errors.{Error, Result, wrapped}
use synap_sdk_go.Resp3.Outcome.{Outcome, value, error, panic, out_of_fuel, of_result}

abbrev pub Call : Type 0 → Type 0 → Type 0
Call S A = S → Outcome A × S

module _ {S : Type 0} where
  abbrev pub continue : {A B : Type 0} → Outcome A → S → (A → Call S B) → Outcome B × S
  continue (value a) s f = f a s
  continue (error e) s f = (error e, s)
  continue panic s f = (panic, s)
  continue out_of_fuel s f = (out_of_fuel, s)

  infixl 5 ◌>>=◌
  abbrev pub ◌>>=◌ : {A B : Type 0} → Call S A → (A → Call S B) → Call S B
  ◌>>=◌ m f s = let (r, s') = m s in continue r s' f

  abbrev pub pure : {A : Type 0} → A → Call S A
  pure a s = (value a, s)

  abbrev pub fail : {A : Type 0} → Error → Call S A
  fail e s = (error e, s)

  abbrev pub failed : {A : Type 0} → String → Call S A
  failed text = fail (wrapped (codes text))

  abbrev pub of : {A : Type 0} → Result A → Call S A
  of r s = (of_result r, s)

  -- Chained calls may be bracketed either way.
  pub bind_assoc :
      {A B C : Type 0} (m : Call S A) (f : A → Call S B) (g : B → Call S C) (s : S)
      → (m >>= f >>= g) s ≡ (m >>= λ a. f a >>= g) s
  bind_assoc {A = A} {B = B} {C = C} m f g s = go (m s).0 (m s).1
    where
      go :
          (r : Outcome A) (t : S)
          → (let (q, u) = continue r t f in continue q u g) ≡ continue r t (λ a. f a >>= g)
      go (value a) t = refl
      go (error e) t = refl
      go panic t = refl
      go out_of_fuel t = refl

  -- What follows a call matters by what it does on each value and state.
  pub bind_ext :
      {A B : Type 0} (m : Call S A) (f g : A → Call S B)
      → ((a : A) (t : S) → f a t ≡ g a t)
      → (s : S) → (m >>= f) s ≡ (m >>= g) s
  bind_ext {A = A} {B = B} m f g h s = go (m s).0 (m s).1
    where
      go : (r : Outcome A) (t : S) → continue r t f ≡ continue r t g
      go (value a) t = h a t
      go (error e) t = refl
      go panic t = refl
      go out_of_fuel t = refl

  -- fmt.Errorf("text: %w", err) around the error of a call.
  abbrev rename : {A : Type 0} → String → Outcome A × S → Outcome A × S
  rename text (value a, s) = (value a, s)
  rename text (error e, s) = (error (wrapped (codes text)), s)
  rename text (panic, s) = (panic, s)
  rename text (out_of_fuel, s) = (out_of_fuel, s)

  abbrev pub within : {A : Type 0} → String → Call S A → Call S A
  within text m s = rename text (m s)
