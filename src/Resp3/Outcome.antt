-- ===== src/Resp3/Outcome.antt =====
-- How a call that reads the connection ends, and the monad of such calls.
use synap_sdk_go.Prelude.{String}
use synap_sdk_go.Bytes.{Bytes, codes}
use synap_sdk_go.Errors.{Error, Result, ok, err, wrapped}

-- `panic` is a run-time panic of Go; `out_of_fuel` has no counterpart in the program.
pub data Outcome {ℓ} (A : Type ℓ) : Type ℓ where
  value : A → Outcome A
  error : Error → Outcome A
  panic out_of_fuel : Outcome A

-- A call that takes bytes off the front of what the connection still holds.
abbrev pub Reader {ℓ} : Type ℓ → Type ℓ
Reader A = Bytes → Outcome A × Bytes

abbrev pub continue {ℓ κ} :
    {A : Type ℓ} {B : Type κ} → Outcome A → Bytes → (A → Reader B) → Outcome B × Bytes
continue (value a) s f = f a s
continue (error e) s f = (error e, s)
continue panic s f = (panic, s)
continue out_of_fuel s f = (out_of_fuel, s)

infixl 5 ◌>>=◌
abbrev pub ◌>>=◌ {ℓ κ} : {A : Type ℓ} {B : Type κ} → Reader A → (A → Reader B) → Reader B
◌>>=◌ m f s = let (r, s') = m s in continue r s' f

abbrev pub pure {ℓ} : {A : Type ℓ} → A → Reader A
pure a s = (value a, s)

abbrev pub fail {ℓ} : {A : Type ℓ} → Error → Reader A
fail e s = (error e, s)

-- fmt.Errorf: the text, up to what it quotes and wraps.
abbrev pub failed {ℓ} : {A : Type ℓ} → String → Reader A
failed text = fail (wrapped (codes text))

abbrev pub crash {ℓ} : {A : Type ℓ} → Reader A
crash s = (panic, s)

abbrev pub of_result {ℓ} : {A : Type ℓ} → Result A → Outcome A
of_result (ok a) = value a
of_result (err e) = error e
