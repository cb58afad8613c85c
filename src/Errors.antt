-- ===== src/Errors.antt =====
-- errors.go: the errors of the package.
use synap_sdk_go.Prelude.{◌≡◌, refl, ◌++◌, Bool, true, false}
use synap_sdk_go.Bytes.{Bytes, codes}

pub record SynapError : Type 0 where
  pub code : Bytes
  pub message : Bytes

-- SynapError.Error
unfoldable pub error_text : SynapError → Bytes
error_text e = codes "synap [" ++ (e.code ++ (codes "]: " ++ e.message))

unfoldable pub server_error : Bytes → SynapError
server_error msg = record { code = codes "server_error"; message = msg }

unfoldable pub invalid_response_error : Bytes → SynapError
invalid_response_error msg = record { code = codes "invalid_response"; message = msg }

-- A Go error is a *SynapError, which isSynapError of transport_resp3.go tells, or one that
-- fmt.Errorf made.
pub data Error : Type 0 where
  synap : SynapError → Error
  wrapped : Bytes → Error

-- isSynapError
abbrev pub is_synap_error : Error → Bool
is_synap_error (synap e) = true
is_synap_error (wrapped text) = false

-- A call that returns a value, or a Go error beside its zero value.
pub data Result {ℓ} (T : Type ℓ) : Type ℓ where
  err : Error → Result T
  ok : T → Result T

-- `if err != nil { return …, err }` in front of the rest.
module _ {ℓ κ} {S : Type ℓ} {T : Type κ} where
  infixl 5 ◌>>=◌
  abbrev pub ◌>>=◌ : Result S → (S → Result T) → Result T
  ◌>>=◌ (err e) rest = err e
  ◌>>=◌ (ok s) rest = rest s

  -- A chain of calls succeeds only by its first call's success.
  pub ok_of_bind :
      (call : Result S) (rest : S → Result T) {t : T}
      → (call >>= rest) ≡ ok t
      → (s : S) × (call ≡ ok s) × (rest s ≡ ok t)
  ok_of_bind (err e) rest h = cc
  ok_of_bind (ok s) rest h = (s, refl, h)
