-- ===== src/Errors.antt =====
-- packages/go-common/errors/errors.go and the status codes of packages/go-common/httputil
-- (response.go). A Go error is an `AppError` or another error, whose text is not modelled.
use crypto_exchange_lab.Prelude.{ℕ, Bool, true, false, String, Option, none, some, ◌≡◌, refl}

pub data Code : Type 0 where
  invalid_argument not_found conflict insufficient internal : Code

pub record AppError : Type 0 where
  pub code : Code
  pub message : String

pub data Failure : Type 0 where
  app : AppError → Failure
  plain : Failure

pub data Result {ℓ} (A : Type ℓ) : Type ℓ where
  ok : A → Result A
  err : Failure → Result A

-- A chain of calls each followed by `if err != nil { return err }`.
infixl 5 ◌>>=◌
abbrev pub ◌>>=◌ {ℓ κ} : {A : Type ℓ} {B : Type κ} → Result A → (A → Result B) → Result B
ok a >>= next = next a
err e >>= next = err e

-- `apperrors.New`.
abbrev pub fails {ℓ} : {A : Type ℓ} → Code → String → Result A
fails c m = err (app (record { code = c; message = m }))

abbrev pub broken {ℓ} : {A : Type ℓ} → Result A
broken = err plain

unfoldable pub code_eqb : Code → Code → Bool
code_eqb invalid_argument invalid_argument = true
code_eqb not_found not_found = true
code_eqb conflict conflict = true
code_eqb insufficient insufficient = true
code_eqb internal internal = true
code_eqb _ _ = false

-- `Is`: no error, and an error of another kind, have no code.
unfoldable pub is_code : Option Failure → Code → Bool
unfolding code_eqb
is_code none c = false
is_code (some (app e)) c = code_eqb e.code c
is_code (some plain) c = false

-- The HTTP status that `Fail` writes.
unfoldable pub status : Code → ℕ
status invalid_argument = 400
status not_found = 404
status conflict = 409
status insufficient = 422
status internal = 500

-- What `writeErr` of the handlers sends: an error of another kind is an internal one.
unfoldable pub reported : Failure → Code
reported (app e) = e.code
reported plain = internal

-- A chain that came to its end went through each call.
pub bind_ok {ℓ κ} :
    {A : Type ℓ} {B : Type κ} (first : Result A) (next : A → Result B) {b : B}
    → (first >>= next) ≡ ok b
    → (a : A) × (first ≡ ok a) × (next a ≡ ok b)
bind_ok (err e) next reached = cc
bind_ok (ok a) next reached = (a, refl, reached)
