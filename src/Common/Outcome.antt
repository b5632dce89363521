-- ===== src/Common/Outcome.antt =====
-- Go's `(value, error)` results. The errors are the ones that the modelled functions return
-- (internal/apperr and the sentinels of internal/db); `driver` stands for any other error.
use mathlib.Core.Logic.{◌⊎◌, inl, inr}
use mathlib.Core.Path.{◌≡◌, refl}

pub data Error : Type 0 where
  server_not_found binding_unavailable binding_changed review_changed : Error
  invalid_observation invalid_snapshot : Error
  not_admin authentication_required insufficient : Error
  invalid_grant user_not_found : Error
  operation_conflict recovery_pending idempotency_conflict invalid_operation_state : Error
  unsupported_operation invalid_request : Error
  rcon_too_large rcon_invalid rcon_failed rcon_unfinished rcon_closed : Error
  rcon_incomplete rcon_timeout console_cancelled : Error
  too_many_attempts invalid_credentials : Error
  invalid_archive invalid_stored_identity : Error
  setup_complete session_gone password_changed last_admin account_changed driver : Error

-- A value with a nil error, or an error.
pub data Result {ℓ} (A : Type ℓ) : Type ℓ where
  err : Error → Result A
  ok : A → Result A

-- `if err != nil { return err }` between two calls.
infixl 5 ◌>>=◌
abbrev pub ◌>>=◌ {ℓ κ} :
    {A : Type ℓ} {B : Type κ} (first : Result A) (next : A → Result B) → Result B
err reason >>= next = err reason
ok value >>= next = next value

pub >>=-eq-ok {ℓ κ} :
    {A : Type ℓ} {B : Type κ} (first : Result A) (next : A → Result B) {result : B}
    → (first >>= next) ≡ ok result
    → (value : A) × (first ≡ ok value) × (next value ≡ ok result)
>>=-eq-ok (err reason) next h = cc
>>=-eq-ok (ok value) next h = (value, refl, h)

pub result_cases {ℓ} :
    {A : Type ℓ} (r : Result A) → ((e : Error) × (r ≡ err e)) ⊎ ((a : A) × (r ≡ ok a))
result_cases (err e) = inl (e, refl)
result_cases (ok a) = inr (a, refl)
