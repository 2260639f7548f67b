-- ===== src/Base/Outcome.antt =====
-- `anyhow::Result`, with one constructor for each kind of failure that the program reports; the
-- wording of messages is not modelled. `Exec` is a computation that changes a state and may fail:
-- what was done before the failure stays done.
pub mod Triple
use mathlib.Core.Bool.{Bool, true, false}
use mathlib.Core.Option.{Option, none, some}

pub data Error : Type 0 where
  io_error : Error
  docker_error : Error
  parse_error : Error
  invalid_name : Error
  lock_held : Error
  missing_env : Error
  unclosed_placeholder : Error
  out_of_fuel : Error
  port_not_found : Error
  no_tailscale_ip : Error
  health_timeout : Error
  not_running : Error
  no_local_images : Error
  stale_preview : Error
  no_active_sha : Error
  validation_failed : Error
  constraint : Error
  exec_disabled : Error
  no_subcommand : Error
  not_allowed : Error
  unknown_job : Error
  missing_argument : Error
  preflight_failed : Error
  caddy_failed : Error
  not_found : Error
  bad_request : Error

pub data Result {ℓ} (A : Type ℓ) : Type ℓ where
  ok : A → Result A
  err : Error → Result A

abbrev pub is_ok {ℓ} : {A : Type ℓ} → Result A → Bool
is_ok (ok a) = true
is_ok (err e) = false

abbrev pub bind_result {ℓ κ} : {A : Type ℓ} {B : Type κ} → Result A → (A → Result B) → Result B
bind_result (ok a) f = f a
bind_result (err e) f = err e

abbrev pub ok_or {ℓ} : {A : Type ℓ} → Option A → Error → Result A
ok_or none e = err e
ok_or (some a) e = ok a

abbrev pub unwrap_or_else {ℓ} : {A : Type ℓ} → Result A → A → A
unwrap_or_else (ok a) d = a
unwrap_or_else (err e) d = d

abbrev pub Exec : Type 0 → Type 0 → Type 0
Exec S A = S → Result A × S

abbrev pub step_on : {S A B : Type 0} → Result A × S → (A → Exec S B) → Result B × S
step_on (ok a, s) f = f a s
step_on (err e, s) f = (err e, s)

unfoldable pub pure : {S A : Type 0} → A → Exec S A
pure a s = (ok a, s)

unfoldable pub fail : {S A : Type 0} → Error → Exec S A
fail e s = (err e, s)

-- A look at the state that changes nothing.
unfoldable pub query : {S A : Type 0} → (S → Result A) → Exec S A
query f s = (f s, s)

infixl 5 ◌>>=◌ ◌>>◌
-- Opening this opens `pure`, `fail` and `query` too.
unfoldable pub ◌>>=◌ : {S A B : Type 0} → Exec S A → (A → Exec S B) → Exec S B
unfolding pure fail query
◌>>=◌ m f s = step_on (m s) f

abbrev pub ◌>>◌ : {S B : Type 0} → Exec S (Unit {0}) → Exec S B → Exec S B
m >> k = m >>= λ _. k

-- `Result::ok`.
abbrev pub ok_option {ℓ} : {A : Type ℓ} → Result A → Option A
ok_option (ok a) = some a
ok_option (err e) = none
