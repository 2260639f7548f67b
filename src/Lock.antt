-- ===== src/Lock.antt =====
-- system/orchestrator/src/deploy_lock.rs: the lock that a deploy of a service takes. The state is the
-- paths whose lock is held; `char::is_alphanumeric` and whether a file can be opened are arguments.
pub mod Exclusion
use codery.Base.{
  ℕ, Bool, not, ◌&&◌, ◌||◌, List, ◌∷◌, eqb, if◌then◌else◌, Text, ◌==◌, retain, any, all, is_empty,
  io_error, invalid_name, lock_held, ok, err, Exec,
}
use codery.Config.{deploy_lock_path}

abbrev pub Held : Type 0
Held = List Text

unfoldable pub is_lock_name : (ℕ → Bool) → Text → Bool
is_lock_name is_alphanumeric service =
    not (is_empty service) && all (λ c. is_alphanumeric c || (eqb c b'-' || eqb c b'_')) service

-- `flock` without waiting.
unfoldable pub try_acquire_path : (Text → Bool) → Text → Exec Held Text
try_acquire_path can_open path held =
    if not (can_open path)
    then (err io_error, held)
    else if any (λ p. p == path) held
    then (err lock_held, held)
    else (ok path, path ∷ held)

unfoldable pub try_acquire : (ℕ → Bool) → (Text → Bool) → Text → Exec Held Text
unfolding is_lock_name try_acquire_path
try_acquire is_alphanumeric can_open service held =
    if is_lock_name is_alphanumeric service
    then try_acquire_path can_open (deploy_lock_path service) held
    else (err invalid_name, held)

-- The lock is dropped, and the system releases it.
unfoldable pub release : Text → Held → Held
release path held = retain (λ p. not (p == path)) held
