-- ===== src/Command/Busy.antt =====
-- A command that takes the lock of its service (main.rs) finds it taken.
use codery.Base.{
  ℕ, ◌≡◌, refl, sym, ap, ◌∙◌, inl, inr, Bool, true, false, false≢true, some, List, arith,
  Option-cases, Text, ◌==◌, get_elem?, any, Result, ok, err, is_ok, Exec, query, ◌>>=◌,
}
use codery.Command.{
  locked, deploy_command, preview_under_lock, deploy_preview, cutover_under_lock, cutover_command,
  cancel_under_lock, cancel_preview, Locking, deploying, previewing, cutting_over, cancelling,
  perform, argument,
}
use codery.Config.{deploy_lock_path}
use codery.Deploy.Real.{run_deploy}
use codery.Lock.{try_acquire_path, try_acquire}
use codery.World.{World, System}

try_acquire_held :
    (is_alphanumeric : ℕ → Bool) (can_open : Text → Bool) (service : Text) (held : List Text)
    → any (λ p. p == deploy_lock_path service) held ≡ true
    → is_ok (try_acquire is_alphanumeric can_open service held).0 ≡ false
unfolding try_acquire try_acquire_path
try_acquire_held is_alphanumeric can_open service held h = ground arith

-- A command that refuses: it fails and leaves the state as it is.
abbrev Refuses : {D A : Type 0} → Exec (World D) A → World D → Type 0
Refuses m w = (is_ok (m w).0 ≡ false) × ((m w).1 ≡ w)

module _ {D : Type 0} (sys : System D) (service : Text) (w : World D)
    (busy : any (λ p. p == deploy_lock_path service) w.held ≡ true) where
  locked-Refuses : {A : Type 0} (m : Exec (World D) A) → Refuses (locked sys service m) w
  unfolding locked
  locked-Refuses m = by (try_acquire sys.is_alphanumeric sys.can_open service w.held).0 refl
    where
      by :
          (r : Result Text)
          → (try_acquire sys.is_alphanumeric sys.can_open service w.held).0 ≡ r
          → Refuses (locked sys service m) w
      by (ok path) e = absurd (
          false≢true (
            sym (try_acquire_held sys.is_alphanumeric sys.can_open service w.held busy)
            ∙ ap is_ok e))
      by (err x) e = rw (locked, e) (refl, refl)

  known-Refuses :
      {A : Type 0} (i : ℕ) (args : List Text) (f : Text → Exec (World D) A)
      → get_elem? args i ≡ some service
      → Refuses (f service) w
      → Refuses (query (λ v. argument args i) >>= f) w
  unfolding argument ◌>>=◌
  known-Refuses i args f e k = rw e k

  looked-Refuses :
      {A : Type 0} (i : ℕ) (args : List Text) (f : Text → Exec (World D) A)
      → ((a : Text) → Refuses (f a) w)
      → Refuses (query (λ v. argument args i) >>= f) w
  unfolding argument ◌>>=◌
  looked-Refuses i args f k = elim (Option-cases (get_elem? args i)) [
    | inl e ↦ rw e (refl, refl)
    | inr (a, e) ↦ rw e (k a)
  ]

-- While the lock of the service that the arguments name is held: `deploy`, `deploy-preview`,
-- `cutover` and `cancel-preview`, the commands that take the lock, fail and leave everything as it
-- is.
pub perform_busy :
    {D : Type 0} (sys : System D) (command : Locking) (args : List Text) (service : Text)
    (w : World D)
    → get_elem? args 2 ≡ some service
    → any (λ p. p == deploy_lock_path service) w.held ≡ true
    → (is_ok (perform sys command args w).0 ≡ false) × ((perform sys command args w).1 ≡ w)
unfolding perform deploy_command deploy_preview cutover_command cancel_preview
perform_busy sys deploying args service w a busy = known-Refuses sys service w busy 2 args _ a (
    looked-Refuses sys service w busy 3 args _
      λ sha. locked-Refuses sys service w busy (run_deploy sys service sha))
perform_busy sys previewing args service w a busy = known-Refuses sys service w busy 2 args _ a (
    looked-Refuses sys service w busy 3 args _
      λ sha. locked-Refuses sys service w busy (preview_under_lock sys args service sha))
perform_busy sys cutting_over args service w a busy =
    known-Refuses sys service w busy 2 args _ a
      (locked-Refuses sys service w busy (cutover_under_lock sys args service))
perform_busy sys cancelling args service w a busy =
    known-Refuses sys service w busy 2 args _ a
      (locked-Refuses sys service w busy (cancel_under_lock sys service))
