-- ===== src/Lock/Exclusion.antt =====
-- One deploy of a service at a time: deploy_lock.rs, try_acquire.
use codery.Base.{
  ℕ, ◌≡◌, refl, sym, ◌∙◌, inl, inr, Bool, true, false, false≢true, not, ◌∷◌, append_cancel_left,
  append_cancel_right, arith, if◌then◌else◌, Bool-cases, Text, codes, ◌==◌, ==_iff, ==_refl, ==_ne,
  any, io_error, invalid_name, lock_held, Result, ok, err, is_ok,
}
use codery.Config.{deploy_lock_path}
use codery.Lock.{Held, is_lock_name, try_acquire_path, try_acquire}

deploy_lock_path_inj : (s t : Text) → deploy_lock_path s ≡ deploy_lock_path t → s ≡ t
unfolding deploy_lock_path
deploy_lock_path_inj s t e =
    append_cancel_right s t (codes ".lock")
      (append_cancel_left (codes "/run/codery-ci-deploy-") _ _ e)

-- The paths of two services are compared as the services are.
deploy_lock_path-== : (s t : Text) → (deploy_lock_path s == deploy_lock_path t) ≡ (s == t)
deploy_lock_path-== s t = elim (Bool-cases (s == t)) [
  | inl e ↦ rw (e, (==_iff s t).0 e) (==_refl (deploy_lock_path t))
  | inr e ↦ rw e (==_ne _ _ (λ g. false≢true (sym e ∙ (==_iff s t).1 (deploy_lock_path_inj s t g))))
]

-- A lock that was taken: the name was good, the file could be opened, and nobody held it.
acquired_lem :
    (is_alphanumeric : ℕ → Bool) (can_open : Text → Bool) (service : Text) (held : Held)
    → is_ok (try_acquire is_alphanumeric can_open service held).0 ≡ true
    → (is_lock_name is_alphanumeric service ≡ true)
      × (can_open (deploy_lock_path service) ≡ true)
      × ((try_acquire is_alphanumeric can_open service held).1 ≡ deploy_lock_path service ∷ held)
unfolding try_acquire try_acquire_path
acquired_lem is_alphanumeric can_open service held h = (ground arith, ground arith, ground arith)

-- An attempt, from whether the name is good, the file opens, and the lock is held.
abbrev attempted : Bool → Bool → Bool → Text → Held → Result Text × Held
attempted name_ok open_ok taken path xs =
    if name_ok
    then if not open_ok
      then (err io_error, xs)
      else if taken
      then (err lock_held, xs)
      else (ok path, path ∷ xs)
    else (err invalid_name, xs)

answer :
    (name_ok open_ok taken : Bool) (path : Text) (xs ys : Held)
    → (attempted name_ok open_ok taken path xs).0 ≡ (attempted name_ok open_ok taken path ys).0
answer false open_ok taken path xs ys = refl
answer true false taken path xs ys = refl
answer true true false path xs ys = refl
answer true true true path xs ys = refl

-- While a service's lock is held, another attempt for it fails, and attempts for other services
-- answer as they would without it.
pub try_acquire-try_acquire :
    (is_alphanumeric : ℕ → Bool) (can_open : Text → Bool) (service other : Text) (held : Held)
    → is_ok (try_acquire is_alphanumeric can_open service held).0 ≡ true
    → (try_acquire is_alphanumeric can_open other
        (try_acquire is_alphanumeric can_open service held).1).0
      ≡ (if service == other
          then err lock_held
          else (try_acquire is_alphanumeric can_open other held).0)
unfolding try_acquire try_acquire_path
try_acquire-try_acquire is_alphanumeric can_open service other held h =
    let (good, open_ok, taken) = acquired_lem is_alphanumeric can_open service held h in
    rw taken (elim (Bool-cases (service == other)) [
      | inl e ↦
          let same : service ≡ other = (==_iff service other).0 e in
          rw (e, sym same, good, open_ok, ==_refl (deploy_lock_path service)) refl
      | inr e ↦
          rw (deploy_lock_path-== service other, e)
            (answer (is_lock_name is_alphanumeric other) (can_open (deploy_lock_path other))
              (any (λ p. p == deploy_lock_path other) held) (deploy_lock_path other)
              (deploy_lock_path service ∷ held) held)
    ])
