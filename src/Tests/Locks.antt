-- ===== src/Tests/Locks.antt =====
-- Two deploys of one service, and of two services.
use codery.Base.{
  ℕ, ◌≡◌, refl, Bool, true, ◌&&◌, [], leb, if◌then◌else◌, codes, ◌==◌, invalid_name, lock_held, err,
  is_ok,
}
use codery.Lock.{is_lock_name, try_acquire_path, try_acquire}
use codery.Lock.Exclusion.{try_acquire-try_acquire}

abbrev lower_case : ℕ → Bool
lower_case c = leb 97 c && leb c 122

paseo_acquired : is_ok (try_acquire lower_case (λ p. true) (codes "paseo") []).0 ≡ true
unfolding try_acquire is_lock_name try_acquire_path
paseo_acquired = refl

try_acquire-try_acquire_example :
    (try_acquire lower_case
      (λ p. true)
      (codes "paseo")
      (try_acquire lower_case (λ p. true) (codes "paseo") []).1).0
    ≡ (if codes "paseo" == codes "paseo"
        then err lock_held
        else (try_acquire lower_case (λ p. true) (codes "paseo") []).0)
try_acquire-try_acquire_example =
    try_acquire-try_acquire lower_case (λ p. true) (codes "paseo") (codes "paseo") [] paseo_acquired

slash_refused : (try_acquire lower_case (λ p. true) (codes "a/b") []).0 ≡ err invalid_name
unfolding try_acquire is_lock_name try_acquire_path
slash_refused = refl
