-- ===== src/Tests/Files.antt =====
-- The state files after a write.
use codery.Base.{
  ◌≡◌, refl, ◌≢◌, true, false≢true, none, some, if◌then◌else◌, codes, ◌==◌, ==_iff, trim,
  starts_with, is_empty, ok,
}
use codery.Config.{green}
use codery.Files.{missing, Files, write}
use codery.State.{read_active, write_active, read_active_sha, write_active_sha}
use codery.State.Laws.{IsRelative, read-write_active, read-write_active_sha}

abbrev empty : Files
empty = record { entry = λ path. missing; writable = λ path. true }

abbrev recorded : Files
recorded = (write_active (codes "paseo") green empty).1

written : write_active (codes "paseo") green empty ≡ (ok tt, recorded)
unfolding write_active write
written = refl

abbrev recorded_sha : Files
recorded_sha = (write_active_sha (codes "paseo") (codes " abc ") empty).1

written_sha : write_active_sha (codes "paseo") (codes " abc ") empty ≡ (ok tt, recorded_sha)
unfolding write_active_sha write
written_sha = refl

read-write_active_example : read_active (codes "paseo") recorded ≡ ok green
read-write_active_example = read-write_active (codes "paseo") green empty recorded written

IsRelative-paseo : IsRelative (codes "paseo")
unfolding starts_with
IsRelative-paseo = refl

IsRelative-apps : IsRelative (codes "apps")
unfolding starts_with
IsRelative-apps = refl

paseo-ne-apps : codes "paseo" ≢ codes "apps"
unfolding ◌==◌
paseo-ne-apps e = false≢true ((==_iff (codes "paseo") (codes "apps")).1 e)

read-write_active_sha_example :
    read_active_sha (codes "paseo") recorded_sha
    ≡ (if is_empty (trim (codes " abc ")) then none else some (trim (codes " abc ")))
read-write_active_sha_example =
    read-write_active_sha (codes "paseo") (codes " abc ") empty recorded_sha written_sha
