-- ===== src/Files/Laws.antt =====
-- What `write` leaves in the file system.
use codery.Base.{
  ◌≡◌, ◌∙◌, ◌≢◌, arith, if◌then◌else◌, Text, ◌==◌, ==_refl, ==_ne, Error, Result, ok, err,
}
use codery.Files.{content, Files, write}

-- A write that succeeds puts the text at its path and leaves every other path alone.
pub entry-write :
    (path text : Text) (fs fs' : Files)
    → write path text fs ≡ (ok tt, fs')
    → (j : Text) → fs'.entry j ≡ (if path == j then content text else fs.entry j)
unfolding write
entry-write path text fs fs' h j = ground arith

-- A write that fails changes nothing.
pub write_failed :
    (path text : Text) (fs fs' : Files) (e : Error) → write path text fs ≡ (err e, fs') → fs' ≡ fs
unfolding write
write_failed path text fs fs' e h = ground arith

pub entry-write_self :
    (path text : Text) (fs fs' : Files)
    → write path text fs ≡ (ok tt, fs')
    → fs'.entry path ≡ content text
entry-write_self path text fs fs' h = entry-write path text fs fs' h path ∙ rw (==_refl path)

pub entry-write_ne :
    (path text : Text) (fs fs' : Files) (r : Result (Unit {0})) (j : Text)
    → write path text fs ≡ (r, fs')
    → path ≢ j
    → fs'.entry j ≡ fs.entry j
entry-write_ne path text fs fs' (ok tt) j h ne =
    entry-write path text fs fs' h j ∙ rw (==_ne path j ne)
entry-write_ne path text fs fs' (err e) j h ne = rw (write_failed path text fs fs' e h)
