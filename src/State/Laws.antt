-- ===== src/State/Laws.antt =====
-- state.rs: what is read after a write, and that services and kinds of file do not interfere.
use codery.Base.{
  ◌≡◌, refl, sym, ◌∙◌, ◌≢◌, inl, inr, false, Option, none, some, [], ◌∷◌, ◌++◌, append_assoc,
  append_cancel_left, append_cancel_right, arith, if◌then◌else◌, Bool-cases, unwrap_or, Text, codes,
  ◌==◌, trim, starts_with, is_empty, io_error, Result, ok, err,
}
use codery.Base.Chars.Trim.{trim-newline}
use codery.Config.{state_dir, Color, blue, green, as_str, parse}
use codery.Config.Laws.{last_char}
use codery.Files.{Entry, missing, unreadable, content, Files, exists, read_to_string}
use codery.Files.Laws.{entry-write_self, entry-write_ne}
use codery.State.{
  state_path, sha_path, read_active, write_active, read_active_sha, write_active_sha,
}

-- A service name that is no absolute path.
abbrev pub IsRelative : Text → Type 0
IsRelative s = starts_with (codes "/") s ≡ false

starts_with-append :
    (s t : Text)
    → starts_with (codes "/") s ≡ false
    → starts_with (codes "/") t ≡ false
    → starts_with (codes "/") (s ++ t) ≡ false
unfolding starts_with
starts_with-append [] t h k = k
starts_with-append (c ∷ s) t h k = h

state_path_inj : (s t : Text) → IsRelative s → IsRelative t → state_path s ≡ state_path t → s ≡ t
unfolding state_path
state_path_inj s t hs ht e = append_cancel_right s t (codes ".color") (
    append_cancel_left (codes "/") _ _ (
      append_cancel_left state_dir _ _ (
        rw
          (
            starts_with-append s (codes ".color") hs (unfold starts_with in refl),
            starts_with-append t (codes ".color") ht (unfold starts_with in refl),
          )
          at e)))

pub state_path_end : (s : Text) → (p : Text) × (state_path s ≡ p ++ codes "r")
unfolding state_path
state_path_end s = elim (Bool-cases (starts_with (codes "/") (s ++ codes ".color"))) [
  | inl e ↦ (s ++ codes ".colo", rw e (sym (append_assoc s (codes ".colo") (codes "r"))))
  | inr e ↦ (
    state_dir ++ (codes "/" ++ (s ++ codes ".colo")),
    rw e (sym (append_assoc (state_dir ++ codes "/" ++ s) (codes ".colo") (codes "r"))),
  )
]

pub sha_path_end : (s : Text) → (p : Text) × (sha_path s ≡ p ++ codes "a")
unfolding sha_path
sha_path_end s = elim (Bool-cases (starts_with (codes "/") (s ++ codes ".sha"))) [
  | inl e ↦ (s ++ codes ".sh", rw e (sym (append_assoc s (codes ".sh") (codes "a"))))
  | inr e ↦ (
    state_dir ++ (codes "/" ++ (s ++ codes ".sh")),
    rw e (sym (append_assoc (state_dir ++ codes "/" ++ s) (codes ".sh") (codes "a"))),
  )
]

-- A color file and a SHA file are never one file.
sha_path-ne-state_path : (s t : Text) → sha_path s ≢ state_path t
sha_path-ne-state_path s t e =
    let (p, ep) = sha_path_end s in
    let (q, eq) = state_path_end t in
    absurd (omega (arith, last_char p q b'a' b'r' (sym ep ∙ e ∙ eq)))

-- What the entry of the color file says.
abbrev color_of : Entry → Result Color
color_of missing = ok blue
color_of unreadable = err io_error
color_of (content s) = ok (unwrap_or (parse (trim s)) blue)

pub read_active_lem :
    (service : Text) (fs : Files)
    → read_active service fs ≡ color_of (fs.entry (state_path service))
unfolding read_active exists read_to_string
read_active_lem service fs = ground arith

abbrev sha_of : Entry → Option Text
sha_of (content s) = let t = trim s in if is_empty t then none else some t
sha_of _ = none

pub read_active_sha_lem :
    (service : Text) (fs : Files)
    → read_active_sha service fs ≡ sha_of (fs.entry (sha_path service))
unfolding read_active_sha read_to_string
read_active_sha_lem service fs = ground arith

parse-trim-line : (c : Color) → parse (trim (as_str c ++ codes "\n")) ≡ some c
unfolding as_str parse trim ◌==◌
parse-trim-line blue = refl
parse-trim-line green = refl

-- After a write of a color that succeeds, this color is read.
pub read-write_active :
    (service : Text) (c : Color) (fs fs' : Files)
    → write_active service c fs ≡ (ok tt, fs')
    → read_active service fs' ≡ ok c
unfolding write_active
read-write_active service c fs fs' h =
    rw (read_active_lem service fs', entry-write_self _ _ fs fs' h, parse-trim-line c)

-- After a write of a SHA that succeeds, it is read without the white space around it, and an
-- empty one is read as none.
pub read-write_active_sha :
    (service sha : Text) (fs fs' : Files)
    → write_active_sha service sha fs ≡ (ok tt, fs')
    → read_active_sha service fs' ≡ (if is_empty (trim sha) then none else some (trim sha))
unfolding write_active_sha
read-write_active_sha service sha fs fs' h =
    rw (read_active_sha_lem service fs', entry-write_self _ _ fs fs' h, trim-newline sha)

-- For two services whose names are no absolute paths: writing the color of one, whether or not it
-- succeeds, leaves the color of the other and every recorded SHA as they were.
pub write_active_frame :
    (s t u : Text) (c : Color) (fs fs' : Files) (r : Result (Unit {0}))
    → IsRelative s
    → IsRelative t
    → s ≢ t
    → write_active s c fs ≡ (r, fs')
    → (read_active t fs' ≡ read_active t fs) × (read_active_sha u fs' ≡ read_active_sha u fs)
unfolding write_active
write_active_frame s t u c fs fs' r hs ht ne h = (
  rw (
    read_active_lem t fs',
    read_active_lem t fs,
    entry-write_ne _ _ fs fs' r (state_path t) h (λ e. ne (state_path_inj s t hs ht e)),
  ),
  rw (
    read_active_sha_lem u fs',
    read_active_sha_lem u fs,
    entry-write_ne _ _ fs fs' r (sha_path u) h (λ e. sha_path-ne-state_path u s (sym e)),
  ),
)

-- Writing a SHA leaves every color as it was.
pub write_active_sha_frame :
    (s t sha : Text) (fs fs' : Files) (r : Result (Unit {0}))
    → write_active_sha s sha fs ≡ (r, fs')
    → read_active t fs' ≡ read_active t fs
unfolding write_active_sha
write_active_sha_frame s t sha fs fs' r h = rw (
  read_active_lem t fs',
  read_active_lem t fs,
  entry-write_ne _ _ fs fs' r (state_path t) h (sha_path-ne-state_path s t),
)
