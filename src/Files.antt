-- ===== src/Files.antt =====
-- The files that the program reads and writes.
pub mod Laws
use codery.Base.{
  Bool, true, false, ◌&&◌, if◌then◌else◌, Text, ◌==◌, io_error, Result, ok, err, Exec,
}

pub data Entry : Type 0 where
  missing unreadable : Entry
  content : Text → Entry

-- `writable`: whether the directory of a path can be made and the file written.
pub record Files : Type 0 where
  pub entry : Text → Entry
  pub writable : Text → Bool

unfoldable pub exists : Files → Text → Bool
exists fs path = elim (fs.entry path) [ missing ↦ false | _ ↦ true ]

unfoldable pub read_to_string : Files → Text → Result Text
read_to_string fs path = elim (fs.entry path) [ content s ↦ ok s | _ ↦ err io_error ]

abbrev pub update : (Text → Entry) → Text → Entry → Text → Entry
update f k v = λ j. if k == j then v else f j

-- `fs::create_dir_all` of the parent, then `fs::write`.
unfoldable pub write : Text → Text → Exec Files (Unit {0})
write path text fs =
    if fs.writable path
    then (ok tt, record fs { entry = update fs.entry path (content text) })
    else (err io_error, fs)

-- `fs::rename`: what stands at the first path then stands at the second.
unfoldable pub rename : Text → Text → Exec Files (Unit {0})
unfolding exists
rename path to fs =
    if exists fs path && fs.writable to
    then (ok tt, record fs { entry = update (update fs.entry path missing) to (fs.entry path) })
    else (err io_error, fs)

unfoldable pub remove_file : Text → Exec Files (Unit {0})
unfolding exists
remove_file path fs =
    if exists fs path && fs.writable path
    then (ok tt, record fs { entry = update fs.entry path missing })
    else (err io_error, fs)
