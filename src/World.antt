-- ===== src/World.antt =====
-- What the orchestrator works on: the files, the Docker Engine, the tables, the bundles of the apps
-- and the deploy locks.
use codery.Base.{ℕ, Bool, Option, List, Text, Assoc, Result, Exec, ok_option}
use codery.Db.{Tables}
use codery.Docker.{Engine}
use codery.Files.{Files, read_to_string}
use codery.Routes.{StaticRoute}
use codery.S6.{Bundle}
use codery.ServiceDef.{ServiceDef}

pub record World (D : Type 0) : Type 0 where
  pub files : Files
  pub docker : D
  pub tables : Tables
  -- The directory of the bundles for s6.
  pub bundles : Assoc Bundle
  -- The paths whose lock is held.
  pub held : List Text

-- What lies outside of the program: Docker, the YAML readers, and the answers of other programs.
pub record System (D : Type 0) : Type 0 where
  pub engine : Engine D
  -- The YAML readers of service definitions and of static routes.
  pub from_str : Text → Option ServiceDef
  pub static_from_str : Text → Option (List StaticRoute)
  -- The `yml` files of the services directory; `none`: there is no directory.
  pub yml_paths : Option (List Text)
  -- Whether the database opens.
  pub db_opens : Bool
  pub can_bind : ℕ → Bool
  -- The output of `supervisorctl status`; `none`: it cannot be run.
  pub supervisorctl : Option Text
  -- The `BackendState` of `tailscale status`, if it is a text; the outer `none`: no JSON.
  pub backend_state : Option (Option Text)
  pub caddy_reachable : Bool
  -- Whether `caddy reload` succeeds with these variables and this configuration.
  pub caddy_accepts : Assoc Text → Text → Bool
  -- `char::is_alphanumeric`, and whether a lock file opens.
  pub is_alphanumeric : ℕ → Bool
  pub can_open : Text → Bool
  -- The JSON writer and reader for the variables of an app, and which bundles can be removed and
  -- written.
  pub to_json : Assoc Text → Text
  pub read_json : Text → Option (Assoc Text)
  pub removable : Text → Bool
  pub bundle_writable : Text → Bool
  -- The time of an insertion.
  pub now : Text
  -- The rounds that a substitution may take.
  pub rounds : ℕ

module _ {D A : Type 0} where
  -- The state outside of the part that a computation changes stays as it is.
  abbrev pub keep_docker : World D → Result A × D → Result A × World D
  keep_docker w (r, d) = (r, record w { docker = d })

  abbrev pub keep_files : World D → Result A × Files → Result A × World D
  keep_files w (r, fs) = (r, record w { files = fs })

  abbrev pub keep_tables : World D → Result A × Tables → Result A × World D
  keep_tables w (r, t) = (r, record w { tables = t })

  abbrev pub keep_bundles : World D → Result A × Assoc Bundle → Result A × World D
  keep_bundles w (r, b) = (r, record w { bundles = b })

  unfoldable pub on_bundles : Exec (Assoc Bundle) A → Exec (World D) A
  on_bundles m w = keep_bundles w (m w.bundles)

  unfoldable pub on_docker : Exec D A → Exec (World D) A
  on_docker m w = keep_docker w (m w.docker)

  unfoldable pub on_files : Exec Files A → Exec (World D) A
  on_files m w = keep_files w (m w.files)

  unfoldable pub on_tables : Exec Tables A → Exec (World D) A
  on_tables m w = keep_tables w (m w.tables)

-- A text of the file system, `none` if it cannot be read.
abbrev pub file_text : Files → Text → Option Text
file_text fs path = ok_option (read_to_string fs path)
