-- ===== src/Command.antt =====
-- system/orchestrator/src/main.rs: the commands that change the state. `args` are the arguments with
-- the program's name in front; reading a number is `str::parse`.
pub mod Safety
pub mod Busy
use codery.Base.{
  ℕ, ◌-◌, not, ◌&&◌, ◌||◌, Option, none, some, List, [], ◌∷◌, ◌++◌, leb, if◌then◌else◌, is_some,
  unwrap_or, map_option, Text, codes, ◌==◌, parse_unsigned, u16_mod, get_elem?, find_first,
  is_empty, io_error, parse_error, port_not_found, missing_argument, not_found, bad_request, Result,
  ok, err, ok_or, Exec, pure, fail, query, ◌>>=◌, ◌>>◌,
}
use codery.Caddy.Apply.{apply_all}
use codery.Config.{Color, as_str, flip}
use codery.Db.{
  PreviewRecord, set_app_source, upsert_preview, delete_preview, find_preview, preview_subdomain,
}
use codery.Deploy.Real.{
  load_definition, run_deploy, run_preview, run_promotion, run_cancel, recreate_active_container,
}
use codery.Lock.{try_acquire, release}
use codery.Nginx.{generate_and_reload}
use codery.S6.{sync_s6_to_dir}
use codery.ServiceDef.{ServiceDef}
use codery.ServiceDef.Ports.{host_port}
use codery.State.{read_active}
use codery.Validate.Run.{run_check_deploy}
use codery.World.{World, System, on_bundles, on_tables}

argument : List Text → ℕ → Result Text
argument args i = ok_or (get_elem? args i) missing_argument

-- The argument after the first occurrence of a flag that has one.
unfoldable pub flag_value : List Text → Text → Option Text
flag_value [] flag = none
flag_value (a ∷ []) flag = none
flag_value (a ∷ b ∷ args) flag =
    let later = flag_value (b ∷ args) flag in if a == flag then some b else later

unfoldable pub default_dockerfile : Text → Option Text
default_dockerfile service =
    if service == codes "paseo" || service == codes "opendesign" || service == codes "apps"
    then some (codes "containers/" ++ (service ++ codes "/Dockerfile"))
    else none

unfoldable pub resolve_preview_port : ServiceDef → Result ℕ
resolve_preview_port def = elim (find_first (λ p. is_some p.subdomain) def.ports) [
  | some p ↦ ok p.container_port
  | none ↦ elim def.port_range [
    | none ↦ err port_not_found
    | some r ↦
        if leb r.container_start 8080 && leb 8080 r.container_end
        then ok 8080
        else err port_not_found
  ]
]

preview_port : List Text → ServiceDef → Result ℕ
unfolding flag_value resolve_preview_port
preview_port args def = elim (flag_value args (codes "--port")) [
  | some p ↦ ok_or (parse_unsigned (u16_mod - 1) p) parse_error
  | none ↦ resolve_preview_port def
]

module _ {D : Type 0} (sys : System D) where
  -- The lock of a service is held while a computation runs, and dropped however it ends.
  unfoldable pub locked : {A : Type 0} → Text → Exec (World D) A → Exec (World D) A
  locked service m w =
      let (taken, held) = try_acquire sys.is_alphanumeric sys.can_open service w.held in
      elim taken [
        | err e ↦ (err e, w)
        | ok path ↦
            let (r, after) = m (record w { held = held }) in
            (r, record after { held = release path after.held })
      ]

  -- `db::open` and `db::init`.
  unfoldable pub open_tables : Exec (World D) (Unit {0})
  open_tables = query (λ w. if sys.db_opens then ok tt else err io_error)

  refresh : Exec (World D) (Unit {0})
  refresh = do apply_all sys; generate_and_reload sys

  unfoldable pub sync_s6 : Exec (World D) (Unit {0})
  sync_s6 = do
    t ← query (λ w. ok w.tables)
    on_bundles (sync_s6_to_dir sys.read_json sys.removable sys.bundle_writable t)

  unfoldable pub deploy_command : List Text → Exec (World D) (Unit {0})
  unfolding argument locked
  deploy_command args = do
    service ← query (λ w. argument args 2)
    sha ← query (λ w. argument args 3)
    locked service (run_deploy sys service sha)

  unfoldable pub validate_command : List Text → Exec (World D) (Unit {0})
  unfolding argument
  validate_command args = do
    service ← query (λ w. argument args 2)
    sha ← query (λ w. argument args 3)
    def ← query (load_definition sys service)
    active ← query (λ w. read_active service w.files)
    run_check_deploy sys def sha (flip active)

  unfoldable pub reload_routes : Exec (World D) (Unit {0})
  unfolding open_tables refresh sync_s6
  reload_routes = do open_tables; sync_s6; refresh

  unfoldable pub set_app_source_command : List Text → Exec (World D) (Unit {0})
  unfolding open_tables sync_s6
  set_app_source_command args =
      let name = unwrap_or (get_elem? args 2) [] in
      let source = unwrap_or (get_elem? args 3) [] in
      if is_empty name || not (source == codes "build" || source == codes "runtime")
      then fail bad_request
      else do
        open_tables
        found ← on_tables (set_app_source name source)
        if found then sync_s6 else fail not_found

  unfoldable pub preview_record : Text → Text → Color → ServiceDef → ℕ → PreviewRecord
  preview_record service sha inactive def port = record {
    service = service;
    subdomain = preview_subdomain service;
    host_port = host_port def.port_scheme inactive port;
    sha = sha;
    color = as_str inactive;
    created_at = [];
  }

  -- What `deploy-preview` does while it holds the lock.
  unfoldable pub preview_under_lock : List Text → Text → Text → Exec (World D) (Unit {0})
  unfolding preview_port open_tables preview_record refresh
  preview_under_lock args service sha = do
    def ← query (load_definition sys service)
    port ← query (λ w. preview_port args def)
    inactive ← run_preview sys service sha
    open_tables
    on_tables (upsert_preview sys.now (preview_record service sha inactive def port))
    refresh

  unfoldable pub deploy_preview : List Text → Exec (World D) (Unit {0})
  unfolding argument locked preview_under_lock
  deploy_preview args = do
    service ← query (λ w. argument args 2)
    sha ← query (λ w. argument args 3)
    locked service (preview_under_lock args service sha)

  -- Remove the preview's row, and its route if there was one.
  unfoldable pub drop_preview : Text → Exec (World D) (Unit {0})
  unfolding refresh
  drop_preview service = do
    found ← on_tables (delete_preview service)
    if found then refresh else pure tt

  unfoldable pub cutover_under_lock : List Text → Text → Exec (World D) (Unit {0})
  unfolding flag_value open_tables drop_preview
  cutover_under_lock args service = do
    open_tables
    preview ← query (λ w. ok (map_option (λ p. p.sha) (find_preview w.tables service)))
    run_promotion sys service (flag_value args (codes "--sha")) preview
    drop_preview service

  unfoldable pub cutover_command : List Text → Exec (World D) (Unit {0})
  unfolding argument locked cutover_under_lock
  cutover_command args = do
    service ← query (λ w. argument args 2)
    locked service (cutover_under_lock args service)

  unfoldable pub cancel_under_lock : Text → Exec (World D) (Unit {0})
  unfolding open_tables drop_preview
  cancel_under_lock service = do run_cancel sys service; open_tables; drop_preview service

  unfoldable pub cancel_preview : List Text → Exec (World D) (Unit {0})
  unfolding argument locked cancel_under_lock
  cancel_preview args = do
    service ← query (λ w. argument args 2)
    locked service (cancel_under_lock service)

  unfoldable pub recreate_command : List Text → Exec (World D) (Color × Text)
  unfolding argument
  recreate_command args = do
    service ← query (λ w. argument args 2)
    recreate_active_container sys service

-- The commands that take the lock of a service.
pub data Locking : Type 0 where
  deploying previewing cutting_over cancelling : Locking

unfoldable pub perform : {D : Type 0} → System D → Locking → List Text → Exec (World D) (Unit {0})
perform sys deploying = deploy_command sys
perform sys previewing = deploy_preview sys
perform sys cutting_over = cutover_command sys
perform sys cancelling = cancel_preview sys
