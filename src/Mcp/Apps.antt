-- ===== src/Mcp/Apps.antt =====
-- mcp.rs: the tools that add, remove and restart an app, and the status of the apps.
use codery.Base.{
  ℕ, zero, suc, ◌+◌, Bool, true, false, not, ◌||◌, Option, none, some, List, [], ◌∷◌, ◌++◌, ltb,
  eqb, if◌then◌else◌, is_some, unwrap_or, map_option, filter_option, Text, codes, ◌==◌, trim,
  starts_with, contains_char, pos, is_empty, Assoc, io_error, not_running, constraint, not_found,
  bad_request, Result, ok, err, ok_or, unwrap_or_else, Exec, pure, fail, query, ◌>>=◌, ◌>>◌,
}
use codery.Caddy.Apply.{apply_all}
use codery.Command.{open_tables, sync_s6}
use codery.Db.{AppRecord, Tables, insert_app, delete_app, find_app_by_name, port_claimed}
use codery.Mcp.{container_exec}
use codery.Nginx.{generate_and_reload}
use codery.S6.Svstat.{SvcStat, parse_i64, parse_svstat_batch, svstat_batch_cmd}
use codery.World.{World, System, on_tables}

pub record AddAppParams : Type 0 where
  pub name : Text
  pub subdomain : Text
  pub internal_port : ℕ
  pub command : Text
  pub directory : Text
  pub env : Option (Assoc Text)
  pub no_cache : Option Bool
  pub source : Option Text

-- The variables as JSON; a map without entries counts as none.
unfoldable pub env_json : (Assoc Text → Text) → Option (Assoc Text) → Option Text
env_json to_json env = map_option to_json (filter_option (λ e. not (is_empty e)) env)

unfoldable pub app_record : (Assoc Text → Text) → AddAppParams → AppRecord
unfolding env_json
app_record to_json p = record {
  name = p.name;
  subdomain = p.subdomain;
  internal_port = p.internal_port;
  command = p.command;
  directory = p.directory;
  env = env_json to_json p.env;
  priority = pos 100;
  user = codes "gem";
  restart = codes "always";
  no_cache = unwrap_or p.no_cache false;
  source = unwrap_or p.source (codes "runtime");
  created_at = [];
}

exited : Text → Bool
exited text = starts_with (codes "[exited") text

-- The checks on the tables and the source, in their order.
unfoldable pub check_app : Tables → AddAppParams → Result (Unit {0})
check_app t p =
    if port_claimed t p.internal_port
    then err constraint
    else if is_some (find_app_by_name t p.name)
    then err constraint
    else if unwrap_or p.source (codes "runtime") == codes "runtime"
    then ok tt
    else if unwrap_or p.source (codes "runtime") == codes "build"
    then ok tt
    else err bad_request

unfoldable pub is_app_name : Text → Bool
is_app_name name = not (contains_char 32 name || contains_char b'/' name || contains_char b'.' name)

parse_pid : Result Text → Option ℕ
parse_pid (err e) = none
parse_pid (ok text) = elim (parse_i64 (trim text)) [ some (pos n) ↦ some n | _ ↦ none ]

module _ {D : Type 0} (sys : System D) where
  unfoldable pub require_ok : Bool → Exec (World D) (Unit {0})
  require_ok b = if b then pure tt else fail bad_request

  unfoldable pub pause : ℕ → Exec (World D) (Unit {0})
  pause time w = (ok tt, record w { docker = sys.engine.sleep time w.docker })

  -- Up to the given number of looks at the service, each after a pause; a look that fails counts
  -- as one that finds it down.
  unfoldable pub wait_up : ℕ → Text → World D → Bool × World D
  unfolding pause
  wait_up zero svc w = (false, w)
  wait_up (suc n) svc w =
      let (r, after) =
        container_exec sys (codes "apps")
          (codes "/command/s6-svstat" ∷ codes "-o" ∷ codes "up" ∷ svc ∷ []) (pause 500 w).1 in
      elim (trim (unwrap_or_else r []) == codes "true") [
        | true ↦ (true, after)
        | false ↦ wait_up n svc after
      ]

  unfoldable pub bring_up : Text → Exec (World D) (Unit {0})
  unfolding wait_up
  bring_up name = do
    linked ← container_exec sys (codes "apps") (
        codes "/command/s6-svlink"
        ∷ codes "/run/service"
        ∷ (codes "/etc/s6-overlay/apps.d/" ++ name)
        ∷ [])
    λ w.
        let (up, after) = wait_up 10 (codes "/run/service/" ++ name) w in
        (if up then ok tt else err not_running, after)

  unfoldable pub refresh_routes : Exec (World D) (Unit {0})
  refresh_routes = do apply_all sys; generate_and_reload sys

  unfoldable pub check_directory : Text → Exec (World D) (Unit {0})
  unfolding require_ok exited
  check_directory directory = do
    out ← container_exec sys (codes "apps") (codes "test" ∷ codes "-d" ∷ directory ∷ [])
    require_ok (not (exited out))

  unfoldable pub add_app : AddAppParams → Exec (World D) (Unit {0})
  unfolding require_ok is_app_name check_directory check_app bring_up refresh_routes
  add_app p = do
    require_ok (is_app_name p.name)
    check_directory p.directory
    open_tables sys
    query (λ w. check_app w.tables p)
    on_tables (insert_app sys.now (app_record sys.to_json p))
    sync_s6 sys
    if (app_record sys.to_json p).source == codes "runtime" then bring_up p.name else pure tt
    refresh_routes

  -- Whether the service can be unlinked does not matter.
  unfoldable pub unlink : Text → Exec (World D) (Unit {0})
  unlink name w = (
    ok tt,
    (container_exec sys (codes "apps")
        (codes "/command/s6-svunlink" ∷ codes "/run/service" ∷ name ∷ []) w).1,
  )

  -- The end of a removal: the row, the bundle and the routes.
  unfoldable pub forget_app : Text → Exec (World D) (Unit {0})
  unfolding pause refresh_routes
  forget_app name = do
    deleted ← on_tables (delete_app name)
    sync_s6 sys
    pause 1000
    refresh_routes

  unfoldable pub remove_app : Text → Exec (World D) (Unit {0})
  unfolding require_ok unlink forget_app
  remove_app name = do
    open_tables sys
    app ← query (λ w. ok_or (find_app_by_name w.tables name) not_found)
    require_ok (not (app.source == codes "build"))
    unlink name
    forget_app name

  -- The process number of the service; `none` where it is not up or cannot be read.
  pid_of : Text → World D → Option ℕ × World D
  unfolding parse_pid
  pid_of svc w =
      let (r, after) =
        container_exec sys (codes "apps")
          (codes "/command/s6-svstat" ∷ codes "-o" ∷ codes "pid" ∷ svc ∷ []) w in
      (filter_option (λ n. ltb 0 n) (parse_pid r), after)

  -- The attempts that are left, with the number of the next one; the third is followed by SIGKILL.
  unfoldable pub await_restart : ℕ → ℕ → ℕ → Text → World D → Option ℕ × World D
  unfolding pid_of pause
  await_restart zero attempt old svc w = (none, w)
  await_restart (suc n) attempt old svc w =
      let (pid, after) = pid_of svc (pause 500 w).1 in
      let killed : World D =
        if eqb attempt 3
        then (container_exec sys (codes "apps") (codes "/command/s6-svc" ∷ codes "-k" ∷ svc ∷ [])
            after).1
        else after in
      elim (filter_option (λ p. not (eqb p old)) pid) [
        | some new ↦ (some new, after)
        | none ↦ await_restart n (attempt + 1) old svc killed
      ]

  unfoldable pub restart_app : Text → Exec (World D) (ℕ × ℕ)
  unfolding pid_of await_restart
  restart_app name = do
    old ← λ w.
        let (pid, after) = pid_of (codes "/run/service/" ++ name) w in
        (ok_or pid not_running, after)
    signalled ←
        container_exec sys (codes "apps")
          (codes "/command/s6-svc" ∷ codes "-t" ∷ (codes "/run/service/" ++ name) ∷ [])
    new ← λ w.
        let (pid, after) = await_restart 10 1 old (codes "/run/service/" ++ name) w in
        (ok_or pid not_running, after)
    pure (old, new)

  unfoldable pub svc_stats : Text → Exec (World D) (List SvcStat)
  unfolding exited
  svc_stats service = do
    out ← container_exec sys service (codes "bash" ∷ codes "-c" ∷ svstat_batch_cmd ∷ [])
    if exited out then fail io_error else pure (parse_svstat_batch out)
