-- ===== src/Tests/Apps.antt =====
-- Apps, their bundles, and what is shown and read of containers, at concrete inputs.
use Prim.Native.String.{String}
use codery.Base.{
  ◌≡◌, refl, ap, true, false, none, some, List, [], ◌∷◌, arith, codes, ◌==◌, trim, starts_with, cut,
  lines, number_text, pos, length, Assoc, lookup, insert, ok, ◌>>=◌,
}
use codery.Base.Lists.Sorted.{text_le, sort_by, Distinct}
use codery.Caddy.Apply.{apply_all}
use codery.Command.{open_tables, sync_s6}
use codery.Config.{parse, container_name}
use codery.Db.{AppRecord, Tables, insert_app, delete_app, list_apps, find_app_by_name, port_claimed}
use codery.Db.Valid.{IsValid}
use codery.Deploy.Container.{build_port_bindings}
use codery.Deploy.Container.Bindings.{last_binding, lookup-build_port_bindings}
use codery.Docker.{is_running}
use codery.Files.{exists, read_to_string, write}
use codery.Mcp.{listening_lines, container_exec}
use codery.Mcp.Addition.{added_row, add_app_done}
use codery.Mcp.Apps.{AddAppParams, app_record, add_app, remove_app}
use codery.Mcp.Removal.{remove_app_done}
use codery.Nginx.{generate_and_reload}
use codery.Preflight.{contains}
use codery.S6.{Bundle, shell_quote, bundle_of, sync_s6_to_dir}
use codery.S6.Quoting.{shell_word, shell_word-shell_quote}
use codery.S6.Sync.{wanted, lookup-sync_s6_to_dir}
use codery.ServiceDef.{any_interface, loopback, PortBindingSpec}
use codery.ServiceDef.Load.{load_all}
use codery.ServiceDef.Ports.{resolve}
use codery.State.{state_path, read_active}
use codery.Tests.Engine.{Runs, sim_engine, sim, sim_files, sim_world}
use codery.World.{World, on_bundles, on_docker, on_files, on_tables}

abbrev app_of : String → String → AppRecord
app_of name source = record {
  name = codes name;
  subdomain = codes name;
  internal_port = 3001;
  command = codes "bun run start";
  directory = codes "/home/gem";
  env = none;
  priority = pos 100;
  user = codes "gem";
  restart = codes "always";
  no_cache = false;
  source = codes source;
  created_at = [];
}

abbrev apps : Tables
apps = record { apps = app_of "web" "runtime" ∷ app_of "site" "build" ∷ []; previews = [] }

abbrev bundles_before : Assoc Bundle
bundles_before = (codes "old", bundle_of (λ t. none) (app_of "old" "runtime")) ∷ []

abbrev bundles_after : Assoc Bundle
bundles_after = (codes "web", bundle_of (λ t. none) (app_of "web" "runtime")) ∷ []

apps-Distinct : Distinct (λ a. a.name) (list_apps apps)
unfolding list_apps sort_by text_le
apps-Distinct = (((λ e. omega (arith, ap length e)), tt), (tt, tt))

synchronised :
    sync_s6_to_dir (λ t. none) (λ n. true) (λ n. true) apps bundles_before ≡ (ok tt, bundles_after)
unfolding sync_s6_to_dir list_apps ◌>>=◌ sort_by text_le ◌==◌ insert
synchronised = refl

lookup-sync_s6_to_dir_example :
    lookup (codes "old") bundles_after ≡ wanted (λ t. none) (list_apps apps) (codes "old")
lookup-sync_s6_to_dir_example =
    lookup-sync_s6_to_dir (λ t. none) (λ n. true) (λ n. true) apps bundles_before bundles_after
      (codes "old") apps-Distinct synchronised

shell_word-shell_quote_example :
    shell_word false (shell_quote (codes "echo 'hi' $HOME")) ≡ some (codes "echo 'hi' $HOME")
shell_word-shell_quote_example = shell_word-shell_quote (codes "echo 'hi' $HOME")

abbrev twice : List PortBindingSpec
twice =
    record { host = 1000; container = 80; bind = loopback }
    ∷ record { host = 2000; container = 80; bind = any_interface }
    ∷ []

lookup-build_port_bindings_example :
    lookup
      (codes "80/tcp")
      ((codes "80/tcp", record { host_ip = codes "0.0.0.0"; host_port = codes "2000" }) ∷ [])
    ≡ last_binding none twice (codes "80/tcp")
unfolding resolve insert ◌==◌ number_text
lookup-build_port_bindings_example =
    lookup-build_port_bindings none twice _ (codes "80/tcp") (unfold build_port_bindings in refl)

-- The text of a longer port number holds that of a shorter one, so that its line is shown.
shows_longer_port : length (listening_lines 80 (codes "State Recv-Q\nLISTEN 0.0.0.0:8080\n")) ≡ 2
unfolding listening_lines lines contains cut number_text
shows_longer_port = refl

abbrev app_world : World Runs
app_world = record sim_world { tables = apps; bundles = bundles_after }

apps-IsValid : IsValid apps
apps-IsValid = record {
  names = (((λ e. omega (arith, ap length e)), tt), (tt, tt));
  subdomains = (((λ e. omega (arith, ap length e)), tt), (tt, tt));
  services = tt;
  preview_subdomains = tt;
}

removes : (remove_app sim (codes "web") app_world).0 ≡ ok tt
unfolding remove_app ◌>>=◌ open_tables find_app_by_name sort_by text_le ◌==◌ on_tables delete_app
    sync_s6 on_bundles sync_s6_to_dir container_exec read_active exists sim_files state_path
    starts_with read_to_string trim parse sim_engine on_docker on_files write apply_all load_all
    generate_and_reload is_running container_name app_record
removes = refl

remove_app_done_example :
    (app : AppRecord) × (find_app_by_name apps (codes "web") ≡ some app)
    × (app.source == codes "build" ≡ false)
    × (find_app_by_name (remove_app sim (codes "web") app_world).1.tables (codes "web") ≡ none)
    × (lookup (codes "web") (remove_app sim (codes "web") app_world).1.bundles ≡ none)
remove_app_done_example =
    remove_app_done sim (codes "web") app_world (remove_app sim (codes "web") app_world).1
      apps-IsValid (λ i. (removes i, (remove_app sim (codes "web") app_world).1))

abbrev chat : AddAppParams
chat = record {
  name = codes "chat";
  subdomain = codes "chat";
  internal_port = 9090;
  command = codes "./run";
  directory = codes "/srv/chat";
  env = some [];
  no_cache = none;
  source = none;
}

adds : (add_app sim chat app_world).0 ≡ ok tt
unfolding add_app ◌>>=◌ container_exec read_active exists sim_files ◌==◌ state_path starts_with
    on_docker sim_engine open_tables port_claimed find_app_by_name sort_by text_le on_tables
    insert_app sync_s6 on_bundles sync_s6_to_dir read_to_string trim parse on_files write apply_all
    load_all generate_and_reload is_running container_name app_record
adds = refl

add_app_done_example :
    (port_claimed apps 9090 ≡ false)
    × (find_app_by_name (add_app sim chat app_world).1.tables (codes "chat")
        ≡ some (added_row sim.to_json sim.now chat))
    × (lookup (codes "chat") (add_app sim chat app_world).1.bundles
        ≡ some (bundle_of sim.read_json (added_row sim.to_json sim.now chat)))
unfolding app_record ◌==◌
add_app_done_example =
    add_app_done sim chat app_world (add_app sim chat app_world).1 apps-IsValid
      (λ i. (adds i, (add_app sim chat app_world).1))
