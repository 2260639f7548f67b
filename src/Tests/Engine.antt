-- ===== src/Tests/Engine.antt =====
-- A Docker Engine that keeps which containers run, a system around it, and a world in which the
-- service `paseo` runs in blue.
use codery.Base.{
  ◌≡◌, refl, sym, ap, ◌∙◌, ◌≢◌, Bool, true, false, none, some, [], ◌∷◌, if◌then◌else◌, and_then,
  Text, codes, ◌==◌, ==_ne, trim, starts_with, ok,
}
use codery.Config.{blue, parse, container_name, image_ref}
use codery.Deploy.Flow.Live.{LiveAt}
use codery.Deploy.Real.{container_running, real_deps, load_definition}
use codery.Docker.{
  answer, server_error, HealthStatus, status_healthy, status_unhealthy, ContainerInfo,
  CommandOutput, Engine, answered, is_running, IsEngine, IsTruthful,
}
use codery.Files.{Entry, missing, content, Files, exists, read_to_string}
use codery.ServiceDef.Load.{definition_path, load}
use codery.State.{state_path, read_active}
use codery.Tests.Mock.{paseo}
use codery.World.{World, System}

abbrev pub Runs : Type 0
Runs = Text → Bool

set_running : Text → Bool → Runs → Runs
set_running name b d = λ j. if name == j then b else d j

info_of : Bool → ContainerInfo
info_of b = record {
  running = some b;
  image = some (image_ref (codes "paseo") (codes "old"));
  health = some (if b then status_healthy else status_unhealthy);
}

abbrev printed_true : CommandOutput
printed_true = record { success = true; code = some 0; stdout = codes "true\n"; stderr = [] }

unfoldable pub sim_engine : Engine Runs
unfolding set_running info_of
sim_engine = record {
  inspect_container = λ name d. answer (info_of (d name));
  create_container = λ name config d. (answer tt, d);
  start_container = λ name d. (answer tt, set_running name true d);
  stop_container = λ name d. (answer tt, set_running name false d);
  remove_container = λ name d. (answer tt, set_running name false d);
  create_network = λ network d. (server_error 409, d);
  inspect_volume = λ volume d. answer tt;
  create_volume = λ volume d. (answer tt, d);
  list_images = λ pattern d. answer [];
  remove_image = λ image d. (answer tt, d);
  create_image = λ image credentials d. (answer tt ∷ [], d);
  exec_bash = λ name command d. (d name, d);
  run_exec = λ name command d. (answer [], d);
  exec_cli = λ name command d. (some printed_true, d);
  sleep = λ time d. d;
}

set_running-Beside :
    (name other : Text) (b : Bool) (d : Runs)
    → other ≢ name
    → is_running sim_engine other (set_running name b d) ≡ is_running sim_engine other d
unfolding sim_engine is_running
set_running-Beside name other b d ne = rw (==_ne name other (λ e. ne (sym e)))

pub sim_engine-IsEngine : IsEngine sim_engine
unfolding sim_engine
sim_engine-IsEngine = record {
  create_law = λ name other config d ne. refl;
  start_law = λ name other d ne. set_running-Beside name other true d ne;
  stop_law = λ name other d ne. set_running-Beside name other false d ne;
  remove_law = λ name other d ne. set_running-Beside name other false d ne;
  exec_law = λ name other command d. refl;
  run_exec_law = λ name other command d. refl;
  exec_cli_law = λ name other command d. refl;
  network_law = λ network name d. refl;
  volume_law = λ volume name d. refl;
  remove_image_law = λ image name d. refl;
  pull_law = λ image name credentials d. refl;
  sleep_law = λ time name d. refl;
}

healthy_if :
    (b : Bool) → (if b then status_healthy else status_unhealthy) ≡ status_healthy → b ≡ true
healthy_if true h = refl
healthy_if false h = cc

healthy_some : (h : HealthStatus) → some h ≡ some status_healthy → h ≡ status_healthy
healthy_some h k = cc

pub sim_engine-IsTruthful : IsTruthful sim_engine
unfolding sim_engine is_running
sim_engine-IsTruthful = record {
  exec_truth = λ name command d h. h;
  health_truth = λ name i d e h.
      let k : some (if d name then status_healthy else status_unhealthy) ≡ some status_healthy =
        ap (λ r. and_then (answered r) (λ j. j.health)) e ∙ h in
      healthy_if (d name) (healthy_some _ k);
}

abbrev pub sim : System Runs
sim = record {
  engine = sim_engine;
  from_str = λ text. some paseo;
  static_from_str = λ text. none;
  yml_paths = none;
  db_opens = true;
  can_bind = λ port. true;
  supervisorctl = some (codes "caddy RUNNING\n");
  backend_state = some (some (codes "Running"));
  caddy_reachable = true;
  caddy_accepts = λ env text. true;
  is_alphanumeric = λ c. true;
  can_open = λ path. true;
  to_json = λ env. codes "{}";
  read_json = λ text. none;
  removable = λ name. true;
  bundle_writable = λ name. true;
  now = codes "now";
  rounds = 5;
}

sim_entry : Text → Entry
sim_entry path =
    if path == codes "/opt/codery/state/paseo.color"
    then content (codes "blue\n")
    else if path == codes "/opt/codery/services/paseo.yml"
    then content (codes "service: paseo\n")
    else if path == codes "/opt/codery/.env"
    then content (codes "A=1\n")
    else missing

unfoldable pub sim_files : Files
unfolding sim_entry
sim_files = record { entry = sim_entry; writable = λ path. true }

abbrev pub sim_world : World Runs
sim_world = record {
  files = sim_files;
  docker = λ name. name == codes "codery-paseo-blue";
  tables = record { apps = []; previews = [] };
  bundles = [];
  held = [];
}

pub sim_live : LiveAt (real_deps sim) (codes "paseo") blue sim_world
unfolding real_deps container_running sim_engine is_running read_active sim_files state_path
    container_name exists ◌==◌ starts_with read_to_string parse trim
sim_live = record { color = refl; running = refl }

pub sim_loads : load_definition sim (codes "paseo") sim_world ≡ ok paseo
unfolding load_definition load sim_files read_to_string definition_path ◌==◌
sim_loads = refl
