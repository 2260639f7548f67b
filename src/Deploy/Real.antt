-- ===== src/Deploy/Real.antt =====
-- deploy.rs, RealDeps: the trait over the world, and the entry points that `main.rs` and the servers
-- call.
pub mod Isolation
pub mod Laws
use codery.ServiceDef.Env.{image_ref as service_image}
use codery.Base.{
  Bool, false, ◌&&◌, Option, none, some, [], if◌then◌else◌, unwrap_or, and_then, Text, ◌==◌,
  no_active_sha, Result, ok, ok_or, unwrap_or_else, Exec, pure, query, ◌>>=◌, ◌>>◌,
}
use codery.Caddy.Apply.{apply_all}
use codery.Config.{nginx_config, Color, blue, container_name}
use codery.Deploy.Container.{
  remove_container_if_exists, stop_container, ensure_network, start_container,
}
use codery.Deploy.Deps.{DeployDeps}
use codery.Deploy.Flow.{
  Inspection, deploy_service, run_start_inactive, run_cancel_inactive, run_cutover,
}
use codery.Deploy.Health.{health_check}
use codery.Docker.{answered, is_running}
use codery.Files.{Files, exists, write}
use codery.Images.{list_local}
use codery.Images.Pull.{prune, local_images}
use codery.Jobs.{running}
use codery.Preflight.{run_checks}
use codery.ServiceDef.{ServiceDef}
use codery.ServiceDef.Load.{load}
use codery.State.{read_active, write_active, read_active_sha, write_active_sha}
use codery.Validate.Run.{run_check_deploy}
use codery.World.{World, System, on_docker, on_files}

module _ {D : Type 0} (sys : System D) where
  unfoldable pub ensure_nginx_config : Exec Files (Unit {0})
  ensure_nginx_config fs = if exists fs nginx_config then (ok tt, fs) else write nginx_config [] fs

  unfoldable pub container_running : Text → World D → Result Bool
  container_running name w = ok (is_running sys.engine name w.docker)

  unfoldable pub real_deps : DeployDeps (World D)
  unfolding ensure_nginx_config container_running
  real_deps = record {
    preflight = query (λ w. run_checks sys);
    read_active = λ service w. read_active service w.files;
    read_active_sha = λ service w. read_active_sha service w.files;
    write_active = λ service color. on_files (write_active service color);
    write_active_sha = λ service sha. on_files (write_active_sha service sha);
    apply_caddy = apply_all sys;
    ensure_network = λ network. on_docker (ensure_network sys.engine network);
    validate = run_check_deploy sys;
    start_container = start_container sys.engine sys.rounds;
    remove_container_if_exists = λ name. on_docker (remove_container_if_exists sys.engine name);
    stop_container = λ name. on_docker (stop_container sys.engine name);
    health_check = λ def color. on_docker (health_check sys.engine def color);
    prune_images = λ service. on_docker (prune sys.engine service);
    ensure_nginx_config = on_files ensure_nginx_config;
    container_running = container_running;
  }

  image_of : Text → World D → Option Text
  image_of name w = and_then (answered (sys.engine.inspect_container name w.docker)) λ i. i.image

  unfoldable pub container_runs_image : ServiceDef → Color → Text → World D → Result Bool
  container_runs_image def color sha w =
      ok
        (elim (answered
          (sys.engine.inspect_container (container_name def.service color) w.docker)) [
            | none ↦ false
            | some i ↦ unwrap_or i.running false && unwrap_or i.image [] == service_image def sha
          ])

  unfoldable pub real_inspection : Inspection (World D)
  unfolding container_runs_image image_of
  real_inspection = record {
    container_runs_image = container_runs_image;
    list_local = λ service w. local_images sys.engine service w.docker;
    active_container_image = λ service active w. ok (image_of (container_name service active) w);
  }

  unfoldable pub load_definition : Text → World D → Result ServiceDef
  load_definition service w = load sys.from_str w.files service

  -- `deploy::run`.
  unfoldable pub run_deploy : Text → Text → Exec (World D) (Unit {0})
  unfolding load_definition
  run_deploy service sha = do
    def ← query (load_definition service)
    deploy_service real_deps def sha

  unfoldable pub run_preview : Text → Text → Exec (World D) Color
  unfolding load_definition
  run_preview service sha = do
    def ← query (load_definition service)
    run_start_inactive real_deps def sha

  unfoldable pub run_promotion : Text → Option Text → Option Text → Exec (World D) (Unit {0})
  unfolding load_definition
  run_promotion service sha_opt preview = do
    def ← query (load_definition service)
    run_cutover real_deps real_inspection def sha_opt preview

  unfoldable pub run_cancel : Text → Exec (World D) (Unit {0})
  unfolding load_definition
  run_cancel service = do def ← query (load_definition service); run_cancel_inactive real_deps def

  -- The container of the recorded color anew, from the recorded SHA.
  unfoldable pub recreate_active_container : Text → Exec (World D) (Color × Text)
  unfolding load_definition
  recreate_active_container service = do
    def ← query (load_definition service)
    color ← query (λ w. ok (unwrap_or_else (read_active service w.files) blue))
    sha ← query (λ w. ok_or (read_active_sha service w.files) no_active_sha)
    on_docker (remove_container_if_exists sys.engine (container_name service color))
    start_container sys.engine sys.rounds def sha color
    apply_all sys
    pure (color, sha)
