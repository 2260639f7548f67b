-- ===== src/Deploy/Container.antt =====
-- deploy.rs: the configuration of a service's container, and the requests that create and start it,
-- stop it and remove it.
pub mod Bindings
use codery.ServiceDef.Env.{image_ref as service_image}
use codery.Base.{
  ℕ, true, false, not, ◌&&◌, ◌||◌, Option, none, some, List, [], ◌∷◌, ◌++◌, map, eqb, if◌then◌else◌,
  unwrap_or, map_option, Text, codes, trim, starts_with, lines, number_text, retain, is_empty,
  Assoc, insert, out_of_fuel, Result, ok, err, bind_result, Exec, query, ◌>>=◌, ◌>>◌,
}
use codery.Config.{env_file, tailscale_ip_file, Color, container_name}
use codery.Docker.{PortBinding, ContainerConfig, Engine, settle}
use codery.Files.{Files, read_to_string}
use codery.ServiceDef.{PortBindingSpec, ServiceDef}
use codery.ServiceDef.Env.{resolved_binds, resolved_env}
use codery.ServiceDef.Ports.{resolve, port_binding_specs, port_mappings}
use codery.Validate.{env_map}
use codery.World.{World, on_docker, file_text}

unfoldable pub port_key : ℕ → Text
port_key n = number_text n ++ codes "/tcp"

-- The map of the bindings: a later port of the same number takes the place of an earlier one.
bindings_from : Option Text → List PortBindingSpec → Assoc PortBinding → Result (Assoc PortBinding)
unfolding port_key
bindings_from tailscale [] bindings = ok bindings
bindings_from tailscale (spec ∷ specs) bindings = bind_result (resolve spec.bind tailscale) λ ip.
    bindings_from tailscale specs (
      insert (port_key spec.container) (record { host_ip = ip; host_port = number_text spec.host })
        bindings)

unfoldable pub build_port_bindings : Option Text → List PortBindingSpec → Result (Assoc PortBinding)
unfolding bindings_from
build_port_bindings tailscale specs = bindings_from tailscale specs []

-- The keys of the map, with their repetitions.
unfoldable pub build_exposed_ports : List (ℕ × ℕ) → List Text
unfolding port_key
build_exposed_ports pairs = map (λ p. port_key p.1) pairs

unfoldable pub load_env_file : Files → Result (List Text)
load_env_file fs = bind_result (read_to_string fs env_file) λ text.
    ok (retain (λ l. not (is_empty (trim l)) && not (starts_with (codes "#") l)) (lines text))

abbrev pub unless_empty : List Text → Option (List Text)
unless_empty [] = none
unless_empty (x ∷ xs) = some (x ∷ xs)

unfoldable pub container_config_with :
    ServiceDef → Text → List Text → Assoc PortBinding → List (ℕ × ℕ) → List Text → ContainerConfig
unfolding build_exposed_ports
container_config_with def sha env bindings pairs binds = record {
  image = service_image def sha;
  env = env;
  cmd = def.command;
  entrypoint = def.entrypoint;
  user = def.user;
  working_dir = def.workdir;
  exposed_ports = build_exposed_ports pairs;
  port_bindings = bindings;
  network_mode = def.network;
  binds = binds;
  extra_hosts = unless_empty def.extra_hosts;
  security_opt =
      if def.allow_privilege_escalation then none else some (codes "no-new-privileges:true" ∷ []);
  with_init = if def.with_init then some true else none;
  ipc_mode = def.ipc;
  restart_policy = codes "unless-stopped";
  networking = map_option (λ aliases. (def.network, aliases)) (unless_empty def.network_aliases);
}

unfoldable pub container_config : ℕ → Files → ServiceDef → Text → Color → Result ContainerConfig
unfolding load_env_file build_port_bindings container_config_with
container_config rounds fs def sha color = bind_result (load_env_file fs) λ raw_env.
    bind_result
      (build_port_bindings (file_text fs tailscale_ip_file) (port_binding_specs def color))
      λ bindings.
        bind_result
          (unwrap_or (resolved_binds rounds (env_map raw_env []) def.volumes) (err out_of_fuel))
          λ binds. ok (
            container_config_with def sha (resolved_env def raw_env) bindings
              (port_mappings def color) binds)

module _ {D : Type 0} (eng : Engine D) where
  unfoldable pub remove_container_if_exists : Text → Exec D (Unit {0})
  remove_container_if_exists name d = settle (λ code. eqb code 404) (eng.remove_container name d)

  unfoldable pub stop_container : Text → Exec D (Unit {0})
  stop_container name d = settle (λ code. eqb code 404 || eqb code 304) (eng.stop_container name d)

  unfoldable pub ensure_network : Text → Exec D (Unit {0})
  ensure_network network d = settle (λ code. eqb code 409) (eng.create_network network d)

  unfoldable pub create_and_start : Text → ContainerConfig → Exec D (Unit {0})
  create_and_start name config = do
    λ d. settle (λ code. false) (eng.create_container name config d)
    λ d. settle (λ code. false) (eng.start_container name d)

  unfoldable pub start_container : ℕ → ServiceDef → Text → Color → Exec (World D) (Unit {0})
  unfolding container_config create_and_start
  start_container rounds def sha color = do
    config ← query (λ w. container_config rounds w.files def sha color)
    on_docker (create_and_start (container_name def.service color) config)
