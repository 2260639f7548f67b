-- ===== src/Docker.antt =====
-- The Docker Engine as the program calls it through bollard: an interface over a state, which the
-- program's own code takes as an argument, and what is known of it. `sleep` lets time pass.
use codery.Base.{
  ℕ, ◌≡◌, ◌≢◌, Bool, true, false, Option, none, some, List, if◌then◌else◌, unwrap_or, and_then,
  Text, Assoc, docker_error, Result, ok, err,
}
use codery.Images.{Credentials, ImageSummary}

-- The answer to a request: a value, an error that the daemon reports with its HTTP status, or any
-- other failure.
pub data Reply (A : Type 0) : Type 0 where
  answer : A → Reply A
  server_error : ℕ → Reply A
  other_error : Reply A

pub data HealthStatus : Type 0 where
  status_none status_starting status_healthy status_unhealthy : HealthStatus

-- `state.running`, `config.image` and `state.health.status` of an inspected container.
pub record ContainerInfo : Type 0 where
  pub running : Option Bool
  pub image : Option Text
  pub health : Option HealthStatus

-- `PortBinding`: the interface and the port of the host.
pub record PortBinding : Type 0 where
  pub host_ip : Text
  pub host_port : Text

-- The parts of bollard's `Config` that the program sets.
pub record ContainerConfig : Type 0 where
  pub image : Text
  pub env : List Text
  pub cmd : Option (List Text)
  pub entrypoint : Option (List Text)
  pub user : Option Text
  pub working_dir : Option Text
  pub exposed_ports : List Text
  pub port_bindings : Assoc PortBinding
  pub network_mode : Text
  pub binds : List Text
  pub extra_hosts : Option (List Text)
  pub security_opt : Option (List Text)
  pub with_init : Option Bool
  pub ipc_mode : Option Text
  pub restart_policy : Text
  -- The endpoint of the network: its name and the aliases in it.
  pub networking : Option (Text × List Text)

-- What a program printed and how it ended; `code` is `none` where a signal ended it.
pub record CommandOutput : Type 0 where
  pub success : Bool
  pub code : Option ℕ
  pub stdout : Text
  pub stderr : Text

pub record Engine (D : Type 0) : Type 0 where
  pub inspect_container : Text → D → Reply ContainerInfo
  pub create_container : Text → ContainerConfig → D → Reply (Unit {0}) × D
  pub start_container : Text → D → Reply (Unit {0}) × D
  pub stop_container : Text → D → Reply (Unit {0}) × D
  -- With `force`.
  pub remove_container : Text → D → Reply (Unit {0}) × D
  pub create_network : Text → D → Reply (Unit {0}) × D
  pub inspect_volume : Text → D → Reply (Unit {0})
  pub create_volume : Text → D → Reply (Unit {0}) × D
  -- The images whose reference matches.
  pub list_images : Text → D → Reply (List ImageSummary)
  pub remove_image : Text → D → Reply (Unit {0}) × D
  -- The messages of the stream of a pull.
  pub create_image : Text → Option Credentials → D → List (Reply (Unit {0})) × D
  -- `docker exec CONTAINER bash -c COMMAND`: whether it could be run and ended well.
  pub exec_bash : Text → Text → D → Bool × D
  -- An exec through the API, attached: the output on both streams.
  pub run_exec : Text → List Text → D → Reply Text × D
  -- `docker exec CONTAINER COMMAND` with its output; `none`: it cannot be spawned.
  pub exec_cli : Text → List Text → D → Option CommandOutput × D
  -- For a number of milliseconds.
  pub sleep : ℕ → D → D

-- `ok()` of a reply.
abbrev pub answered : {A : Type 0} → Reply A → Option A
answered (answer a) = some a
answered (server_error code) = none
answered other_error = none

-- The `?` operator.
abbrev pub to_result : {A : Type 0} → Reply A → Result A
to_result (answer a) = ok a
to_result (server_error code) = err docker_error
to_result other_error = err docker_error

-- A request whose errors with some of the status codes count as done.
unfoldable pub settle : {D : Type 0} → (ℕ → Bool) → Reply (Unit {0}) × D → Result (Unit {0}) × D
settle fine (answer u, d) = (ok tt, d)
settle fine (server_error code, d) = (if fine code then ok tt else err docker_error, d)
settle fine (other_error, d) = (err docker_error, d)

-- Whether a container exists and runs.
unfoldable pub is_running : {D : Type 0} → Engine D → Text → D → Bool
is_running eng name d =
    unwrap_or (and_then (answered (eng.inspect_container name d)) (λ i. i.running)) false

-- A request that concerns one container leaves the others running or not as they were, and a request
-- that concerns none leaves all of them so. No container starts or stops while the program sleeps or
-- by a command that the program runs in it.
pub record IsEngine {D : Type 0} (eng : Engine D) : Type 0 where
  pub create_law :
      (name other : Text) (config : ContainerConfig) (d : D)
      → other ≢ name
      → is_running eng other (eng.create_container name config d).1 ≡ is_running eng other d
  pub start_law :
      (name other : Text) (d : D)
      → other ≢ name
      → is_running eng other (eng.start_container name d).1 ≡ is_running eng other d
  pub stop_law :
      (name other : Text) (d : D)
      → other ≢ name
      → is_running eng other (eng.stop_container name d).1 ≡ is_running eng other d
  pub remove_law :
      (name other : Text) (d : D)
      → other ≢ name
      → is_running eng other (eng.remove_container name d).1 ≡ is_running eng other d
  pub exec_law :
      (name other command : Text) (d : D)
      → is_running eng other (eng.exec_bash name command d).1 ≡ is_running eng other d
  pub run_exec_law :
      (name other : Text) (command : List Text) (d : D)
      → is_running eng other (eng.run_exec name command d).1 ≡ is_running eng other d
  pub exec_cli_law :
      (name other : Text) (command : List Text) (d : D)
      → is_running eng other (eng.exec_cli name command d).1 ≡ is_running eng other d
  pub network_law :
      (network name : Text) (d : D)
      → is_running eng name (eng.create_network network d).1 ≡ is_running eng name d
  pub volume_law :
      (volume name : Text) (d : D)
      → is_running eng name (eng.create_volume volume d).1 ≡ is_running eng name d
  pub remove_image_law :
      (image name : Text) (d : D)
      → is_running eng name (eng.remove_image image d).1 ≡ is_running eng name d
  pub pull_law :
      (image name : Text) (credentials : Option Credentials) (d : D)
      → is_running eng name (eng.create_image image credentials d).1 ≡ is_running eng name d
  pub sleep_law :
      (time : ℕ) (name : Text) (d : D)
      → is_running eng name (eng.sleep time d) ≡ is_running eng name d

-- A container runs when a command could be run in it, and when it is reported healthy.
pub record IsTruthful {D : Type 0} (eng : Engine D) : Type 0 where
  pub exec_truth :
      (name command : Text) (d : D)
      → (eng.exec_bash name command d).0 ≡ true
      → is_running eng name (eng.exec_bash name command d).1 ≡ true
  pub health_truth :
      (name : Text) (i : ContainerInfo) (d : D)
      → eng.inspect_container name d ≡ answer i
      → i.health ≡ some status_healthy
      → is_running eng name d ≡ true
