-- ===== src/Deploy/Health.antt =====
-- deploy.rs: waiting until a container is healthy.
pub mod Truth
use Prim.Native.Char.{code}
use codery.Base.{
  ℕ, zero, suc, ◌*◌, ◌/◌, max, Bool, true, false, Option, none, some, ◌++◌, if◌then◌else◌, Text,
  codes, number_text, docker_error, health_timeout, Result, ok, err, Exec, pure, fail, query, ◌>>=◌,
  ◌>>◌,
}
use codery.Config.{Color, container_name}
use codery.Deploy.Container.{remove_container_if_exists}
use codery.Docker.{
  Reply, answer, server_error, other_error, status_healthy, status_unhealthy, ContainerInfo, Engine,
}
use codery.Relay.{seconds}
use codery.ServiceDef.{HealthCheck, tcp_check, docker_check, ServiceDef}
use codery.ServiceDef.Ports.{health_container_port}

unfoldable pub attempts : ℕ → ℕ → ℕ
attempts seconds interval = seconds / max interval 1

unfoldable pub tcp_command : ℕ → Text
tcp_command port =
    codes "exec 3<>/dev/tcp/127.0.0.1/" ++ (number_text port ++ codes " 2>/dev/null && exec 3>&-")

-- What one inspection decides; `none`: wait.
unfoldable pub health_verdict : Reply ContainerInfo → Option (Result Bool)
health_verdict (answer info) = elim info.health [
  | some status_healthy ↦ some (ok true)
  | some status_unhealthy ↦ some (ok false)
  | _ ↦ none
]
health_verdict (server_error code) = some (err docker_error)
health_verdict other_error = some (err docker_error)

module _ {D : Type 0} (eng : Engine D) where
  open eng use {inspect_container, exec_bash, sleep}

  -- The loop of `wait_for_tcp_in_container`, for the number of attempts that are left.
  unfoldable pub tcp_loop : ℕ → Text → Text → ℕ → D → Bool × D
  tcp_loop zero container command interval d = (false, d)
  tcp_loop (suc n) container command interval d =
      let (success, after) = exec_bash container command d in
      elim success [
        | true ↦ (true, after)
        | false ↦ tcp_loop n container command interval (sleep (interval * 1000) after)
      ]

  unfoldable pub wait_for_tcp_in_container : Text → ℕ → ℕ → ℕ → D → Bool × D
  unfolding attempts tcp_command tcp_loop
  wait_for_tcp_in_container container port seconds interval =
      tcp_loop (attempts seconds interval) container (tcp_command port) interval

  unfoldable pub wait_for_docker_healthy : Text → ℕ → Exec D Bool
  unfolding health_verdict
  wait_for_docker_healthy name zero d = (ok false, d)
  wait_for_docker_healthy name (suc n) d = elim (health_verdict (inspect_container name d)) [
    | some r ↦ (r, d)
    | none ↦ wait_for_docker_healthy name n (sleep 1000 d)
  ]

  -- The check of either kind, given the port, for the container of the name.
  unfoldable pub check_by : Result ℕ → Text → HealthCheck → Exec D Bool
  unfolding wait_for_tcp_in_container wait_for_docker_healthy
  check_by container_port name (tcp_check port seconds interval) = do
    n ← query (λ d. container_port)
    λ d. let (r, after) = wait_for_tcp_in_container name n seconds interval d in (ok r, after)
  check_by container_port name (docker_check seconds) = wait_for_docker_healthy name seconds

  -- Whether the container became healthy in time.
  unfoldable pub becomes_healthy : ServiceDef → Color → Exec D Bool
  unfolding check_by
  becomes_healthy def color =
      check_by (health_container_port def) (container_name def.service color) def.health_check

  unfoldable pub poll_health : ServiceDef → Color → Exec D (Unit {0})
  unfolding becomes_healthy
  poll_health def color = do
    good ← becomes_healthy def color
    if good then pure tt else fail health_timeout

  -- A container that does not become healthy is removed.
  unfoldable pub health_check : ServiceDef → Color → Exec D (Unit {0})
  unfolding becomes_healthy
  health_check def color = do
    good ← becomes_healthy def color
    if good
        then pure tt
        else (remove_container_if_exists eng (container_name def.service color)
            >> fail health_timeout)
