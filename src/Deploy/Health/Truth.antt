-- ===== src/Deploy/Health/Truth.antt =====
-- A health check that passes was passed by a container that runs.
use Prim.Native.Char.{code}
use codery.Base.{
  ℕ, zero, suc, ◌≡◌, refl, sym, ap, ◌∙◌, inl, inr, Bool, true, false, false≢true, some, arith,
  if◌then◌else◌, Bool-cases, Option-cases, Text, health_timeout, Result, ok, err, pure, fail, ◌>>=◌,
}
use codery.Base.Outcome.Triple.{bind_ok}
use codery.Config.{Color, container_name}
use codery.Deploy.Health.{
  health_verdict, tcp_loop, wait_for_tcp_in_container, wait_for_docker_healthy, check_by,
  becomes_healthy, poll_health,
}
use codery.Docker.{
  Reply, answer, server_error, other_error, status_healthy, ContainerInfo, Engine, is_running,
  IsTruthful,
}
use codery.Relay.{seconds}
use codery.ServiceDef.{HealthCheck, tcp_check, docker_check, ServiceDef}

module _ {D : Type 0} (eng : Engine D) (truth : IsTruthful eng) where
  tcp_loop-running :
      (n : ℕ) (name command : Text) (interval : ℕ) (d : D)
      → (tcp_loop eng n name command interval d).0 ≡ true
      → is_running eng name (tcp_loop eng n name command interval d).1 ≡ true
  unfolding tcp_loop
  tcp_loop-running zero name command interval d h = absurd (false≢true h)
  tcp_loop-running (suc n) name command interval d h =
      elim (Bool-cases (eng.exec_bash name command d).0) [
        | inl e ↦ rw (tcp_loop, e) (truth.exec_truth name command d e)
        | inr e ↦
            rw (tcp_loop, e) (tcp_loop-running n name command interval _ (rw (tcp_loop, e) at h))
      ]

  -- Only one answer decides that a container is healthy.
  verdict_healthy :
      (name : Text) (d : D) (o : Reply ContainerInfo)
      → eng.inspect_container name d ≡ o
      → health_verdict o ≡ some (ok true)
      → is_running eng name d ≡ true
  unfolding health_verdict
  verdict_healthy name d (answer i) e h = truth.health_truth name i d e (healthy_only i h)
    where
      healthy_only :
          (i : ContainerInfo)
          → health_verdict (answer i) ≡ some (ok true)
          → i.health ≡ some status_healthy
      healthy_only i h = ground arith
  verdict_healthy name d (server_error code) e h = cc
  verdict_healthy name d other_error e h = cc

  wait-running :
      (name : Text) (n : ℕ) (d : D)
      → (wait_for_docker_healthy eng name n d).0 ≡ ok true
      → is_running eng name (wait_for_docker_healthy eng name n d).1 ≡ true
  unfolding wait_for_docker_healthy
  wait-running name zero d h = cc
  wait-running name (suc n) d h =
      elim (Option-cases (health_verdict (eng.inspect_container name d))) [
        | inl e ↦
            rw (wait_for_docker_healthy, e)
              (wait-running name n _ (rw (wait_for_docker_healthy, e) at h))
        | inr (r, e) ↦
            let k : r ≡ ok true = rw (wait_for_docker_healthy, e) at h in
            rw (wait_for_docker_healthy, e) (verdict_healthy name d _ refl (e ∙ ap some k))
      ]

  check_by-running :
      (r : Result ℕ) (name : Text) (h : HealthCheck) (d : D)
      → (check_by eng r name h d).0 ≡ ok true
      → is_running eng name (check_by eng r name h d).1 ≡ true
  unfolding check_by wait_for_tcp_in_container ◌>>=◌
  check_by-running (ok n) name (tcp_check port seconds interval) d e =
      tcp_loop-running _ name _ interval d (cc)
  check_by-running (err x) name (tcp_check port seconds interval) d e = cc
  check_by-running r name (docker_check seconds) d e = wait-running name seconds d e

  passed_on :
      (name : Text) (good : Bool) (o : Result Bool × D) (t : D)
      → o.0 ≡ ok good
      → (if good then pure tt else fail health_timeout) o.1 ≡ (ok tt, t)
      → (o.0 ≡ ok true → is_running eng name o.1 ≡ true)
      → is_running eng name t ≡ true
  unfolding ◌>>=◌
  passed_on name true o t e q k = ap (λ r. is_running eng name r.1) (sym q) ∙ k e
  passed_on name false o t e q k = let x : err health_timeout ≡ ok tt = ap (λ r. r.0) q in cc

  -- Given that a container runs when a command could be run in it and when it is reported healthy:
  -- after a health check that passes, the container runs.
  pub poll_health-running :
      (def : ServiceDef) (color : Color) (d : D)
      → (poll_health eng def color d).0 ≡ ok tt
      → is_running eng (container_name def.service color) (poll_health eng def color d).1 ≡ true
  unfolding poll_health becomes_healthy
  poll_health-running def color d h =
      let (good, e, q) = bind_ok _ _ d tt _ (λ i. (h i, (poll_health eng def color d).1)) in
      passed_on _ good (becomes_healthy eng def color d) _ e q
        (check_by-running _ _ def.health_check d)
