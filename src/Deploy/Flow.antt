-- ===== src/Deploy/Flow.antt =====
-- The deploy, preview, cutover and cancel procedures of deploy.rs, over any implementation of the
-- trait. `def` is the loaded definition of the service.
pub mod Live
pub mod Outcomes
pub mod Safety
use codery.Base.{
  Bool, false, Option, none, some, List, [], if◌then◌else◌, unwrap_or, Text, ◌==◌, first,
  not_running, no_local_images, stale_preview, Result, ok, Exec, pure, fail, query, ◌>>=◌, ◌>>◌,
}
use codery.Config.{Color, flip, container_name}
use codery.Deploy.Deps.{DeployDeps}
use codery.Deploy.Plan.{CutoverPlan, promote, nothing_newer, no_images, stale, plan_cutover}
use codery.Images.{LocalImage, list_local}
use codery.ServiceDef.{ServiceDef}
use codery.State.{read_active, write_active, read_active_sha, write_active_sha}

-- `sha_opt.as_deref() == Some(sha)`.
unfoldable pub same_sha : Option Text → Text → Bool
same_sha none sha = false
same_sha (some recorded) sha = recorded == sha

-- What `run_cutover` reads from Docker beside the trait.
pub record Inspection (S : Type 0) : Type 0 where
  pub container_runs_image : ServiceDef → Color → Text → S → Result Bool
  pub list_local : Text → S → Result (List LocalImage)
  pub active_container_image : Text → Color → S → Result (Option Text)

module _ {S : Type 0} (deps : DeployDeps S) where
  open deps use {
    preflight, read_active, read_active_sha, write_active, write_active_sha, apply_caddy,
    ensure_network, validate, start_container, remove_container_if_exists, stop_container,
    health_check, prune_images, ensure_nginx_config, container_running,
  }

  unfoldable pub start_inactive : ServiceDef → Text → Color → Exec S (Unit {0})
  start_inactive def sha inactive = do
    validate def sha inactive
    remove_container_if_exists (container_name def.service inactive)
    ensure_nginx_config
    start_container def sha inactive
    health_check def inactive

  -- From the point of no return on.
  unfoldable pub switch_over : ServiceDef → Text → Color → Color → Exec S (Unit {0})
  switch_over def sha active inactive = do
    write_active def.service inactive
    write_active_sha def.service sha
    apply_caddy
    stop_container (container_name def.service active)
    prune_images def.service

  unfoldable pub cutover : ServiceDef → Text → Color → Color → Exec S (Unit {0})
  unfolding switch_over
  cutover def sha active inactive = do
    running ← query (container_running (container_name def.service inactive))
    if running then switch_over def sha active inactive else fail not_running

  -- The rest of `deploy_service` after the idempotency check.
  unfoldable pub redeploy : ServiceDef → Text → Color → Exec S (Unit {0})
  redeploy def sha active = do
    start_inactive def sha (flip active)
    cutover def sha active (flip active)

  unfoldable pub unless_running : ServiceDef → Text → Color → Exec S (Unit {0})
  unless_running def sha active = do
    running ← query (container_running (container_name def.service active))
    if running then pure tt else redeploy def sha active

  unfoldable pub deploy_service : ServiceDef → Text → Exec S (Unit {0})
  deploy_service def sha = do
    preflight
    ensure_network def.network
    active ← query (read_active def.service)
    recorded ← query (λ s. ok (read_active_sha def.service s))
    if same_sha recorded sha then unless_running def sha active else redeploy def sha active

  unfoldable pub run_start_inactive : ServiceDef → Text → Exec S Color
  run_start_inactive def sha = do
    preflight
    ensure_network def.network
    active ← query (read_active def.service)
    start_inactive def sha (flip active)
    pure (flip active)

  unfoldable pub run_cancel_inactive : ServiceDef → Exec S (Unit {0})
  run_cancel_inactive def = do
    active ← query (read_active def.service)
    stop_container (container_name def.service (flip active))
    remove_container_if_exists (container_name def.service (flip active))
    prune_images def.service

  module _ (look : Inspection S) where
    open look use {container_runs_image, list_local, active_container_image}

    unfoldable pub staged_preview : ServiceDef → Color → Option Text → S → Result Bool
    staged_preview def inactive none s = ok false
    staged_preview def inactive (some p) s = container_runs_image def inactive p s

    unfoldable pub start_unless_up : ServiceDef → Text → Color → Exec S (Unit {0})
    start_unless_up def sha inactive = do
      already_up ← query (container_runs_image def inactive sha)
      if already_up then pure tt else start_inactive def sha inactive

    unfoldable pub carry_out : ServiceDef → Color → CutoverPlan → Exec S (Unit {0})
    carry_out def active (promote sha already_staged) =
        if already_staged
        then cutover def sha active (flip active)
        else do start_unless_up def sha (flip active); cutover def sha active (flip active)
    carry_out def active (nothing_newer active_tag newest_tag) = pure tt
    carry_out def active no_images = fail no_local_images
    carry_out def active (stale expected_sha) = fail stale_preview

    unfoldable pub run_cutover : ServiceDef → Option Text → Option Text → Exec S (Unit {0})
    run_cutover def sha_opt preview = do
      active ← query (read_active def.service)
      staged ← query (staged_preview def (flip active) preview)
      images ← query (list_local def.service)
      image ← query (active_container_image def.service active)
      carry_out def active (plan_cutover sha_opt preview staged (first images) (unwrap_or image []))
