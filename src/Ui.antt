-- ===== src/Ui.antt =====
-- system/orchestrator/src/ui.rs: the handlers of the user interface, the operations that it shows as
-- running, and the rollback of a service.
pub mod Ops
pub mod Names
pub mod Rollback
use Prim.Native.Char.{code}
use codery.Base.{
  ℕ, zero, suc, Bool, true, false, not, Option, none, some, List, [], ◌∷◌, ◌++◌, map, reverse,
  if◌then◌else◌, unwrap_or, map_option, and_then, Text, codes, ◌==◌, strip_prefix, length, take,
  retain, any, first, Assoc, lookup, insert, health_timeout, not_found, bad_request, Result, ok,
  err, is_ok, bind_result, Exec, query, ◌>>=◌, ◌>>◌,
}
use codery.Caddy.Apply.{apply_all}
use codery.Command.{locked}
use codery.Config.{registry, Color, blue, green, color_eq, flip, container_name}
use codery.Deploy.Container.{stop_container}
use codery.Deploy.Health.{poll_health}
use codery.Deploy.Real.{load_definition}
use codery.Docker.{Reply, answered, to_result, settle}
use codery.Jobs.Starts.{idle}
use codery.ServiceDef.{ServiceDef}
use codery.State.{read_active, write_active, write_active_sha}
use codery.World.{World, System, on_docker, on_files}

strip_suffix : Text → Text → Option Text
strip_suffix suffix s = map_option reverse (strip_prefix (reverse suffix) (reverse s))

-- `trim_start_matches`, for at most the given number of times.
trim_prefix : ℕ → Text → Text → Text
trim_prefix zero p s = s
trim_prefix (suc f) p s = elim (strip_prefix p s) [ none ↦ s | some rest ↦ trim_prefix f p rest ]

-- The prefix is not empty, so that each round takes a character.
unfoldable pub short_id : Option Text → Text
unfolding trim_prefix
short_id id = let s = unwrap_or id [] in take 12 (trim_prefix (length s) (codes "sha256:") s)

with_color : Text → Option (Text × Color)
unfolding strip_suffix
with_color rest = elim (strip_suffix (codes "-blue") rest) [
  | some svc ↦ some (svc, blue)
  | none ↦ map_option (λ svc. (svc, green)) (strip_suffix (codes "-green") rest)
]

-- `codery-{service}-{color}`.
unfoldable pub parse_service_container : Text → Option (Text × Color)
unfolding with_color
parse_service_container name = and_then (strip_prefix (codes "codery-") name) with_color

unfoldable pub sha_from_image_tag : Text → Text → Option Text
sha_from_image_tag service image =
    strip_prefix (registry ++ (codes ":" ++ (service ++ codes "-"))) image

-- What an operation on a container is shown as.
pub data Op : Type 0 where
  stopping starting killing restarting rolling_back : Op

pub data Action : Type 0 where
  started died stopped other_action : Action

abbrev pub Ops : Type 0
Ops = Assoc Op

unfoldable pub forget_op : Text → Ops → Ops
forget_op name ops = retain (λ e. not (e.0 == name)) ops

unfoldable pub is_ending : Option Op → Bool
is_ending (some stopping) = true
is_ending (some killing) = true
is_ending _ = false

-- An event of Docker about a container.
unfoldable pub on_event : Action → Text → Ops → Ops
unfolding forget_op is_ending
on_event started name ops = forget_op name ops
on_event died name ops = if is_ending (lookup name ops) then forget_op name ops else ops
on_event stopped name ops = if is_ending (lookup name ops) then forget_op name ops else ops
on_event other_action name ops = ops

-- The steps of the map: an operation is dispatched, its command cannot be spawned, its five minutes
-- are over, or an event arrives.
pub data OpsStep : Type 0 where
  dispatched : Text → Op → OpsStep
  spawn_failed expired : Text → OpsStep
  event : Action → Text → OpsStep

unfoldable pub step_ops : OpsStep → Ops → Ops
unfolding on_event
step_ops (dispatched name op) ops = insert name op ops
step_ops (spawn_failed name) ops = forget_op name ops
step_ops (expired name) ops = forget_op name ops
step_ops (event action name) ops = on_event action name ops

-- A container as Docker lists it.
pub record Listed : Type 0 where
  pub names : List Text
  pub image : Option Text
  pub status : Option Text
  pub state : Option Text
  pub id : Option Text
  pub image_id : Option Text

pub record ServiceStatus : Type 0 where
  pub name : Text
  pub image : Text
  pub status : Text
  pub state : Text
  pub service : Option Text
  pub rollback_available : Bool
  pub prev_container : Option Text
  pub operation : Option Op
  pub serving : Bool
  pub container_id : Text
  pub image_id : Text

module _ {D : Type 0} (sys : System D) where
  -- A container that cannot be inspected does not count as stopped.
  unfoldable pub is_container_stopped : Text → World D → Bool
  is_container_stopped name w = elim (answered (sys.engine.inspect_container name w.docker)) [
    | none ↦ false
    | some i ↦ not (unwrap_or i.running false)
  ]

  -- The service, whether its other container could be rolled back to, that container, and whether
  -- this one serves.
  peer_status : Text → World D → Option Text × (Bool × (Option Text × Bool))
  unfolding is_container_stopped parse_service_container
  peer_status name w = elim (parse_service_container name) [
    | none ↦ (none, (false, (none, false)))
    | some (svc, color) ↦
        let peer = container_name svc (flip color) in
        let idle = is_container_stopped peer w in
        let serving : Bool = elim (read_active svc w.files) [
          | ok active ↦ color_eq active color
          | err e ↦ false
        ] in
        (some svc, (idle, (if idle then some peer else none, serving)))
  ]

  unfoldable pub status_of : Ops → World D → Listed → ServiceStatus
  unfolding trim_prefix peer_status short_id
  status_of ops w c =
      let first_name = unwrap_or (first c.names) [] in
      let shown = trim_prefix (length first_name) (codes "/") first_name in
      let peer = peer_status shown w in
      record {
        name = shown;
        image = unwrap_or c.image [];
        status = unwrap_or c.status [];
        state = unwrap_or c.state [];
        service = peer.0;
        rollback_available = peer.1.0;
        prev_container = peer.1.1.0;
        operation = lookup shown ops;
        serving = peer.1.1.1;
        container_id = short_id c.id;
        image_id = short_id c.image_id;
      }

  -- The answer of Docker's list of all containers is an argument.
  unfoldable pub build_status : Reply (List Listed) → Ops → World D → Result (List ServiceStatus)
  unfolding status_of
  build_status listed ops w =
      bind_result (to_result listed) λ containers. ok (map (status_of ops w) containers)

  -- A container whose health check fails is stopped again, whatever comes of that.
  unfoldable pub check_or_stop : ServiceDef → Color → Text → Exec D (Unit {0})
  check_or_stop def prev_color prev d =
      let (r, checked) = poll_health sys.engine def prev_color d in
      if is_ok r
      then (ok tt, checked)
      else (err health_timeout, (stop_container sys.engine prev checked).1)

  unfoldable pub start_previous : ServiceDef → Color → Text → Exec D (Unit {0})
  unfolding check_or_stop
  start_previous def prev_color prev = do
    λ d. settle (λ code. false) (sys.engine.start_container prev d)
    check_or_stop def prev_color prev

  unfoldable pub previous_sha : Text → Text → World D → Result Text
  unfolding sha_from_image_tag
  previous_sha service prev w = elim (answered (sys.engine.inspect_container prev w.docker)) [
    | none ↦ err not_found
    | some i ↦
        if unwrap_or i.running false
        then err bad_request
        else ok (unwrap_or (sha_from_image_tag service (unwrap_or i.image [])) (codes "unknown"))
  ]

  unfoldable pub do_rollback : ServiceDef → Text → Color → Text → Text → Exec (World D) (Unit {0})
  unfolding start_previous previous_sha
  do_rollback def service prev_color prev active = do
    sha ← query (previous_sha service prev)
    on_docker (start_previous def prev_color prev)
    on_files (write_active service prev_color)
    on_files (write_active_sha service sha)
    apply_all sys
    on_docker (stop_container sys.engine active)

  -- What runs between taking and dropping the lock; the entry in the map of operations is made
  -- before the rollback and removed after it.
  unfoldable pub rollback_under_lock : Text → Exec (World D) (Unit {0})
  unfolding do_rollback
  rollback_under_lock service = do
    def ← query (load_definition sys service)
    active ← query (λ w. read_active service w.files)
    do_rollback def service (flip active) (container_name service (flip active))
        (container_name service active)

  unfoldable pub run_rollback : Text → Exec (World D) (Unit {0})
  unfolding rollback_under_lock
  run_rollback service = locked sys service (rollback_under_lock service)

-- `post_rollback` lets one rollback of a service run at a time: the services that are being rolled
-- back, with a new one, or none where it is refused.
unfoldable pub admit_rollback : Text → List Text → Option (List Text)
admit_rollback service ongoing =
    if any (λ s. s == service) ongoing then none else some (service ∷ ongoing)
