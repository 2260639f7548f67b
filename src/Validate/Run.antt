-- ===== src/Validate/Run.antt =====
-- validate.rs, check_deploy as it runs: missing volumes are made and the image is pulled on the way,
-- and every problem is collected.
use codery.ServiceDef.Env.{image_ref as service_image}
use Prim.Native.Char.{code}
use codery.Base.{
  Option, none, some, List, [], ◌∷◌, ◌++◌, eqb, if◌then◌else◌, map_option, Text, flat_map,
  docker_error, out_of_fuel, validation_failed, Result, ok, err, unwrap_or_else, Exec,
}
use codery.Config.{env_file, Color, blue}
use codery.Docker.{answer, server_error, other_error, Engine, to_result}
use codery.Files.{exists}
use codery.Images.Pull.{pull_if_missing}
use codery.ServiceDef.{VolumeMount, named, bind_mount, ServiceDef}
use codery.ServiceDef.Ports.{port_mappings}
use codery.State.{read_active}
use codery.Validate.{
  failed, Problem, no_volume, Verdict, passed, load_env_map, variable_problems, bind_problems,
  image_problems, port_problems, udp_problem, verdict,
}
use codery.World.{World, System, file_text}

unfoldable pub ensure_named_volume : {D : Type 0} → Engine D → Text → Exec D (Unit {0})
ensure_named_volume eng name d = elim (eng.inspect_volume name d) [
  | answer u ↦ (ok tt, d)
  | server_error code ↦
      let (r, after) = eng.create_volume name d in
      if eqb code 404 then (to_result r, after) else (err docker_error, d)
  | other_error ↦ (err docker_error, d)
]

volume_problem : Text → Result (Unit {0}) → List Problem → List Problem
volume_problem name (ok u) problems = problems
volume_problem name (err e) problems = no_volume name e ∷ problems

module _ {D : Type 0} (sys : System D) where
  unfoldable pub ensure_volumes : List VolumeMount → D → List Problem × D
  unfolding ensure_named_volume volume_problem
  ensure_volumes [] d = ([], d)
  ensure_volumes (bind_mount host container readonly ∷ vs) d = ensure_volumes vs d
  ensure_volumes (named name container ∷ vs) d =
      let (r, after) = ensure_named_volume sys.engine name d in
      let (problems, last) = ensure_volumes vs after in (volume_problem name r problems, last)

  conclude : Option Verdict → Result (Unit {0})
  conclude none = err out_of_fuel
  conclude (some passed) = ok tt
  conclude (some (failed problems)) = err validation_failed

  -- The problems of the variables and the paths come first, and those of the ports last.
  unfoldable pub collected : World D → ServiceDef → Text → Color → List Problem → Option Verdict
  collected w def sha inactive docker_problems =
      map_option
        (λ paths. verdict (
          variable_problems (load_env_map (file_text w.files env_file)) def.required_env
          ++ (paths
              ++ (docker_problems
                  ++ (port_problems sys.can_bind
                        (port_mappings def (unwrap_or_else (read_active def.service w.files) blue))
                        (port_mappings def inactive)
                      ++ flat_map udp_problem def.ports)))))
        (bind_problems sys.rounds (load_env_map (file_text w.files env_file)) (exists w.files)
          def.volumes)

  unfoldable pub run_check_deploy : ServiceDef → Text → Color → Exec (World D) (Unit {0})
  unfolding ensure_volumes conclude collected
  run_check_deploy def sha inactive w =
      let (volumes, made) = ensure_volumes def.volumes w.docker in
      let (pulled, after) =
        pull_if_missing sys.engine (file_text w.files env_file) (service_image def sha) made in
      (
        conclude (collected w def sha inactive (volumes ++ image_problems pulled)),
        record w { docker = after },
      )
