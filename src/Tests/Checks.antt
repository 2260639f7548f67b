-- ===== src/Tests/Checks.antt =====
-- The checks before a deploy of `paseo`.
use codery.ServiceDef.Env.{image_ref as service_image}
use codery.Base.{
  ◌≡◌, refl, ◌≢◌, ◌↔◌, true, not, ◌||◌, some, [], arith, eqb, is_some, codes, any, All, lookup, ok,
  unwrap_or_else,
}
use codery.Config.{blue, green}
use codery.ServiceDef.{protocol_eq}
use codery.ServiceDef.Ports.{port_mappings}
use codery.Tests.Mock.{paseo}
use codery.Tests.Ports.{spec, paseo-Within, green_spec}
use codery.Validate.{
  passed, variable_problems, bind_problems, volume_problems, image_problems, port_problems,
  udp_problem, verdict, Host, check_deploy,
}
use codery.Validate.Occupied.{occupied_refused}
use codery.Validate.Parts.{VolumeReady, PortSane}
use codery.Validate.Verdicts.{check_deploy_iff}

abbrev free_host : Host
free_host = record {
  env = [];
  path_exists = λ p. true;
  ensure_volume = λ v. ok tt;
  pull_if_missing = λ i. ok tt;
  active = ok blue;
  can_bind = λ n. true;
}

check_deploy_iff_example : (check_deploy 0 free_host paseo (codes "new") green ≡ some passed) ↔ (
    All (λ k. is_some (lookup k free_host.env) ≡ true) paseo.required_env
    × All (VolumeReady 0 free_host) paseo.volumes
    × (free_host.pull_if_missing (service_image paseo (codes "new")) ≡ ok tt)
    × All
        (λ m.
          (any (λ a. eqb a.0 m.0) (port_mappings paseo (unwrap_or_else free_host.active blue))
            || free_host.can_bind m.0)
          ≡ true)
        (port_mappings paseo green)
    × All PortSane paseo.ports)
check_deploy_iff_example = check_deploy_iff 0 free_host paseo (codes "new") green

-- The old green container still has the port of `vscode`.
abbrev busy_host : Host
busy_host = record free_host { can_bind = λ n. not (eqb n 27000) }

occupied_refused_example : check_deploy 0 busy_host paseo (codes "new") green ≢ some passed
occupied_refused_example =
    occupied_refused 0 busy_host paseo (codes "new") 3000 7681 (spec 27000 7000) paseo-Within
      (omega arith) (omega arith) refl green_spec refl

paseo_checks : check_deploy 0 free_host paseo (codes "new") green ≡ some passed
unfolding check_deploy variable_problems bind_problems volume_problems image_problems port_problems
    udp_problem protocol_eq verdict port_mappings
paseo_checks = refl
