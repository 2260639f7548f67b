-- ===== src/Validate/Verdicts.antt =====
-- When the checks before a deploy pass: validate.rs, check_deploy.
use codery.ServiceDef.Env.{image_ref as service_image}
use codery.Base.{
  ℕ, ◌≡◌, refl, sym, ap, ◌∙◌, ◌↔◌, true, ◌||◌, Option, none, some, List, [], ◌++◌, eqb, is_some,
  unwrap_or, Text, any, flat_map, All, lookup, ok, unwrap_or_else,
}
use codery.Config.{Color, blue}
use codery.ServiceDef.{ServiceDef}
use codery.ServiceDef.Ports.{port_mappings}
use codery.Validate.{
  Problem, passed, variable_problems, bind_problems, volume_problems, image_problems, port_problems,
  udp_problem, verdict, Host, check_deploy,
}
use codery.Validate.Parts.{
  VolumeReady, PortSane, append-empty, verdict-passed, variables_iff, image_iff, ports_iff, udp_iff,
  volumes_iff,
}

some_inj : {A : Type 0} (a b : A) → some a ≡ some b → a ≡ b
some_inj a b h = ap (λ o. unwrap_or o a) h

joined_iff :
    (vars paths vols img ports udps : List Problem)
    → (verdict (vars ++ (paths ++ (vols ++ (img ++ (ports ++ udps))))) ≡ passed)
      ↔ ((vars ≡ []) × (paths ≡ []) × (vols ≡ []) × (img ≡ []) × (ports ≡ []) × (udps ≡ []))
joined_iff vars paths vols img ports udps = (
  λ h.
      let (a, h1) = (append-empty vars _).0 ((verdict-passed _).0 h) in
      let (b, h2) = (append-empty paths _).0 h1 in
      let (c, h3) = (append-empty vols _).0 h2 in
      let (d, h4) = (append-empty img _).0 h3 in
      let (e, f) = (append-empty ports udps).0 h4 in (a, b, c, d, e, f),
  λ (a, b, c, d, e, f). (verdict-passed _).1 (
      (append-empty vars _).1 (
        a,
        (append-empty paths _).1 (
          b,
          (append-empty vols _).1
              (c, (append-empty img _).1 (d, (append-empty ports udps).1 (e, f))),
        ),
      )),
)

-- The checks pass exactly if every required variable is set, every bind mount's path is resolved and
-- there, every named volume is there or can be made, the image is there or can be pulled, each host
-- port of the new color is one of the active color or can be bound, and every UDP port has a fixed
-- port and no subdomain.
pub check_deploy_iff :
    (fuel : ℕ) (host : Host) (def : ServiceDef) (sha : Text) (inactive : Color)
    → (check_deploy fuel host def sha inactive ≡ some passed) ↔ (
        All (λ k. is_some (lookup k host.env) ≡ true) def.required_env
        × All (VolumeReady fuel host) def.volumes
        × (host.pull_if_missing (service_image def sha) ≡ ok tt)
        × All
            (λ m.
              (any (λ a. eqb a.0 m.0) (port_mappings def (unwrap_or_else host.active blue))
                || host.can_bind m.0)
              ≡ true)
            (port_mappings def inactive)
        × All PortSane def.ports)
unfolding check_deploy
check_deploy_iff fuel host def sha inactive =
    by_paths (bind_problems fuel host.env host.path_exists def.volumes) refl
  where
    active_ports : List (ℕ × ℕ)
    active_ports = port_mappings def (unwrap_or_else host.active blue)

    by_paths :
        (o : Option (List Problem))
        → bind_problems fuel host.env host.path_exists def.volumes ≡ o
        → (check_deploy fuel host def sha inactive ≡ some passed) ↔ (
            All (λ k. is_some (lookup k host.env) ≡ true) def.required_env
            × All (VolumeReady fuel host) def.volumes
            × (host.pull_if_missing (service_image def sha) ≡ ok tt)
            × All
                (λ m. (any (λ a. eqb a.0 m.0) active_ports || host.can_bind m.0) ≡ true)
                (port_mappings def inactive)
            × All PortSane def.ports)
    by_paths none e = (
      λ h. let k = rw (e, check_deploy) at h in absurd cc,
      λ (a, b, c, d, f). let (p, q) = (volumes_iff fuel host def.volumes).1 b in absurd cc,
    )
    by_paths (some paths) e =
        let all =
          joined_iff (variable_problems host.env def.required_env) paths
            (volume_problems host.ensure_volume def.volumes)
            (image_problems (host.pull_if_missing (service_image def sha)))
            (port_problems host.can_bind active_ports (port_mappings def inactive))
            (flat_map udp_problem def.ports) in
        (
          λ h.
              let k = rw (e, check_deploy) at h in
              let (a, b, c, d, f, g) = all.0 (some_inj _ _ k) in
              (
                (variables_iff host.env def.required_env).0 a,
                (volumes_iff fuel host def.volumes).0 (e ∙ ap some b, c),
                (image_iff (host.pull_if_missing (service_image def sha))).0 d,
                (ports_iff host.can_bind active_ports (port_mappings def inactive)).0 f,
                (udp_iff def.ports).0 g,
              ),
          λ (a, b, c, d, f).
              let (p, q) = (volumes_iff fuel host def.volumes).1 b in
              let none_left : paths ≡ [] = some_inj _ _ (sym e ∙ p) in
              rw (e, check_deploy)
                (ap some (
                  all.1 (
                    (variables_iff host.env def.required_env).1 a,
                    none_left,
                    q,
                    (image_iff (host.pull_if_missing (service_image def sha))).1 c,
                    (ports_iff host.can_bind active_ports (port_mappings def inactive)).1 d,
                    (udp_iff def.ports).1 f,
                  ))),
        )
