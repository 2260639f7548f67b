-- ===== src/Validate/Occupied.antt =====
-- The checks while the container of the new color still runs: validate.rs, check_deploy, which
-- start_inactive of deploy.rs runs before it removes that container.
use codery.Base.{
  ℕ, ◌+◌, ◌<◌, ◌≡◌, refl, sym, ap, ◌∙◌, ◌≢◌, Bool, true, false, false≢true, ◌||◌, some, arith, eqb,
  Text, u16_mod, any, In, ok,
}
use codery.Base.Lists.Membership.{All-In, In-map, any-In}
use codery.Config.{blue, green}
use codery.ServiceDef.{PortBindingSpec, ServiceDef}
use codery.ServiceDef.Ports.{port_binding_specs, port_mappings}
use codery.ServiceDef.Ports.Bounds.{Within, colors_disjoint}
use codery.Validate.{passed, Host, check_deploy}
use codery.Validate.Verdicts.{check_deploy_iff}

first_holds : (a b : Bool) → b ≡ false → (a || b) ≡ true → a ≡ true
first_holds true b h k = refl
first_holds false b h k = absurd (false≢true (sym h ∙ k))

-- With blue active, container ports in a span shorter than the distance of the offsets, and no
-- sum beyond 16 bits: the checks of a green deploy do not pass while one of its host ports cannot
-- be bound, whoever holds it.
pub occupied_refused :
    (fuel : ℕ) (host : Host) (def : ServiceDef) (sha : Text) (low high : ℕ) (p : PortBindingSpec)
    → Within low high def
    → high + def.port_scheme.blue_offset < low + def.port_scheme.green_offset
    → high + def.port_scheme.green_offset < u16_mod
    → host.active ≡ ok blue
    → In p (port_binding_specs def green)
    → host.can_bind p.host ≡ false
    → check_deploy fuel host def sha green ≢ some passed
unfolding port_mappings
occupied_refused fuel host def sha low high p within apart fits active m taken h =
    let (vars, vols, img, ports, udps) = (check_deploy_iff fuel host def sha green).0 h in
    let mapped : In (p.host, p.container) (port_mappings def green) =
      (In-map (λ (s : PortBindingSpec). (s.host, s.container)) (p.host, p.container)
          (port_binding_specs def green)).1
        (p, m, refl) in
    let free = All-In _ (port_mappings def green) (p.host, p.container) ports mapped in
    let shared : any (λ a. eqb a.0 p.host) (port_mappings def blue) ≡ true =
      first_holds _ _ taken (rw active at free) in
    let (a, i, e) = any-In (λ (a : ℕ × ℕ). eqb a.0 p.host) (port_mappings def blue) shared in
    let (q, j, f) =
      (In-map (λ (s : PortBindingSpec). (s.host, s.container)) a (port_binding_specs def blue)).0
        i in
    colors_disjoint def low high q p within apart fits j m
      (ground (arith, ap (λ (x : ℕ × ℕ). x.0) f))
