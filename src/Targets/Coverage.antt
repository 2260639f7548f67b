-- ===== src/Targets/Coverage.antt =====
-- How the proxies and Docker divide the named ports: collect_proxy_targets of tcp_proxy.rs,
-- collect_udp_targets of udp_proxy.rs and port_binding_specs of service_def.rs.
use codery.Base.{
  ◌+◌, ◌≡◌, List, [], ◌∷◌, append-nil, arith, is_some, length, retain, filter_map, flat_map,
  length-append, length-retain-append,
}
use codery.Config.{Color}
use codery.ServiceDef.{NamedPort, ServiceDef, protocol_eq}
use codery.ServiceDef.Ports.{is_relayed, named_specs}
use codery.Targets.{proxy_target, collect_proxy_targets, udp_target, collect_udp_targets}

filter_map-targets :
    (def : ServiceDef) (ps : List NamedPort)
    → length (filter_map (proxy_target def) ps) + length (filter_map (udp_target def) ps)
      ≡ length (retain (λ p. is_some p.fixed_port) ps)
unfolding proxy_target udp_target protocol_eq
filter_map-targets def [] = omega arith
filter_map-targets def (p ∷ ps) = ground (arith, filter_map-targets def ps)

-- The targets of the TCP proxy and those of the UDP relay are together as many as the named ports
-- with a fixed port.
pub length-targets :
    (defs : List ServiceDef)
    → length (collect_proxy_targets defs) + length (collect_udp_targets defs)
      ≡ length (retain (λ p. is_some p.fixed_port) (flat_map (λ def. def.ports) defs))
unfolding collect_proxy_targets collect_udp_targets
length-targets [] = omega arith
length-targets (def ∷ defs) = omega (
  arith,
  length-targets defs,
  filter_map-targets def def.ports,
  length-append (filter_map (proxy_target def) def.ports) (collect_proxy_targets defs),
  length-append (filter_map (udp_target def) def.ports) (collect_udp_targets defs),
  length-retain-append (λ p. is_some p.fixed_port) def.ports (flat_map (λ d. d.ports) defs),
)

named_specs-udp_target :
    (def : ServiceDef) (color : Color) (ps : List NamedPort)
    → length (named_specs def.port_scheme color ps) + length (filter_map (udp_target def) ps)
      ≡ length ps
unfolding named_specs is_relayed udp_target protocol_eq
named_specs-udp_target def color [] = omega arith
named_specs-udp_target def color (p ∷ ps) = ground (arith, named_specs-udp_target def color ps)

-- The named ports that Docker publishes and those that the relay serves are together as many as
-- the named ports of the service, whichever color runs.
pub named_specs-collect_udp_targets :
    (def : ServiceDef) (color : Color)
    → length (named_specs def.port_scheme color def.ports) + length (collect_udp_targets (def ∷ []))
      ≡ length def.ports
unfolding collect_udp_targets
named_specs-collect_udp_targets def color =
    rw (append-nil (filter_map (udp_target def) def.ports))
      (named_specs-udp_target def color def.ports)
