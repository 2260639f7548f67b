-- ===== src/ServiceDef/Ports.antt =====
-- service_def.rs: the ports that a service publishes on the host, for each color.
pub mod Bounds
pub mod Published
use codery.Base.{
  ℕ, zero, suc, ◌+◌, ◌-◌, ◌%◌, Bool, not, ◌&&◌, Option, none, some, List, [], ◌∷◌, ◌++◌, map,
  if◌then◌else◌, is_some, map_option, filter_option, Text, codes, ◌==◌, trim, u16_mod, find_first,
  is_empty, port_not_found, no_tailscale_ip, Result, ok, bind_result, ok_or,
}
use codery.Config.{Color, blue, green}
use codery.ServiceDef.{
  PortScheme, PortBind, any_interface, loopback, tailnet, udp, NamedPort, PortRange,
  PortBindingSpec, tcp_check, docker_check, ServiceDef, protocol_eq,
}

unfoldable pub color_offset : PortScheme → Color → ℕ
color_offset s blue = s.blue_offset
color_offset s green = s.green_offset

unfoldable pub host_port : PortScheme → Color → ℕ → ℕ
unfolding color_offset
host_port s color container_port = (container_port + color_offset s color) % u16_mod

-- `/run/tailscale.ip` is the second argument: `none` where it cannot be read.
unfoldable pub resolve : PortBind → Option Text → Result Text
resolve any_interface file = ok (codes "0.0.0.0")
resolve loopback file = ok (codes "127.0.0.1")
resolve tailnet file =
    ok_or (filter_option (λ s. not (is_empty s)) (map_option trim file)) no_tailscale_ip

-- `start..=stop`, for `n` values.
counting : ℕ → ℕ → List ℕ
counting c zero = []
counting c (suc n) = c ∷ counting (c + 1) n

unfoldable pub range_inclusive : ℕ → ℕ → List ℕ
unfolding counting
range_inclusive start stop = counting start (stop + 1 - start)

-- The relay serves a UDP port with a fixed port; Docker does not publish it.
unfoldable pub is_relayed : NamedPort → Bool
unfolding protocol_eq
is_relayed p = protocol_eq p.protocol udp && is_some p.fixed_port

unfoldable pub named_specs : PortScheme → Color → List NamedPort → List PortBindingSpec
unfolding is_relayed
named_specs scheme color [] = []
named_specs scheme color (p ∷ ps) =
    let rest = named_specs scheme color ps in
    if is_relayed p
    then rest
    else record {
      host = host_port scheme color p.container_port;
      container = p.container_port;
      bind = p.bind;
    }
      ∷ rest

unfoldable pub range_specs : PortScheme → Color → Option PortRange → List PortBindingSpec
range_specs scheme color none = []
range_specs scheme color (some r) =
    map (λ c. record { host = host_port scheme color c; container = c; bind = r.bind })
      (range_inclusive r.container_start r.container_end)

unfoldable pub port_binding_specs : ServiceDef → Color → List PortBindingSpec
unfolding named_specs range_specs host_port
port_binding_specs def color =
    named_specs def.port_scheme color def.ports ++ range_specs def.port_scheme color def.port_range

unfoldable pub port_mappings : ServiceDef → Color → List (ℕ × ℕ)
unfolding port_binding_specs
port_mappings def color = map (λ s. (s.host, s.container)) (port_binding_specs def color)

unfoldable pub health_port : ServiceDef → Color → Result ℕ
health_port def color = elim def.health_check [
  | tcp_check name timeout interval ↦
      bind_result (ok_or (find_first (λ p. p.name == name) def.ports) port_not_found)
        (λ p. ok (host_port def.port_scheme color p.container_port))
  | docker_check timeout ↦ ok 0
]

unfoldable pub health_container_port : ServiceDef → Result ℕ
health_container_port def = elim def.health_check [
  | tcp_check name timeout interval ↦
      bind_result (ok_or (find_first (λ p. p.name == name) def.ports) port_not_found)
        (λ p. ok p.container_port)
  | docker_check timeout ↦ ok 0
]
