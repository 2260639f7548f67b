-- ===== src/Targets.antt =====
-- system/orchestrator/src/tcp_proxy.rs and udp_proxy.rs: which fixed ports the two proxies serve, and
-- which port of the active container a TCP connection is led to.
pub mod Coverage
use codery.Base.{
  ℕ, Option, none, List, if◌then◌else◌, map_option, Text, filter_map, flat_map, Result, ok,
  bind_result,
}
use codery.Config.{Color}
use codery.ServiceDef.{PortScheme, PortBind, udp, NamedPort, ServiceDef, protocol_eq}
use codery.ServiceDef.Ports.{host_port}

pub record ProxyTarget : Type 0 where
  pub service : Text
  pub fixed_port : ℕ
  pub container_port : ℕ
  pub scheme : PortScheme
  pub bind : PortBind

pub record UdpTarget : Type 0 where
  pub service : Text
  pub network : Text
  pub fixed_port : ℕ
  pub container_port : ℕ
  pub bind : PortBind

unfoldable pub proxy_target : ServiceDef → NamedPort → Option ProxyTarget
unfolding protocol_eq
proxy_target def port =
    if protocol_eq port.protocol udp
    then none
    else map_option
        (λ fixed. record {
          service = def.service;
          fixed_port = fixed;
          container_port = port.container_port;
          scheme = def.port_scheme;
          bind = port.bind;
        })
        port.fixed_port

unfoldable pub collect_proxy_targets : List ServiceDef → List ProxyTarget
unfolding proxy_target
collect_proxy_targets defs = flat_map (λ def. filter_map (proxy_target def) def.ports) defs

unfoldable pub udp_target : ServiceDef → NamedPort → Option UdpTarget
unfolding protocol_eq
udp_target def port =
    if protocol_eq port.protocol udp
    then map_option
        (λ fixed. record {
          service = def.service;
          network = def.network;
          fixed_port = fixed;
          container_port = port.container_port;
          bind = port.bind;
        })
        port.fixed_port
    else none

unfoldable pub collect_udp_targets : List ServiceDef → List UdpTarget
unfolding udp_target
collect_udp_targets defs = flat_map (λ def. filter_map (udp_target def) def.ports) defs

-- The host port that `proxy_connection` connects to; the first argument is what `read_active` gives.
unfoldable pub connect_port : Result Color → ProxyTarget → Result ℕ
connect_port active target =
    bind_result active (λ color. ok (host_port target.scheme color target.container_port))
