-- ===== src/ServiceDef.antt =====
-- system/orchestrator/src/service_def.rs: the service declarations, as the YAML reader leaves them.
-- Ports and offsets are `u16` and seconds are `u64`: natural numbers here, with the wrap-around of
-- the release build's `u16` addition written out where the code adds.
pub mod Ports
pub mod Env
pub mod Load
use codery.Base.{ℕ, Bool, true, false, Option, List, Text, Assoc}

pub record PortScheme : Type 0 where
  pub blue_offset : ℕ
  pub green_offset : ℕ

pub data PortBind : Type 0 where
  any_interface loopback tailnet : PortBind

pub data PortProtocol : Type 0 where
  tcp udp : PortProtocol

pub record NamedPort : Type 0 where
  pub name : Text
  pub container_port : ℕ
  pub subdomain : Option Text
  pub fixed_port : Option ℕ
  pub protocol : PortProtocol
  pub bind : PortBind
  -- The variable that `BasicAuth` names.
  pub auth : Option Text

pub record PortRange : Type 0 where
  pub container_start : ℕ
  pub container_end : ℕ
  pub bind : PortBind

pub record PortBindingSpec : Type 0 where
  pub host : ℕ
  pub container : ℕ
  pub bind : PortBind

pub data VolumeMount : Type 0 where
  named : Text → Text → VolumeMount
  -- The host path, the path in the container, and whether it is read only.
  bind_mount : Text → Text → Bool → VolumeMount

pub data HealthCheck : Type 0 where
  -- The named port, the timeout and the interval.
  tcp_check : Text → ℕ → ℕ → HealthCheck
  docker_check : ℕ → HealthCheck

pub record ServiceDef : Type 0 where
  pub service : Text
  pub image : Text
  pub port_scheme : PortScheme
  pub ports : List NamedPort
  pub port_range : Option PortRange
  pub volumes : List VolumeMount
  pub required_env : List Text
  -- The overrides in the order in which the hash map is walked.
  pub env_overrides : Option (Assoc Text)
  pub health_check : HealthCheck
  pub network : Text
  pub extra_hosts : List Text
  pub network_aliases : List Text
  pub allow_privilege_escalation : Bool
  pub command : Option (List Text)
  pub entrypoint : Option (List Text)
  pub user : Option Text
  pub workdir : Option Text
  pub with_init : Bool
  pub ipc : Option Text

unfoldable pub protocol_eq : PortProtocol → PortProtocol → Bool
protocol_eq tcp tcp = true
protocol_eq udp udp = true
protocol_eq tcp udp = false
protocol_eq udp tcp = false
