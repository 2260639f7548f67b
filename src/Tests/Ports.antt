-- ===== src/Tests/Ports.antt =====
-- Published ports of the service `paseo`.
use codery.Base.{ℕ, refl, ◌≢◌, ◌↔◌, ◌⊎◌, inl, inr, arith, In}
use codery.Config.{blue, green}
use codery.ServiceDef.{any_interface, PortBindingSpec, protocol_eq}
use codery.ServiceDef.Ports.{
  color_offset, host_port, is_relayed, named_specs, range_specs, port_binding_specs,
}
use codery.ServiceDef.Ports.Bounds.{Within, colors_disjoint}
use codery.ServiceDef.Ports.Published.{FromName, FromRange, published_iff}
use codery.Tests.Mock.{paseo}

abbrev pub spec : ℕ → ℕ → PortBindingSpec
spec h n = record { host = h; container = n; bind = any_interface }

pub paseo-Within : Within 3000 7681 paseo
paseo-Within = (
  ((omega arith, omega arith), ((omega arith, omega arith), ((omega arith, omega arith), tt))),
  λ r e. absurd (ground arith),
)

blue_spec : In (spec 13000 3000) (port_binding_specs paseo blue)
unfolding port_binding_specs named_specs range_specs host_port color_offset is_relayed protocol_eq
blue_spec = inl refl

pub green_spec : In (spec 27000 7000) (port_binding_specs paseo green)
unfolding port_binding_specs named_specs range_specs host_port color_offset is_relayed protocol_eq
green_spec = inr (inl refl)

colors_disjoint_example : (spec 13000 3000).host ≢ (spec 27000 7000).host
colors_disjoint_example =
    colors_disjoint paseo 3000 7681 (spec 13000 3000) (spec 27000 7000) paseo-Within (omega arith)
      (omega arith) blue_spec green_spec

published_iff_example : In (spec 13000 3000) (port_binding_specs paseo blue) ↔ (
    FromName paseo.port_scheme blue paseo.ports (spec 13000 3000)
    ⊎ FromRange paseo.port_scheme blue paseo.port_range (spec 13000 3000))
published_iff_example = published_iff paseo blue (spec 13000 3000)
