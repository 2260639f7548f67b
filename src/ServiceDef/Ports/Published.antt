-- ===== src/ServiceDef/Ports/Published.antt =====
-- Which ports Docker publishes for a service, exactly.
use codery.Base.{
  ℕ, ◌≤◌, ◌≡◌, refl, sym, ap, ◌∙◌, ◌↔◌, ◌⊎◌, inl, inr, false, false≢true, Option, none, some, List,
  [], ◌∷◌, Bool-cases, In,
}
use codery.Base.Lists.Membership.{In-append, In-map}
use codery.Config.{Color}
use codery.ServiceDef.{PortScheme, PortBind, NamedPort, PortRange, PortBindingSpec, ServiceDef}
use codery.ServiceDef.Ports.{
  host_port, range_inclusive, is_relayed, named_specs, range_specs, port_binding_specs,
}
use codery.ServiceDef.Ports.Bounds.{In-range_inclusive}

abbrev spec_of : PortScheme → Color → ℕ → PortBind → PortBindingSpec
spec_of s color c b = record { host = host_port s color c; container = c; bind = b }

-- The spec of a named port that no relay serves.
abbrev pub FromName : PortScheme → Color → List NamedPort → PortBindingSpec → Type 0
FromName s color ps spec =
    (p : NamedPort) × In p ps
    × (is_relayed p ≡ false)
    × (spec_of s color p.container_port p.bind ≡ spec)

-- The spec of a port of the bulk range, its upper bound included.
abbrev pub FromRange : PortScheme → Color → Option PortRange → PortBindingSpec → Type 0
FromRange s color o spec =
    (r : PortRange) × (c : ℕ) × (o ≡ some r)
    × (r.container_start ≤ c)
    × (c ≤ r.container_end)
    × (spec_of s color c r.bind ≡ spec)

named_specs_iff :
    (s : PortScheme) (color : Color) (ps : List NamedPort) (spec : PortBindingSpec)
    → In spec (named_specs s color ps) ↔ FromName s color ps spec
unfolding named_specs
named_specs_iff s color [] spec = (λ m. absurd m, λ m. m.1)
named_specs_iff s color (p ∷ ps) spec = elim (Bool-cases (is_relayed p)) [
  | inl e ↦ rw e (
    λ m. let (q, i, r, h) = (named_specs_iff s color ps spec).0 m in (q, inr i, r, h),
    λ (q, i, r, h). elim i [
      | inl x ↦ absurd (false≢true (sym r ∙ ap is_relayed (sym x) ∙ e))
      | inr j ↦ (named_specs_iff s color ps spec).1 (q, j, r, h)
    ],
  )
  | inr e ↦ rw e (
    λ m. elim m [
      | inl h ↦ (p, inl refl, e, h)
      | inr k ↦ let (q, i, r, h) = (named_specs_iff s color ps spec).0 k in (q, inr i, r, h)
    ],
    λ (q, i, r, h). elim i [
      | inl x ↦ inl (ap (λ (n : NamedPort). spec_of s color n.container_port n.bind) x ∙ h)
      | inr j ↦ inr ((named_specs_iff s color ps spec).1 (q, j, r, h))
    ],
  )
]

range_specs_iff :
    (s : PortScheme) (color : Color) (o : Option PortRange) (spec : PortBindingSpec)
    → In spec (range_specs s color o) ↔ FromRange s color o spec
unfolding range_specs
range_specs_iff s color none spec = (λ m. absurd m, λ (r, c, e, low, high, h). cc)
range_specs_iff s color (some r) spec = (
  λ m.
      let (c, i, h) = (In-map _ spec (range_inclusive r.container_start r.container_end)).0 m in
      let k = (In-range_inclusive r.container_start r.container_end c).0 i in
      (r, c, refl, k.0, k.1, h),
  λ (q, c, e, low, high, h).
      let x : r ≡ q = cc in
      (In-map _ spec (range_inclusive r.container_start r.container_end)).1 (
        c,
        (In-range_inclusive r.container_start r.container_end c).1 (rw x low, rw x high),
        rw x h,
      ),
)

-- A host port is published exactly for the named ports that no relay serves and for each port of
-- the range, with the scheme's host port and the declared interface, and for nothing else.
pub published_iff :
    (def : ServiceDef) (color : Color) (spec : PortBindingSpec)
    → In spec (port_binding_specs def color) ↔ (
        FromName def.port_scheme color def.ports spec
        ⊎ FromRange def.port_scheme color def.port_range spec)
unfolding port_binding_specs
published_iff def color spec = (
  λ m. elim ((In-append spec (named_specs def.port_scheme color def.ports) _).0 m) [
    | inl i ↦ inl ((named_specs_iff def.port_scheme color def.ports spec).0 i)
    | inr i ↦ inr ((range_specs_iff def.port_scheme color def.port_range spec).0 i)
  ],
  λ m. (In-append spec (named_specs def.port_scheme color def.ports) _).1 (elim m [
    | inl i ↦ inl ((named_specs_iff def.port_scheme color def.ports spec).1 i)
    | inr i ↦ inr ((range_specs_iff def.port_scheme color def.port_range spec).1 i)
  ]),
)
