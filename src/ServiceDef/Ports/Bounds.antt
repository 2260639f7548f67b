-- ===== src/ServiceDef/Ports/Bounds.antt =====
-- The host ports of a service: their formula, their number, and when they do not collide.
use codery.Base.{
  ℕ, zero, suc, ◌+◌, ◌-◌, ◌≤◌, ◌<◌, mod-eq_of_lt, ◌≡◌, refl, ◌≢◌, ◌↔◌, inl, inr, Option, none, some,
  List, [], ◌∷◌, map, arith, Bool-cases, u16_mod, All, In,
}
use codery.Base.Lists.Membership.{All-In, All-append}
use codery.Config.{Color, blue, green}
use codery.ServiceDef.{PortScheme, PortBind, NamedPort, PortRange, PortBindingSpec, ServiceDef}
use codery.ServiceDef.Ports.{
  color_offset, host_port, range_inclusive, is_relayed, named_specs, range_specs,
  port_binding_specs, counting,
}
use native.Mathlib.Decide.{dec_lt}

In-counting : (c n a : ℕ) → In a (counting c n) ↔ ((c ≤ a) × (a < c + n))
unfolding counting
In-counting c zero a = (λ h. absurd h, λ h. absurd (omega arith))
In-counting c (suc n) a = (
  λ h. elim h [
    | inl e ↦ (omega arith, omega arith)
    | inr later ↦ let k = (In-counting (c + 1) n a).0 later in (omega arith, omega arith)
  ],
  λ h. elim (dec_lt c a) [
    | yes below ↦ inr ((In-counting (c + 1) n a).1 (omega arith, omega arith))
    | no same ↦ inl (omega arith)
  ],
)

pub In-range_inclusive : (s e a : ℕ) → In a (range_inclusive s e) ↔ ((s ≤ a) × (a ≤ e))
unfolding range_inclusive
In-range_inclusive s e a = (
  λ h. let k = (In-counting s (e + 1 - s) a).0 h in (omega arith, omega arith),
  λ h. (In-counting s (e + 1 - s) a).1 (omega arith, omega arith),
)

-- The host port of a container port, whether or not the sum leaves `u16`.
host_port-no_wrap :
    (s : PortScheme) (color : Color) (c : ℕ)
    → c + color_offset s color < u16_mod
    → host_port s color c ≡ c + color_offset s color
unfolding host_port
host_port-no_wrap s color c h = mod-eq_of_lt h

-- The specs in a list lie in a range of container ports and have the host ports of the scheme.
abbrev IsScheme : PortScheme → Color → ℕ → ℕ → PortBindingSpec → Type 0
IsScheme s color low high p =
    (low ≤ p.container) × (p.container ≤ high) × (p.host ≡ host_port s color p.container)

named_specs-IsScheme :
    (s : PortScheme) (color : Color) (low high : ℕ) (ps : List NamedPort)
    → All (λ p. (low ≤ p.container_port) × (p.container_port ≤ high)) ps
    → All (IsScheme s color low high) (named_specs s color ps)
unfolding named_specs
named_specs-IsScheme s color low high [] h = tt
named_specs-IsScheme s color low high (p ∷ ps) (h, hs) = elim (Bool-cases (is_relayed p)) [
  | inl e ↦ rw e (named_specs-IsScheme s color low high ps hs)
  | inr e ↦ rw e ((h.0, h.1, refl), named_specs-IsScheme s color low high ps hs)
]

range_specs-IsScheme :
    (s : PortScheme) (color : Color) (low high : ℕ) (cs : List ℕ) (b : PortBind)
    → ((c : ℕ) → In c cs → (low ≤ c) × (c ≤ high))
    → All
        (IsScheme s color low high)
        (map (λ c. record { host = host_port s color c; container = c; bind = b }) cs)
range_specs-IsScheme s color low high [] b h = tt
range_specs-IsScheme s color low high (c ∷ cs) b h = (
  ((h c (inl refl)).0, (h c (inl refl)).1, refl),
  range_specs-IsScheme s color low high cs b (λ d m. h d (inr m)),
)

-- Every container port that the definition names lies between two bounds.
abbrev pub Within : ℕ → ℕ → ServiceDef → Type 0
Within low high def =
    All (λ p. (low ≤ p.container_port) × (p.container_port ≤ high)) def.ports
    × ((r : PortRange)
        → def.port_range ≡ some r
        → (low ≤ r.container_start) × (r.container_end ≤ high))

specs-IsScheme :
    (def : ServiceDef) (color : Color) (low high : ℕ)
    → Within low high def
    → All (IsScheme def.port_scheme color low high) (port_binding_specs def color)
unfolding port_binding_specs range_specs
specs-IsScheme def color low high (hp, hr) =
    All-append _ (named_specs def.port_scheme color def.ports) _
      (named_specs-IsScheme def.port_scheme color low high def.ports hp) (go def.port_range hr)
  where
    go :
        (o : Option PortRange)
        → ((r : PortRange) → o ≡ some r → (low ≤ r.container_start) × (r.container_end ≤ high))
        → All (IsScheme def.port_scheme color low high) (range_specs def.port_scheme color o)
    go none k = tt
    go (some r) k = range_specs-IsScheme def.port_scheme color low high _ r.bind λ c m.
        let i = (In-range_inclusive r.container_start r.container_end c).0 m in
        let j = k r refl in (omega arith, omega arith)

-- Where the container ports lie in a span that is shorter than the distance of the offsets, and
-- no sum leaves 16 bits, no host port of the blue container is one of the green container.
pub colors_disjoint :
    (def : ServiceDef) (low high : ℕ) (p q : PortBindingSpec)
    → Within low high def
    → high + def.port_scheme.blue_offset < low + def.port_scheme.green_offset
    → high + def.port_scheme.green_offset < u16_mod
    → In p (port_binding_specs def blue)
    → In q (port_binding_specs def green)
    → p.host ≢ q.host
unfolding color_offset
colors_disjoint def low high p q within apart fits mp mq e =
    let hp = All-In _ _ p (specs-IsScheme def blue low high within) mp in
    let hq = All-In _ _ q (specs-IsScheme def green low high within) mq in
    absurd (
      omega (
        arith,
        host_port-no_wrap def.port_scheme blue p.container (omega arith),
        host_port-no_wrap def.port_scheme green q.container (omega arith),
      ))
