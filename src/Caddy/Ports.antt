-- ===== src/Caddy/Ports.antt =====
-- The port that Caddy proxies to (caddy.rs) and the port that `diagnose` looks for (diagnose.rs).
use codery.Base.{
  ℕ, ◌+◌, ◌%◌, ◌<◌, ◌≡◌, refl, sym, ap, ◌∙◌, ◌≢◌, ◌↔◌, inl, inr, Option, none, some, arith,
  Bool-cases, Text, codes, ◌==◌, ==_iff, ==_ne, u16_mod, Assoc,
}
use codery.Caddy.{paseo_host_port, apps_host_port, color_for, route_port}
use codery.Config.{Color, blue, green}
use codery.Diagnose.{paseo_offset, route_host_port}
use codery.Routes.{UnifiedRoute}
use codery.ServiceDef.{PortScheme, ServiceDef}
use codery.ServiceDef.Ports.{color_offset, host_port}

paseo_lem : (c : Color) (n : ℕ) → (n + paseo_offset c) % u16_mod ≡ paseo_host_port c n
unfolding paseo_offset paseo_host_port
paseo_lem blue n = refl
paseo_lem green n = refl

-- For a route to another target than `apps`, the port that `diagnose` looks for is the one that
-- Caddy proxies to.
pub diagnose_mirrors :
    (load_def : Text → Option ServiceDef) (colors : Assoc Color) (r : UnifiedRoute)
    → r.target ≢ codes "apps"
    → route_host_port load_def r.target r.port (color_for colors r.target)
      ≡ route_port load_def colors r
unfolding route_host_port route_port
diagnose_mirrors load_def colors r h = elim (Bool-cases (r.target == codes "host")) [
  | inl e ↦ rw e
  | inr e ↦ rw e (elim (Bool-cases (r.target == codes "paseo")) [
    | inl f ↦ rw f (
        paseo_lem (color_for colors r.target) r.port
        ∙ ap (λ t. paseo_host_port (color_for colors t) r.port) ((==_iff r.target _).0 f))
    | inr f ↦ rw (f, ==_ne r.target (codes "apps") h) (joined (load_def r.target))
  ])
]
  where
    joined :
        (o : Option ServiceDef)
        → elim o as (λ x. ℕ) [
          | some def ↦ host_port def.port_scheme (color_for colors r.target) r.port
          | none ↦ r.port
        ]
          ≡ elim o as (λ x. ℕ) [
            | none ↦ r.port
            | some def ↦ host_port def.port_scheme (color_for colors r.target) r.port
          ]
    joined none = refl
    joined (some def) = refl

-- The offset of `apps` that Caddy has built in.
pub built_in_offset : Color → ℕ
built_in_offset blue = 0
built_in_offset green = 10000

-- Two offsets of 16 bits give one port of 16 bits only if they are the same.
offset_iff :
    (n a b : ℕ)
    → n < u16_mod
    → a < u16_mod
    → b < u16_mod
    → ((n + a) % u16_mod ≡ (n + b) % u16_mod) ↔ (a ≡ b)
offset_iff n a b hn ha hb = (λ e. omega arith, λ e. omega arith)

port_iff :
    (s : PortScheme) (c : Color) (n : ℕ)
    → n < u16_mod
    → color_offset s c < u16_mod
    → (host_port s c n ≡ apps_host_port c n) ↔ (color_offset s c ≡ built_in_offset c)
unfolding host_port apps_host_port built_in_offset
port_iff s blue n p o = offset_iff n (color_offset s blue) 0 p o (omega arith)
port_iff s green n p o = offset_iff n (color_offset s green) 10000 p o (omega arith)

looked_for :
    (load_def : Text → Option ServiceDef) (def : ServiceDef) (n : ℕ) (c : Color)
    → load_def (codes "apps") ≡ some def
    → route_host_port load_def (codes "apps") n c ≡ host_port def.port_scheme c n
unfolding route_host_port ◌==◌
looked_for load_def def n c l = rw l refl

proxied_to :
    (load_def : Text → Option ServiceDef) (colors : Assoc Color) (r : UnifiedRoute)
    → r.target ≡ codes "apps"
    → route_port load_def colors r ≡ apps_host_port (color_for colors (codes "apps")) r.port
unfolding route_port ◌==◌
proxied_to load_def colors r t = rw t refl

-- For a route to `apps` whose definition can be read, with ports and offsets of 16 bits: `diagnose`
-- looks for the port that Caddy proxies to exactly if the definition gives the recorded color the
-- offset that Caddy has built in, 0 for blue and 10000 for green.
pub diagnose_mirrors_apps_iff :
    (load_def : Text → Option ServiceDef) (colors : Assoc Color) (r : UnifiedRoute)
    (def : ServiceDef)
    → r.target ≡ codes "apps"
    → load_def (codes "apps") ≡ some def
    → r.port < u16_mod
    → color_offset def.port_scheme (color_for colors r.target) < u16_mod
    → (route_host_port load_def r.target r.port (color_for colors r.target)
        ≡ route_port load_def colors r)
      ↔ (color_offset def.port_scheme (color_for colors r.target)
          ≡ built_in_offset (color_for colors r.target))
diagnose_mirrors_apps_iff load_def colors r def t l p o =
    let color = color_for colors r.target in
    let looked : route_host_port load_def r.target r.port color
        ≡ host_port def.port_scheme color r.port =
      ap (λ x. route_host_port load_def x r.port color) t
      ∙ looked_for load_def def r.port color l in
    let proxied : route_port load_def colors r ≡ apps_host_port color r.port =
      proxied_to load_def colors r t
      ∙ ap (λ x. apps_host_port (color_for colors x) r.port) (sym t) in
    let (same, back) = port_iff def.port_scheme color r.port p o in
    (λ e. same (sym looked ∙ e ∙ proxied), λ e. looked ∙ back e ∙ sym proxied)
