-- ===== src/Deploy/Container/Bindings.antt =====
-- Which port of the host each port of a container is bound to.
-- The binding that a spec asks for; `none`: its interface has no address.
use codery.Base.{
  ◌≡◌, refl, sym, ap, ◌∙◌, Bool, true, false, Option, none, some, List, [], ◌∷◌, if◌then◌else◌,
  map_option, Text, ◌==◌, number_text, Assoc, lookup, insert, lookup-insert, Result, ok, err,
  ok_option,
}
use codery.Deploy.Container.{port_key, build_port_bindings, bindings_from}
use codery.Docker.{PortBinding}
use codery.ServiceDef.{PortBindingSpec}
use codery.ServiceDef.Ports.{resolve}

abbrev pub binding_of : Option Text → PortBindingSpec → Option PortBinding
binding_of tailscale spec =
    map_option (λ ip. record { host_ip = ip; host_port = number_text spec.host })
      (ok_option (resolve spec.bind tailscale))

-- The binding of the last spec with a key.
unfoldable pub last_binding : Option Text → List PortBindingSpec → Text → Option PortBinding
last_binding tailscale [] key = none
last_binding tailscale (spec ∷ specs) key =
    let own = if port_key spec.container == key then binding_of tailscale spec else none in
    elim (last_binding tailscale specs key) [ some b ↦ some b | none ↦ own ]

abbrev or_else : Option PortBinding → Option PortBinding → Option PortBinding
or_else o p = elim o [ some b ↦ some b | none ↦ p ]

chosen :
    (o : Option PortBinding) (t : Bool) (x : PortBinding) (l : Option PortBinding)
    → or_else o (if t then some x else l) ≡ or_else (or_else o (if t then some x else none)) l
chosen (some b) t x l = refl
chosen none true x l = refl
chosen none false x l = refl

or_else-none : (o : Option PortBinding) → or_else o none ≡ o
or_else-none none = refl
or_else-none (some b) = refl

lookup-bindings_from :
    (tailscale : Option Text) (specs : List PortBindingSpec) (bindings m : Assoc PortBinding)
    (key : Text)
    → bindings_from tailscale specs bindings ≡ ok m
    → lookup key m
      ≡ elim (last_binding tailscale specs key) [ some b ↦ some b | none ↦ lookup key bindings ]
unfolding bindings_from last_binding
lookup-bindings_from tailscale [] bindings m key h =
    let k : bindings ≡ m = cc in ap (lookup key) (sym k)
lookup-bindings_from tailscale (spec ∷ specs) bindings m key h =
    by
      (λ ip q.
        lookup-bindings_from tailscale specs
          (insert (port_key spec.container)
            (record { host_ip = ip; host_port = number_text spec.host }) bindings)
          m key (rw q at h))
      (resolve spec.bind tailscale) refl
  where
    by :
        ((ip : Text)
          → resolve spec.bind tailscale ≡ ok ip
          → lookup key m
            ≡ or_else (last_binding tailscale specs key) (
                lookup key (
                  insert
                    (port_key spec.container)
                    (record { host_ip = ip; host_port = number_text spec.host })
                    bindings)))
        → (r : Result Text) → resolve spec.bind tailscale ≡ r
        → lookup key m ≡ elim (last_binding tailscale (spec ∷ specs) key) [
          | some b ↦ some b
          | none ↦ lookup key bindings
        ]
    by rest (err e) q = let k : err e ≡ ok m = rw q at h in cc
    by rest (ok ip) q =
        let own : PortBinding = record { host_ip = ip; host_port = number_text spec.host } in
        let asked : binding_of tailscale spec ≡ some own =
          ap
            (λ r.
              map_option (λ a. record { host_ip = a; host_port = number_text spec.host })
                (ok_option r))
            q in
        rest ip q
        ∙ ap (or_else (last_binding tailscale specs key))
            (lookup-insert (port_key spec.container) key own bindings)
        ∙ chosen (last_binding tailscale specs key) (port_key spec.container == key) own
            (lookup key bindings)
        ∙ ap
            (λ x.
              or_else
                (or_else (last_binding tailscale specs key)
                  (if port_key spec.container == key then x else none))
                (lookup key bindings))
            (sym asked)

-- Where all interfaces have an address: a container's port is bound as the last of the specs with
-- its number asks, whatever the earlier ones ask, and a port without a spec is not bound.
pub lookup-build_port_bindings :
    (tailscale : Option Text) (specs : List PortBindingSpec) (m : Assoc PortBinding) (key : Text)
    → build_port_bindings tailscale specs ≡ ok m
    → lookup key m ≡ last_binding tailscale specs key
unfolding build_port_bindings
lookup-build_port_bindings tailscale specs m key h =
    lookup-bindings_from tailscale specs [] m key h ∙ unfold lookup in or_else-none _
