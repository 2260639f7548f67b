-- ===== src/Routes/Precedence.antt =====
-- Which route a subdomain has.
use codery.Base.{
  ◌≡◌, refl, sym, ap, ◌∙◌, subst, ◌↔◌, inl, inr, Option, none, some, List, [], ◌∷◌, map, arith,
  if◌then◌else◌, Bool-cases, Option-cases, unwrap_or, and_then, Text, ◌==◌, ==_iff, All, In, lookup,
  insert, or_insert, lookup-insert, lookup-or_insert, Result, unwrap_or_else,
}
use codery.Base.Lists.Membership.{All-In, In-map}
use codery.Base.Lists.Sorted.{Distinct, In-sort_by}
use codery.Base.Maps.Keys.{
  key_of, insert-All, or_insert-All, insert-Distinct, or_insert-Distinct, lookup-In, In-lookup,
}
use codery.Db.{Tables, list_apps, list_previews}
use codery.Routes.{
  StaticRoute, UnifiedRoute, default_static_routes, RouteMap, service_route, add_port, add_ports,
  add_services, static_route, app_route, preview_route, add_routes, route_map, build_route_map,
}
use codery.ServiceDef.{udp, NamedPort, ServiceDef, protocol_eq}

abbrev pub or_else : {A : Type 0} → Option A → Option A → Option A
or_else (some a) o = some a
or_else none o = o

-- The last route of a list that has the subdomain.
unfoldable pub last_with : Text → List UnifiedRoute → Option UnifiedRoute
last_with s [] = none
last_with s (r ∷ rs) = or_else (last_with s rs) (if r.subdomain == s then some r else none)

-- The route of a port for the subdomain: TCP ports that ask for it only.
unfoldable pub port_with : Text → ServiceDef → NamedPort → Option UnifiedRoute
port_with s def p =
    if protocol_eq p.protocol udp
    then none
    else and_then p.subdomain λ d. if d == s then some (service_route def p d) else none

-- The first port that asks for the subdomain, over a service and over all services.
unfoldable pub first_port : Text → ServiceDef → List NamedPort → Option UnifiedRoute
first_port s def [] = none
first_port s def (p ∷ ps) = or_else (port_with s def p) (first_port s def ps)

unfoldable pub first_service : Text → List ServiceDef → Option UnifiedRoute
first_service s [] = none
first_service s (def ∷ defs) = or_else (first_port s def def.ports) (first_service s defs)

-- A preview before an app, an app before a static route, and a static route before a service.
unfoldable pub route_of : Text → List ServiceDef → List StaticRoute → Tables → Option UnifiedRoute
route_of s defs statics t = or_else (last_with s (map preview_route (list_previews t))) (
    or_else (last_with s (map app_route (list_apps t)))
      (or_else (last_with s (map static_route statics)) (first_service s defs)))

lookup-add_routes :
    (s : Text) (rs : List UnifiedRoute) (m : RouteMap)
    → lookup s (add_routes rs m) ≡ or_else (last_with s rs) (lookup s m)
unfolding add_routes last_with
lookup-add_routes s [] m = refl
lookup-add_routes s (r ∷ rs) m =
    lookup-add_routes s rs (insert r.subdomain r m)
    ∙ rw (lookup-insert r.subdomain s r m) (ground arith)

or_else-none : {A : Type 0} (o : Option A) → or_else o none ≡ o
or_else-none none = refl
or_else-none (some a) = refl

or_else_assoc : {A : Type 0} (o p q : Option A) → or_else (or_else o p) q ≡ or_else o (or_else p q)
or_else_assoc none p q = refl
or_else_assoc (some a) p q = refl

lookup-first_come :
    (s d : Text) (v : UnifiedRoute) (m : RouteMap)
    → lookup s (or_insert d v m) ≡ or_else (lookup s m) (if d == s then some v else none)
lookup-first_come s d v m = lookup-or_insert d s v m ∙ elim (Bool-cases (d == s)) [
  | inl e ↦ rw (e, (==_iff d s).0 e) (kept (lookup s m))
  | inr e ↦ rw e (sym (or_else-none (lookup s m)))
]
  where
    kept : (o : Option UnifiedRoute) → some (unwrap_or o v) ≡ or_else o (some v)
    kept none = refl
    kept (some w) = refl

lookup-add_port :
    (s : Text) (def : ServiceDef) (p : NamedPort) (m : RouteMap)
    → lookup s (add_port def p m) ≡ or_else (lookup s m) (port_with s def p)
unfolding add_port port_with
lookup-add_port s def p m = elim (Bool-cases (protocol_eq p.protocol udp)) [
  | inl e ↦ rw e (sym (or_else-none (lookup s m)))
  | inr e ↦ elim (Option-cases p.subdomain) [
    | inl f ↦ rw (e, f) (sym (or_else-none (lookup s m)))
    | inr (d, f) ↦ rw (e, f) (lookup-first_come s d _ m)
  ]
]

lookup-add_ports :
    (s : Text) (def : ServiceDef) (ps : List NamedPort) (m : RouteMap)
    → lookup s (add_ports def ps m) ≡ or_else (lookup s m) (first_port s def ps)
unfolding add_ports first_port
lookup-add_ports s def [] m = sym (or_else-none (lookup s m))
lookup-add_ports s def (p ∷ ps) m =
    lookup-add_ports s def ps (add_port def p m)
    ∙ rw (lookup-add_port s def p m) (or_else_assoc (lookup s m) (port_with s def p) _)

lookup-add_services :
    (s : Text) (defs : List ServiceDef) (m : RouteMap)
    → lookup s (add_services defs m) ≡ or_else (lookup s m) (first_service s defs)
unfolding add_services first_service
lookup-add_services s [] m = sym (or_else-none (lookup s m))
lookup-add_services s (def ∷ defs) m =
    lookup-add_services s defs (add_ports def def.ports m)
    ∙ rw (lookup-add_ports s def def.ports m)
        (or_else_assoc (lookup s m) (first_port s def def.ports) _)

lookup-empty : (k : Text) → lookup {V = UnifiedRoute} k [] ≡ none
unfolding lookup
lookup-empty k = refl

lookup-route_map :
    (s : Text) (defs : List ServiceDef) (file : Result (List StaticRoute)) (t : Tables)
    → lookup s (route_map defs file t)
      ≡ route_of s defs (unwrap_or_else file default_static_routes) t
unfolding route_map route_of
lookup-route_map s defs file t =
    lookup-add_routes s (map preview_route (list_previews t)) _
    ∙ rw (
      lookup-add_routes s (map app_route (list_apps t)) (
          add_routes (map static_route (unwrap_or_else file default_static_routes))
            (add_services defs [])),
      lookup-add_routes s (map static_route (unwrap_or_else file default_static_routes))
          (add_services defs []),
      lookup-add_services s defs [],
      lookup-empty s,
    )

-- The keys are distinct, and each entry stands under its subdomain.
abbrev Keyed : RouteMap → Type 0
Keyed m = Distinct key_of m × All (λ e. e.1.subdomain ≡ e.0) m

insert-Keyed : (r : UnifiedRoute) (m : RouteMap) → Keyed m → Keyed (insert r.subdomain r m)
insert-Keyed r m (d, a) = (
  insert-Distinct r.subdomain r m d,
  insert-All (λ e. e.1.subdomain ≡ e.0) r.subdomain r m (λ j h. sym h) a,
)

add_routes-Keyed : (rs : List UnifiedRoute) (m : RouteMap) → Keyed m → Keyed (add_routes rs m)
unfolding add_routes
add_routes-Keyed [] m h = h
add_routes-Keyed (r ∷ rs) m h = add_routes-Keyed rs (insert r.subdomain r m) (insert-Keyed r m h)

add_port-Keyed :
    (def : ServiceDef) (p : NamedPort) (m : RouteMap) → Keyed m → Keyed (add_port def p m)
unfolding add_port
add_port-Keyed def p m h = elim (Bool-cases (protocol_eq p.protocol udp)) [
  | inl e ↦ rw e h
  | inr e ↦ elim (Option-cases p.subdomain) [
    | inl f ↦ rw (e, f) h
    | inr (d, f) ↦
        rw (e, f)
          (or_insert-Distinct d _ m h.0, or_insert-All (λ x. x.1.subdomain ≡ x.0) d _ m refl h.1)
  ]
]

add_ports-Keyed :
    (def : ServiceDef) (ps : List NamedPort) (m : RouteMap) → Keyed m → Keyed (add_ports def ps m)
unfolding add_ports
add_ports-Keyed def [] m h = h
add_ports-Keyed def (p ∷ ps) m h =
    add_ports-Keyed def ps (add_port def p m) (add_port-Keyed def p m h)

add_services-Keyed : (defs : List ServiceDef) (m : RouteMap) → Keyed m → Keyed (add_services defs m)
unfolding add_services
add_services-Keyed [] m h = h
add_services-Keyed (def ∷ defs) m h =
    add_services-Keyed defs (add_ports def def.ports m) (add_ports-Keyed def def.ports m h)

route_map-Keyed :
    (defs : List ServiceDef) (file : Result (List StaticRoute)) (t : Tables)
    → Keyed (route_map defs file t)
unfolding route_map
route_map-Keyed defs file t =
    let statics = map static_route (unwrap_or_else file default_static_routes) in
    let apps = map app_route (list_apps t) in
    let base = add_services defs [] in
    add_routes-Keyed (map preview_route (list_previews t))
      (add_routes apps (add_routes statics base))
      (add_routes-Keyed apps (add_routes statics base)
        (add_routes-Keyed statics base (add_services-Keyed defs [] (tt, tt))))

In-values :
    (r : UnifiedRoute) (m : RouteMap)
    → Keyed m
    → In r (map (λ e. e.1) m) ↔ (lookup r.subdomain m ≡ some r)
In-values r m (d, a) = (
  λ i.
      let ((k, v), j, e) = (In-map (λ (x : Text × UnifiedRoute). x.1) r m).0 i in
      let under : v.subdomain ≡ k = All-In (λ x. x.1.subdomain ≡ x.0) m (k, v) a j in
      In-lookup r.subdomain r m d (
        subst (λ x. In x m) (λ i. ((sym under ∙ ap (λ (u : UnifiedRoute). u.subdomain) e) i, e i))
          j),
  λ h.
      (In-map (λ (x : Text × UnifiedRoute). x.1) r m).1
        ((r.subdomain, r), lookup-In r.subdomain r m h, refl),
)

-- A route is in the table exactly if it is the one that the order of precedence gives for its
-- subdomain: a preview's before an app's, an app's before a static one, and a static one before
-- that of the first service whose TCP port asks for the subdomain. A static file that cannot be
-- read stands for the two default routes.
pub build_route_map_iff :
    (defs : List ServiceDef) (file : Result (List StaticRoute)) (t : Tables) (r : UnifiedRoute)
    → In r (build_route_map defs file t)
      ↔ (route_of r.subdomain defs (unwrap_or_else file default_static_routes) t ≡ some r)
unfolding build_route_map
build_route_map_iff defs file t r =
    let values = In-values r (route_map defs file t) (route_map-Keyed defs file t) in
    let found = lookup-route_map r.subdomain defs file t in
    (
      λ i. sym found ∙ values.0 ((In-sort_by (λ (x : UnifiedRoute). x.subdomain) r _).0 i),
      λ h. (In-sort_by (λ (x : UnifiedRoute). x.subdomain) r _).1 (values.1 (found ∙ h)),
    )
