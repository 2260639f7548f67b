-- ===== src/Routes.antt =====
-- db.rs, `build_route_map`: one table of routes from the service definitions, the static routes,
-- the apps and the previews.
pub mod Precedence
use codery.Base.{
  ℕ, Bool, true, false, Option, none, some, List, [], ◌∷◌, map, if◌then◌else◌, Text, codes, Assoc,
  insert, or_insert, Result, unwrap_or_else,
}
use codery.Base.Lists.Sorted.{sort_by}
use codery.Config.{mcp_port, ui_port}
use codery.Db.{AppRecord, PreviewRecord, Tables, list_apps, list_previews}
use codery.ServiceDef.{udp, NamedPort, ServiceDef, protocol_eq}
use codery.ServiceDef.Ports.{host_port}

pub record StaticRoute : Type 0 where
  pub subdomain : Text
  pub port : ℕ
  pub target : Text

pub record UnifiedRoute : Type 0 where
  pub subdomain : Text
  pub port : ℕ
  pub target : Text
  pub internal_port : Option ℕ
  pub no_cache : Bool
  pub auth_env : Option Text

unfoldable pub default_static_routes : List StaticRoute
default_static_routes =
    record { subdomain = codes "mcp"; port = mcp_port; target = codes "host" }
    ∷ record { subdomain = codes "ci"; port = ui_port; target = codes "host" }
    ∷ []

abbrev pub RouteMap : Type 0
RouteMap = Assoc UnifiedRoute

unfoldable pub service_route : ServiceDef → NamedPort → Text → UnifiedRoute
service_route def port subdomain = record {
  subdomain = subdomain;
  port = port.container_port;
  target = def.service;
  internal_port = none;
  no_cache = false;
  auth_env = port.auth;
}

-- The first service that asks for a subdomain has it.
unfoldable pub add_port : ServiceDef → NamedPort → RouteMap → RouteMap
unfolding service_route protocol_eq
add_port def port m = if protocol_eq port.protocol udp then m else elim port.subdomain [
  | none ↦ m
  | some subdomain ↦ or_insert subdomain (service_route def port subdomain) m
]

unfoldable pub add_ports : ServiceDef → List NamedPort → RouteMap → RouteMap
unfolding add_port
add_ports def [] m = m
add_ports def (p ∷ ps) m = add_ports def ps (add_port def p m)

unfoldable pub add_services : List ServiceDef → RouteMap → RouteMap
unfolding add_ports
add_services [] m = m
add_services (def ∷ defs) m = add_services defs (add_ports def def.ports m)

unfoldable pub static_route : StaticRoute → UnifiedRoute
static_route r = record {
  subdomain = r.subdomain;
  port = r.port;
  target = r.target;
  internal_port = none;
  no_cache = false;
  auth_env = none;
}

unfoldable pub app_route : AppRecord → UnifiedRoute
app_route app = record {
  subdomain = app.subdomain;
  port = 8080;
  target = codes "apps";
  internal_port = some app.internal_port;
  no_cache = app.no_cache;
  auth_env = none;
}

unfoldable pub preview_route : PreviewRecord → UnifiedRoute
preview_route p = record {
  subdomain = p.subdomain;
  port = p.host_port;
  target = codes "host";
  internal_port = none;
  no_cache = true;
  auth_env = none;
}

-- Each loop of insertions; a later route takes the place of an earlier one.
unfoldable pub add_routes : List UnifiedRoute → RouteMap → RouteMap
add_routes [] m = m
add_routes (r ∷ rs) m = add_routes rs (insert r.subdomain r m)

-- The map before its values are taken and sorted. `static_file`: the routes read from the file, or
-- the failure to read it.
unfoldable pub route_map : List ServiceDef → Result (List StaticRoute) → Tables → RouteMap
unfolding add_services add_routes
route_map defs static_file t =
    let statics = unwrap_or_else static_file default_static_routes in
    add_routes (map preview_route (list_previews t)) (
      add_routes (map app_route (list_apps t))
        (add_routes (map static_route statics) (add_services defs [])))

unfoldable pub build_route_map :
    List ServiceDef → Result (List StaticRoute) → Tables → List UnifiedRoute
unfolding route_map
build_route_map defs static_file t =
    sort_by (λ r. r.subdomain) (map (λ e. e.1) (route_map defs static_file t))
