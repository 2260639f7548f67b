-- ===== src/Caddy.antt =====
-- system/orchestrator/src/caddy.rs: the Caddyfile of a route table.
pub mod Ports
pub mod Apply
use codery.Base.{
  ℕ, ◌+◌, ◌-◌, ◌%◌, Bool, true, false, not, ◌&&◌, ◌||◌, Option, none, some, List, [], ◌∷◌, ◌++◌,
  reverse, eqb, if◌then◌else◌, unwrap_or, map_option, filter_option, Text, codes, ◌==◌, trim,
  starts_with, contains_char, split_once, lines, number_text, u16_mod, length, take, retain, any,
  is_empty, filter_map, flat_map, Assoc, lookup,
}
use codery.Config.{Color, blue, green}
use codery.Routes.{UnifiedRoute}
use codery.ServiceDef.{ServiceDef}
use codery.ServiceDef.Ports.{host_port}

-- `if route.subdomain.contains('.')`.
unfoldable pub fqdn : Text → Text → Text
fqdn domain subdomain =
    if contains_char b'.' subdomain then subdomain else subdomain ++ (codes "." ++ domain)

unfoldable pub paseo_host_port : Color → ℕ → ℕ
paseo_host_port blue container_port = (container_port + 10000) % u16_mod
paseo_host_port green container_port = (container_port + 20000) % u16_mod

unfoldable pub apps_host_port : Color → ℕ → ℕ
apps_host_port blue port = (port + 0) % u16_mod
apps_host_port green port = (port + 10000) % u16_mod

-- A color that is not in the map is blue.
unfoldable pub color_for : Assoc Color → Text → Color
color_for colors target = unwrap_or (lookup target colors) blue

-- The port that a route is proxied to. `load` gives the definition of a service that can be read.
unfoldable pub route_port : (Text → Option ServiceDef) → Assoc Color → UnifiedRoute → ℕ
unfolding paseo_host_port apps_host_port color_for
route_port load_def colors route =
    if route.target == codes "host"
    then route.port
    else if route.target == codes "paseo"
    then paseo_host_port (color_for colors (codes "paseo")) route.port
    else if route.target == codes "apps"
    then apps_host_port (color_for colors (codes "apps")) route.port
    else elim (load_def route.target) [
      | none ↦ route.port
      | some def ↦ host_port def.port_scheme (color_for colors route.target) route.port
    ]

cache_headers : Bool → Text
cache_headers true =
    codes
      "\n    header {\n        Cache-Control \"no-store, no-cache, must-revalidate, max-age=0\"\n        Pragma \"no-cache\"\n        Expires \"0\"\n    }"
cache_headers false = []

-- Without the variable the route is rendered without auth.
unfoldable pub auth_directive : Option Text → Option Bool → Text
auth_directive none present = []
auth_directive (some env) none = []
auth_directive (some env) (some false) = []
auth_directive (some env) (some true) =
    codes "    basic_auth {\n        {$" ++ (env ++ codes "}\n    }\n")

unfoldable pub caddy_block : Text → ℕ → Bool → Option Text → Option Bool → Text
unfolding cache_headers auth_directive
caddy_block host port no_cache auth_env env_present =
    codes "\n"
    ++ (host
        ++ (codes " {\n    bind {$TAILSCALE_IP}\n"
            ++ (auth_directive auth_env env_present
                ++ (codes "    reverse_proxy localhost:"
                    ++ (number_text port ++ (cache_headers no_cache ++ codes "\n}\n"))))))

ends_with : ℕ → Text → Bool
ends_with c t = elim (reverse t) [ [] ↦ false | d ∷ r ↦ eqb c d ]

-- One pair of matching quotes around a value is taken off.
unquoted : Text → Text
unfolding ends_with
unquoted [] = []
unquoted (q ∷ s) =
    if (eqb q b'"' || eqb q 39) && ends_with q s then take (length s - 1) s else q ∷ s

-- The lines of the `.env` file that are neither blank nor comments.
unfoldable pub env_lines : Text → List Text
env_lines text =
    retain (λ l. not (is_empty (trim l)) && not (starts_with (codes "#") l)) (lines text)

unfoldable pub env_pair : Text → Option (Text × Text)
unfolding unquoted
env_pair l = map_option (λ p. (p.0, unquoted (trim p.1))) (split_once b'=' l)

-- `.env` and the file with the Tailscale IP; `none`: not readable.
unfoldable pub load_env_pairs : Option Text → Option Text → Assoc Text
unfolding env_lines env_pair
load_env_pairs none tailscale = []
load_env_pairs (some text) tailscale =
    let pairs = filter_map env_pair (env_lines text) in
    if any (λ p. p.0 == codes "TAILSCALE_IP") pairs
    then pairs
    else elim (filter_option (λ ip. not (is_empty ip)) (map_option trim tailscale)) [
      | none ↦ pairs
      | some ip ↦ pairs ++ (codes "TAILSCALE_IP", ip) ∷ []
    ]

unfoldable pub route_block :
    (Text → Option ServiceDef) → Assoc Color → Text → Assoc Text → UnifiedRoute → Text
unfolding fqdn route_port caddy_block
route_block load_def colors domain env_pairs route =
    caddy_block (fqdn domain route.subdomain) (route_port load_def colors route) route.no_cache
      route.auth_env (map_option (λ e. any (λ p. p.0 == e) env_pairs) route.auth_env)

unfoldable pub generate_from_routes :
    (Text → Option ServiceDef) → Assoc Color → Text → Assoc Text → List UnifiedRoute → Text
unfolding route_block
generate_from_routes load_def colors domain env_pairs routes =
    codes "{\n    acme_dns cloudflare {$CLOUDFLARE_API_TOKEN}\n}\n"
    ++ flat_map (route_block load_def colors domain env_pairs) routes
