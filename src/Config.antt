-- ===== src/Config.antt =====
-- system/orchestrator/src/config.rs: the constants, the colors of a blue/green pair, and the names
-- derived from a service. The text of the `.env` file is an argument (`none`: it cannot be read).
pub mod Laws
use codery.Base.{
  ℕ, Bool, true, false, ◌||◌, Option, none, some, List, [], ◌∷◌, ◌++◌, if◌then◌else◌, Text, codes,
  ◌==◌, trim, strip_prefix, starts_with, lines, is_empty,
}

abbrev pub state_dir : Text
state_dir = codes "/opt/codery/state"

abbrev pub env_file : Text
env_file = codes "/opt/codery/.env"

abbrev pub tailscale_ip_file : Text
tailscale_ip_file = codes "/run/tailscale.ip"

abbrev pub caddy_config : Text
caddy_config = codes "/etc/caddy/Caddyfile"

abbrev pub nginx_config : Text
nginx_config = codes "/opt/codery/proxy/apps-nginx.conf"

abbrev pub routes_yaml : Text
routes_yaml = codes "/opt/codery/proxy/routes.yaml"

abbrev pub default_domain : Text
default_domain = codes "example.com"

abbrev pub registry : Text
registry = codes "ghcr.io/coderyoss/codery"

abbrev pub ghcr_host : Text
ghcr_host = codes "ghcr.io"

abbrev pub mcp_port : ℕ
mcp_port = 4040

abbrev pub ui_port : ℕ
ui_port = 4041

pub data Color : Type 0 where
  blue green : Color

unfoldable pub as_str : Color → Text
as_str blue = codes "blue"
as_str green = codes "green"

unfoldable pub parse : Text → Option Color
parse s = if s == codes "blue" then some blue else if s == codes "green" then some green else none

-- The derived equality.
unfoldable pub color_eq : Color → Color → Bool
color_eq blue blue = true
color_eq green green = true
color_eq blue green = false
color_eq green blue = false

unfoldable pub flip : Color → Color
flip blue = green
flip green = blue

unfoldable pub container_name : Text → Color → Text
unfolding as_str
container_name service color = codes "codery-" ++ (service ++ (codes "-" ++ as_str color))

-- The local tag for an image that `codery-ci build` makes.
unfoldable pub image_ref : Text → Text → Text
image_ref service sha = registry ++ (codes ":" ++ (service ++ (codes "-" ++ sha)))

unfoldable pub deploy_lock_path : Text → Text
deploy_lock_path service = codes "/run/codery-ci-deploy-" ++ (service ++ codes ".lock")

-- The loop over the lines of the file.
domain_in : List Text → Text
domain_in [] = default_domain
domain_in (l ∷ ls) =
    let rest = domain_in ls in
    let line = trim l in
    if starts_with (codes "#") line || is_empty line
    then rest
    else elim (strip_prefix (codes "DOMAIN_NAME=") line) [
      | none ↦ rest
      | some value ↦ let domain = trim value in if is_empty domain then rest else domain
    ]

unfoldable pub load_domain : Option Text → Text
unfolding domain_in
load_domain none = default_domain
load_domain (some content) = domain_in (lines content)
