-- ===== src/Caddy/Apply.antt =====
-- caddy.rs, apply_all: the Caddyfile is written from the recorded colors and the table of routes, and
-- Caddy is told to read it; with the reading of the static routes and the table (db.rs).
use codery.Base.{
  not, List, [], ◌∷◌, if◌then◌else◌, Text, Assoc, insert, io_error, parse_error, caddy_failed,
  Result, ok, err, bind_result, ok_or, unwrap_or_else, Exec, query, ◌>>=◌, ◌>>◌, ok_option,
}
use codery.Caddy.{load_env_pairs, generate_from_routes}
use codery.Config.{env_file, tailscale_ip_file, caddy_config, routes_yaml, Color, blue, load_domain}
use codery.Files.{Files, exists, read_to_string, write}
use codery.Routes.{StaticRoute, UnifiedRoute, build_route_map}
use codery.ServiceDef.{ServiceDef}
use codery.ServiceDef.Load.{load, load_all}
use codery.State.{read_active}
use codery.World.{World, System, on_files, file_text}

module _ {D : Type 0} (sys : System D) where
  unfoldable pub load_static_routes : Files → Result (List StaticRoute)
  load_static_routes fs =
      if not (exists fs routes_yaml)
      then ok []
      else bind_result (read_to_string fs routes_yaml)
          λ text. ok_or (sys.static_from_str text) parse_error

  unfoldable pub definitions : Files → Result (List ServiceDef)
  definitions fs = load_all sys.from_str fs sys.yml_paths

  -- `db::open` and `build_route_map`.
  unfoldable pub current_routes : World D → Result (List UnifiedRoute)
  unfolding definitions load_static_routes
  current_routes w =
      if not sys.db_opens
      then err io_error
      else bind_result (definitions w.files)
          λ defs. ok (build_route_map defs (load_static_routes w.files) w.tables)

  color_map : Files → List ServiceDef → Assoc Color → Assoc Color
  color_map fs [] colors = colors
  color_map fs (def ∷ defs) colors =
      color_map fs defs
        (insert def.service (unwrap_or_else (read_active def.service fs) blue) colors)

  unfoldable pub current_domain : Files → Text
  current_domain fs = load_domain (file_text fs env_file)

  unfoldable pub current_env_pairs : Files → Assoc Text
  current_env_pairs fs = load_env_pairs (file_text fs env_file) (file_text fs tailscale_ip_file)

  unfoldable pub caddyfile : World D → Result Text
  unfolding current_routes color_map current_domain current_env_pairs definitions
  caddyfile w = bind_result (definitions w.files) λ defs. bind_result (current_routes w) λ routes.
      ok (
        generate_from_routes (λ service. ok_option (load sys.from_str w.files service))
          (color_map w.files defs []) (current_domain w.files) (current_env_pairs w.files) routes)

  -- Caddy reads the file that has been written.
  unfoldable pub reload_caddy : Text → World D → Result (Unit {0})
  unfolding current_env_pairs
  reload_caddy text w =
      if sys.caddy_accepts (current_env_pairs w.files) text then ok tt else err caddy_failed

  unfoldable pub apply_all : Exec (World D) (Unit {0})
  unfolding caddyfile reload_caddy
  apply_all = do
    text ← query caddyfile
    on_files (write caddy_config text)
    query (reload_caddy text)
