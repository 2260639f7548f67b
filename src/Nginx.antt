-- ===== src/Nginx.antt =====
-- system/orchestrator/src/nginx.rs: the configuration for the apps, one server block for each of them,
-- and the reload in the active container.
use codery.Base.{
  ℕ, Bool, Option, none, some, List, [], ◌∷◌, ◌++◌, if◌then◌else◌, and_then, Text, codes, ◌==◌,
  number_text, is_empty, filter_map, Result, ok, err, bind_result, Exec, query, ◌>>=◌, ◌>>◌,
}
use codery.Caddy.{fqdn}
use codery.Caddy.Apply.{current_routes, current_domain}
use codery.Config.{nginx_config, Color, container_name}
use codery.Docker.{to_result, is_running}
use codery.Files.{write}
use codery.Routes.{UnifiedRoute}
use codery.State.{read_active}
use codery.World.{World, System, on_files}

join_with : Text → List Text → Text
join_with sep [] = []
join_with sep (t ∷ []) = t
join_with sep (t ∷ u ∷ ts) = t ++ (sep ++ join_with sep (u ∷ ts))

nginx_cache_headers : Bool → Text
nginx_cache_headers no_cache =
    if no_cache
    then codes
        "\n        add_header Cache-Control \"no-store, no-cache, must-revalidate, max-age=0\" always;"
      ++ (codes "\n        add_header Pragma \"no-cache\" always;"
          ++ codes "\n        add_header Expires \"0\" always;")
    else []

unfoldable pub server_block : Text → Bool → ℕ → Text
unfolding nginx_cache_headers
server_block host no_cache internal_port =
    codes "server {\n    listen 8080;\n    server_name "
    ++ (host
        ++ (codes ";\n    location / {"
            ++ (nginx_cache_headers no_cache
                ++ (codes "\n        proxy_pass http://127.0.0.1:"
                    ++ (number_text internal_port
                        ++ (codes
                              ";\n        proxy_set_header Host $host;\n        proxy_set_header X-Real-IP $remote_addr;\n"
                            ++ codes
                                "        proxy_set_header X-Forwarded-For $proxy_add_x_forwarded_for;\n        proxy_set_header Upgrade $http_upgrade;\n        proxy_set_header Connection $connection_upgrade;\n    }\n}\n"))))))

-- Only a route to `apps` with an internal port has a block.
unfoldable pub app_block : Text → UnifiedRoute → Option Text
unfolding server_block
app_block domain r = and_then r.internal_port λ internal_port.
    if r.target == codes "apps"
    then some (server_block (fqdn domain r.subdomain) r.no_cache internal_port)
    else none

closing : List Text → Text
unfolding join_with
closing [] = []
closing (b ∷ bs) =
    join_with (codes "\n") (b ∷ bs)
    ++ codes "\nserver {\n    listen 8080 default_server;\n    return 404;\n}\n"

unfoldable pub generate_config : List UnifiedRoute → Text → Text
unfolding app_block closing
generate_config routes domain = closing (filter_map (app_block domain) routes)

unfoldable pub or_unavailable : Text → Text
or_unavailable text =
    if is_empty text
    then codes
        "server {\n    listen 8080 default_server;\n    return 503 \"No apps configured\";\n}\n"
    else text

module _ {D : Type 0} (sys : System D) where
  reload_command : List Text
  reload_command =
      codes "nginx" ∷ codes "-c" ∷ codes "/etc/nginx/nginx.conf" ∷ codes "-s" ∷ codes "reload" ∷ []

  -- `output`: what Docker gives for an exec; its text is only logged.
  unfoldable pub reload_in : Text → Exec (World D) (Unit {0})
  unfolding reload_command
  reload_in container w =
      let (output, after) = sys.engine.run_exec container reload_command w.docker in
      (bind_result (to_result output) (λ text. ok tt), record w { docker = after })

  -- Without a readable color or a running container there is nothing to reload.
  unfoldable pub reload_for : Result Color → Exec (World D) (Unit {0})
  unfolding reload_in
  reload_for (err e) w = (ok tt, w)
  reload_for (ok color) w =
      if is_running sys.engine (container_name (codes "apps") color) w.docker
      then reload_in (container_name (codes "apps") color) w
      else (ok tt, w)

  unfoldable pub reload_in_active_container : Exec (World D) (Unit {0})
  unfolding reload_for
  reload_in_active_container w = reload_for (read_active (codes "apps") w.files) w

  unfoldable pub generate_and_reload : Exec (World D) (Unit {0})
  unfolding generate_config or_unavailable reload_in_active_container
  generate_and_reload = do
    routes ← query (current_routes sys)
    domain ← query (λ w. ok (current_domain sys w.files))
    on_files (write nginx_config (or_unavailable (generate_config routes domain)))
    reload_in_active_container
