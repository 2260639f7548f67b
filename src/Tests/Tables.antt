-- ===== src/Tests/Tables.antt =====
-- The tables, and the routes from them.
use Prim.Native.String.{String}
use codery.Base.{
  ◌≡◌, refl, ◌↔◌, false, none, some, List, [], ◌∷◌, codes, ◌==◌, pos, In, io_error, ok, err,
  unwrap_or_else,
}
use codery.Base.Lists.Sorted.{sort_by}
use codery.Db.{
  AppRecord, PreviewRecord, Tables, list_apps, upsert_preview, list_previews, find_preview,
}
use codery.Db.Previews.{Holds, find-upsert}
use codery.Db.Valid.{IsValid, Statement, inserts, upserts, execute_all, execute_all-IsValid}
use codery.Routes.{default_static_routes, app_route, preview_route, build_route_map}
use codery.Routes.Precedence.{last_with, route_of, build_route_map_iff}
use codery.Tests.Mock.{paseo}

abbrev empty_tables : Tables
empty_tables = record { apps = []; previews = [] }

empty-IsValid : IsValid empty_tables
empty-IsValid = record { names = tt; subdomains = tt; services = tt; preview_subdomains = tt }

abbrev wiki : AppRecord
wiki = record {
  name = codes "wiki";
  subdomain = codes "mcp";
  internal_port = 4000;
  command = codes "serve";
  directory = codes "/srv/wiki";
  env = none;
  priority = pos 100;
  user = codes "app";
  restart = codes "unexpected";
  no_cache = false;
  source = codes "";
  created_at = codes "";
}

abbrev preview_of : String → PreviewRecord
preview_of sha = record {
  service = codes "paseo";
  subdomain = codes "paseo-preview";
  host_port = 23000;
  sha = codes sha;
  color = codes "green";
  created_at = codes "";
}

abbrev statements : List Statement
statements =
    inserts (codes "now") wiki
    ∷ inserts (codes "later") wiki
    ∷ upserts (codes "now") (preview_of "a")
    ∷ upserts (codes "later") (preview_of "b")
    ∷ []

execute_all-IsValid_example : IsValid (execute_all statements empty_tables)
execute_all-IsValid_example = execute_all-IsValid statements empty_tables empty-IsValid

abbrev with_preview : Tables
with_preview = record { apps = wiki ∷ []; previews = preview_of "a" ∷ [] }

upsert_ok : (upsert_preview (codes "now") (preview_of "b") with_preview).0 ≡ ok tt
unfolding upsert_preview ◌==◌
upsert_ok = refl

find-upsert_example :
    (q : PreviewRecord) × (find_preview
        (upsert_preview (codes "now") (preview_of "b") with_preview).1
        (codes "paseo")
      ≡ some q)
    × Holds (preview_of "b") q
find-upsert_example = find-upsert (codes "now") (preview_of "b") with_preview upsert_ok

build_route_map_iff_example :
    In (app_route wiki) (build_route_map (paseo ∷ []) (err io_error) with_preview) ↔ (
      route_of
        (codes "mcp")
        (paseo ∷ [])
        (unwrap_or_else (err io_error) default_static_routes)
        with_preview
      ≡ some (app_route wiki))
unfolding app_route
build_route_map_iff_example =
    build_route_map_iff (paseo ∷ []) (err io_error) with_preview (app_route wiki)

-- The app takes the place of the default route `mcp`.
app_wins :
    route_of (codes "mcp") (paseo ∷ []) default_static_routes with_preview ≡ some (app_route wiki)
unfolding route_of last_with list_previews list_apps sort_by ◌==◌ preview_route app_route
app_wins = refl
