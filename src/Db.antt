-- ===== src/Db.antt =====
-- system/orchestrator/src/db.rs: the tables `apps` and `previews`, with the constraints of their
-- schema, and the statements that the program runs on them. SQLite's execution of a statement is
-- taken as its documentation gives it; the time of an insertion is an argument.
pub mod Valid
pub mod Previews
use codery.Base.{
  ℕ, Bool, not, ◌&&◌, ◌||◌, Option, List, [], ◌∷◌, ◌++◌, map, eqb, if◌then◌else◌, Text, codes, ◌==◌,
  ℤ, retain, any, find_first, constraint, ok, err, Exec,
}
use codery.Base.Lists.Sorted.{sort_by}

pub record AppRecord : Type 0 where
  pub name : Text
  pub subdomain : Text
  pub internal_port : ℕ
  pub command : Text
  pub directory : Text
  pub env : Option Text
  pub priority : ℤ
  pub user : Text
  pub restart : Text
  pub no_cache : Bool
  pub source : Text
  pub created_at : Text

pub record PreviewRecord : Type 0 where
  pub service : Text
  pub subdomain : Text
  pub host_port : ℕ
  pub sha : Text
  pub color : Text
  pub created_at : Text

pub record Tables : Type 0 where
  pub apps : List AppRecord
  pub previews : List PreviewRecord

-- `name` is the primary key and `subdomain` is unique.
unfoldable pub insert_app : Text → AppRecord → Exec Tables (Unit {0})
insert_app now app t =
    if any (λ a. a.name == app.name || a.subdomain == app.subdomain) t.apps
    then (err constraint, t)
    else (ok tt, record t { apps = t.apps ++ record app { created_at = now } ∷ [] })

unfoldable pub delete_app : Text → Exec Tables Bool
delete_app name t = (
  ok (any (λ a. a.name == name) t.apps),
  record t { apps = retain (λ a. not (a.name == name)) t.apps },
)

unfoldable pub set_app_source : Text → Text → Exec Tables Bool
set_app_source name source t = (
  ok (any (λ a. a.name == name) t.apps),
  record t { apps = map (λ a. if a.name == name then record a { source = source } else a) t.apps },
)

unfoldable pub list_apps : Tables → List AppRecord
list_apps t = sort_by (λ a. a.name) t.apps

unfoldable pub find_app_by_name : Tables → Text → Option AppRecord
unfolding list_apps
find_app_by_name t name = find_first (λ a. a.name == name) (list_apps t)

unfoldable pub port_claimed : Tables → ℕ → Bool
port_claimed t port = any (λ a. eqb a.internal_port port) t.apps

-- The row that an upsert writes over another one keeps the time of its insertion.
overwrite : PreviewRecord → PreviewRecord → PreviewRecord
overwrite p q = if q.service == p.service then record p { created_at = q.created_at } else q

-- `service` is the primary key, the target of the conflict clause, and `subdomain` is unique.
unfoldable pub upsert_preview : Text → PreviewRecord → Exec Tables (Unit {0})
unfolding overwrite
upsert_preview now p t =
    if any (λ q. q.subdomain == p.subdomain && not (q.service == p.service)) t.previews
    then (err constraint, t)
    else if any (λ q. q.service == p.service) t.previews
    then (ok tt, record t { previews = map (overwrite p) t.previews })
    else (ok tt, record t { previews = t.previews ++ record p { created_at = now } ∷ [] })

unfoldable pub delete_preview : Text → Exec Tables Bool
delete_preview service t = (
  ok (any (λ p. p.service == service) t.previews),
  record t { previews = retain (λ p. not (p.service == service)) t.previews },
)

unfoldable pub list_previews : Tables → List PreviewRecord
list_previews t = sort_by (λ p. p.service) t.previews

unfoldable pub find_preview : Tables → Text → Option PreviewRecord
unfolding list_previews
find_preview t service = find_first (λ p. p.service == service) (list_previews t)

unfoldable pub preview_subdomain : Text → Text
preview_subdomain service = service ++ codes "-preview"
