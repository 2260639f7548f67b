-- ===== src/Deploy/Deps.antt =====
-- The trait `DeployDeps`: what a deploy does to the world, as an interface over a state, and what
-- is known of it.
use codery.Base.{
  ◌≡◌, ◌≢◌, Bool, Option, none, some, if◌then◌else◌, Text, trim, is_empty, Error, Result, ok, err,
  Exec,
}
use codery.Config.{Color, container_name}
use codery.ServiceDef.{ServiceDef}

-- A method that only looks returns its result; the others give the state that they leave too.
pub record DeployDeps (S : Type 0) : Type 0 where
  pub preflight : Exec S (Unit {0})
  pub read_active : Text → S → Result Color
  pub read_active_sha : Text → S → Option Text
  pub write_active : Text → Color → Exec S (Unit {0})
  pub write_active_sha : Text → Text → Exec S (Unit {0})
  pub apply_caddy : Exec S (Unit {0})
  pub ensure_network : Text → Exec S (Unit {0})
  pub validate : ServiceDef → Text → Color → Exec S (Unit {0})
  pub start_container : ServiceDef → Text → Color → Exec S (Unit {0})
  pub remove_container_if_exists : Text → Exec S (Unit {0})
  pub stop_container : Text → Exec S (Unit {0})
  pub health_check : ServiceDef → Color → Exec S (Unit {0})
  pub prune_images : Text → Exec S (Unit {0})
  pub ensure_nginx_config : Exec S (Unit {0})
  pub container_running : Text → S → Result Bool

-- Nothing that a deploy reads has changed.
pub record Unchanged {S : Type 0} (deps : DeployDeps S) (s t : S) : Type 0 where
  pub color : (service : Text) → deps.read_active service t ≡ deps.read_active service s
  pub sha : (service : Text) → deps.read_active_sha service t ≡ deps.read_active_sha service s
  pub running : (name : Text) → deps.container_running name t ≡ deps.container_running name s

-- At most the state of one container has changed.
pub record Only {S : Type 0} (deps : DeployDeps S) (name : Text) (s t : S) : Type 0 where
  pub color : (service : Text) → deps.read_active service t ≡ deps.read_active service s
  pub sha : (service : Text) → deps.read_active_sha service t ≡ deps.read_active_sha service s
  pub others :
      (other : Text)
      → other ≢ name
      → deps.container_running other t ≡ deps.container_running other s

-- What a deploy relies on: which method changes what. Nothing is said of a method's success.
pub record IsLawful {S : Type 0} (deps : DeployDeps S) : Type 0 where
  pub preflight_law : (s : S) → Unchanged deps s (deps.preflight s).1
  pub caddy_law : (s : S) → Unchanged deps s (deps.apply_caddy s).1
  pub network_law : (n : Text) (s : S) → Unchanged deps s (deps.ensure_network n s).1
  pub validate_law :
      (def : ServiceDef) (sha : Text) (c : Color) (s : S)
      → Unchanged deps s (deps.validate def sha c s).1
  pub prune_law : (service : Text) (s : S) → Unchanged deps s (deps.prune_images service s).1
  pub nginx_law : (s : S) → Unchanged deps s (deps.ensure_nginx_config s).1
  pub start_law :
      (def : ServiceDef) (sha : Text) (c : Color) (s : S)
      → Only deps (container_name def.service c) s (deps.start_container def sha c s).1
  pub health_law :
      (def : ServiceDef) (c : Color) (s : S)
      → Only deps (container_name def.service c) s (deps.health_check def c s).1
  pub remove_law :
      (name : Text) (s : S) → Only deps name s (deps.remove_container_if_exists name s).1
  pub stop_law : (name : Text) (s : S) → Only deps name s (deps.stop_container name s).1
  pub write_running :
      (service : Text) (c : Color) (s : S) (name : Text)
      → deps.container_running name (deps.write_active service c s).1
        ≡ deps.container_running name s
  pub write_done :
      (service : Text) (c : Color) (s : S)
      → (deps.write_active service c s).0 ≡ ok tt
      → deps.read_active service (deps.write_active service c s).1 ≡ ok c
  pub write_undone :
      (service : Text) (c : Color) (s : S) (e : Error)
      → (deps.write_active service c s).0 ≡ err e
      → deps.read_active service (deps.write_active service c s).1 ≡ deps.read_active service s
  pub write_sha_running :
      (service sha : Text) (s : S) (name : Text)
      → deps.container_running name (deps.write_active_sha service sha s).1
        ≡ deps.container_running name s
  pub write_sha_color :
      (service sha : Text) (s : S)
      → deps.read_active service (deps.write_active_sha service sha s).1
        ≡ deps.read_active service s
  pub write_sha_done :
      (service sha : Text) (s : S)
      → (deps.write_active_sha service sha s).0 ≡ ok tt
      → deps.read_active_sha service (deps.write_active_sha service sha s).1
        ≡ (if is_empty (trim sha) then none else some (trim sha))
