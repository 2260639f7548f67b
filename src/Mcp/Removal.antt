-- ===== src/Mcp/Removal.antt =====
-- After an app is removed nothing of it is left.
use codery.Base.{
  ℕ, ◌≡◌, refl, sym, ap, ◌∙◌, subst, ◌≢◌, inl, inr, Bool, true, false, not, Option, none, some,
  List, arith, Bool-cases, Text, codes, ◌==◌, ==_iff, ==_ne, In, lookup, Error, bad_request, Result,
  ok, err, ok_or, Exec, query, ◌>>=◌, ◌>>◌,
}
use codery.Base.Lists.Membership.{In-All, In-retain, find_first-none}
use codery.Base.Lists.Sorted.{Distinct, In-sort_by, sort_by-Distinct}
use codery.Base.Outcome.Triple.{bind_ok, query_ok, bind_within}
use codery.Caddy.Apply.{apply_all}
use codery.Command.{open_tables, sync_s6}
use codery.Config.{Color, container_name}
use codery.Db.{AppRecord, Tables, delete_app, list_apps, find_app_by_name}
use codery.Db.Valid.{IsValid, delete_app-IsValid}
use codery.Docker.{is_running}
use codery.Files.{Files}
use codery.Mcp.{container_exec}
use codery.Mcp.Apps.{require_ok, pause, refresh_routes, unlink, forget_app, remove_app}
use codery.Nginx.{reload_in, reload_for, reload_in_active_container, generate_and_reload}
use codery.S6.{sync_s6_to_dir}
use codery.S6.Sync.{wanted, wanted-distinct, lookup-sync_s6_to_dir}
use codery.World.{World, System, on_bundles, on_docker, on_files, on_tables}

module _ {D : Type 0} (sys : System D) where
  -- The tables and the bundles are the same.
  pub record SameApps (u w : World D) : Type 0 where
    pub tables : w.tables ≡ u.tables
    pub bundles : w.bundles ≡ u.bundles

  pub same_refl : (w : World D) → SameApps w w
  same_refl w = record { tables = refl; bundles = refl }

  pub same_trans : (u v w : World D) → SameApps u v → SameApps v w → SameApps u w
  same_trans u v w h k = record { tables = k.tables ∙ h.tables; bundles = k.bundles ∙ h.bundles }

  pub query-SameApps :
      {A : Type 0} (f : World D → Result A) (w : World D) → SameApps w (query f w).1
  unfolding ◌>>=◌
  query-SameApps f w = same_refl w

  files-SameApps : {A : Type 0} (m : Exec Files A) (w : World D) → SameApps w (on_files m w).1
  unfolding on_files
  files-SameApps m w = record { tables = refl; bundles = refl }

  docker-SameApps : {A : Type 0} (m : Exec D A) (w : World D) → SameApps w (on_docker m w).1
  unfolding on_docker
  docker-SameApps m w = record { tables = refl; bundles = refl }

  apply_all-SameApps : (w : World D) → SameApps w (apply_all sys w).1
  unfolding apply_all
  apply_all-SameApps = bind_within SameApps same_refl same_trans _ _ (query-SameApps _) (λ text.
      bind_within SameApps same_refl same_trans _ _ (files-SameApps _) (λ u. query-SameApps _))

  reload-SameApps : (r : Result Color) (w : World D) → SameApps w (reload_for sys r w).1
  unfolding reload_for reload_in
  reload-SameApps (err e) w = same_refl w
  reload-SameApps (ok color) w =
      elim (Bool-cases (is_running sys.engine (container_name (codes "apps") color) w.docker)) [
        | inl e ↦ rw e (record { tables = refl; bundles = refl })
        | inr e ↦ rw e (same_refl w)
      ]

  nginx-SameApps : (w : World D) → SameApps w (generate_and_reload sys w).1
  unfolding generate_and_reload reload_in_active_container
  nginx-SameApps = bind_within SameApps same_refl same_trans _ _ (query-SameApps _) (λ routes.
      bind_within SameApps same_refl same_trans _ _ (query-SameApps _) (λ domain.
        bind_within SameApps same_refl same_trans _ _ (files-SameApps _)
          (λ u w. reload-SameApps _ w)))

  pub refresh-SameApps : (w : World D) → SameApps w (refresh_routes sys w).1
  unfolding refresh_routes
  refresh-SameApps =
      bind_within SameApps same_refl same_trans _ _ apply_all-SameApps (λ u. nginx-SameApps)

  pub pause-SameApps : (time : ℕ) (w : World D) → SameApps w (pause sys time w).1
  unfolding pause
  pause-SameApps time w = record { tables = refl; bundles = refl }

  pub exec-SameApps :
      (service : Text) (command : List Text) (w : World D)
      → SameApps w (container_exec sys service command w).1
  unfolding container_exec
  exec-SameApps service command =
      bind_within SameApps same_refl same_trans _ _ (query-SameApps _) (λ color. docker-SameApps _)

  end-SameApps : (w : World D) → SameApps w ((pause sys 1000 >> refresh_routes sys) w).1
  end-SameApps =
      bind_within SameApps same_refl same_trans _ _ (pause-SameApps 1000) (λ u. refresh-SameApps)

other_name :
    (name : Text) (t : Tables) (a : AppRecord)
    → In a (list_apps (delete_app name t).1)
    → a.name ≢ name
unfolding list_apps delete_app
other_name name t a m e =
    let kept =
      ((In-retain (λ b. not (b.name == name)) a t.apps).0 ((In-sort_by (λ b. b.name) a _).0 m)).1 in
    ground (arith, kept, (==_iff a.name name).1 e)

find-delete_app : (name : Text) (t : Tables) → find_app_by_name (delete_app name t).1 name ≡ none
unfolding find_app_by_name
find-delete_app name t =
    find_first-none (λ a. a.name == name) (list_apps (delete_app name t).1)
      (λ a m. ==_ne a.name name (other_name name t a m))

apps-Distinct :
    (name : Text) (t : Tables)
    → IsValid t
    → Distinct (λ a. a.name) (list_apps (delete_app name t).1)
unfolding list_apps
apps-Distinct name t v = sort_by-Distinct (λ a. a.name) _ (delete_app-IsValid name t v).names

module _ {D : Type 0} (sys : System D) (name : Text) where
  -- What the synchronisation of the bundles leaves.
  pub synced :
      (w u : World D)
      → Distinct (λ a. a.name) (list_apps w.tables)
      → sync_s6 sys w ≡ (ok tt, u)
      → (u.tables ≡ w.tables)
        × (lookup name u.bundles ≡ wanted sys.read_json (list_apps w.tables) name)
  unfolding sync_s6 on_bundles
  synced w u d h =
      let (t, e, k) = query_ok _ _ w tt u h in
      let x : w.tables ≡ t = cc in
      let done : on_bundles
            (sync_s6_to_dir sys.read_json sys.removable sys.bundle_writable w.tables) w
          ≡ (ok tt, u) =
        subst
          (λ s.
            on_bundles (sync_s6_to_dir sys.read_json sys.removable sys.bundle_writable s) w
            ≡ (ok tt, u))
          (sym x) k in
      (
        ap (λ o. o.1.tables) (sym done),
        lookup-sync_s6_to_dir sys.read_json sys.removable sys.bundle_writable w.tables w.bundles
            u.bundles name d (λ i. ((done i).0, (done i).1.bundles)),
      )

-- With distinct names of the apps: after a removal that succeeds from the deletion of the row on,
-- the table has no app of the name, and there is no bundle of the name.
pub forget_app_done :
    {D : Type 0} (sys : System D) (name : Text) (w v : World D)
    → IsValid w.tables
    → forget_app sys name w ≡ (ok tt, v)
    → (find_app_by_name v.tables name ≡ none) × (lookup name v.bundles ≡ none)
unfolding forget_app on_tables
forget_app_done {D} sys name w v valid h =
    let (b, e1, h1) = bind_ok _ _ w tt v h in
    let (u, e2, h2) = bind_ok _ _ _ tt v h1 in
    let deleted : World D = (on_tables (delete_app name) w).1 in
    let settled : World D = (sync_s6 sys deleted).1 in
    let (t, g) =
      synced sys name deleted settled (apps-Distinct name w.tables valid) (λ i. (e2 i, settled)) in
    let same = end-SameApps sys settled in
    (
      ap (λ o. find_app_by_name o.1.tables name) (sym h2)
          ∙ ap (λ r. find_app_by_name r name) (same.tables ∙ t)
          ∙ find-delete_app name w.tables,
      ap (λ o. lookup name o.1.bundles) (sym h2)
          ∙ ap (lookup name) same.bundles
          ∙ g
          ∙ wanted-distinct sys.read_json name _
              (In-All (λ b. b.name ≢ name) _ (other_name name w.tables)),
    )

module _ {D : Type 0} (sys : System D) where
  pub require_passed :
      (b : Bool) (f : Exec (World D) (Unit {0})) (w v : World D)
      → (require_ok sys b >> f) w ≡ (ok tt, v)
      → (b ≡ true) × (f w ≡ (ok tt, v))
  unfolding require_ok ◌>>=◌
  require_passed true f w v h = (refl, h)
  require_passed false f w v h = let k : err bad_request ≡ ok tt = ap (λ o. o.0) h in cc

  unlink-SameApps : (name : Text) (w : World D) → SameApps sys w (unlink sys name w).1
  unfolding unlink
  unlink-SameApps name w = exec-SameApps sys (codes "apps") _ w

not-false : (b : Bool) → not b ≡ true → b ≡ false
not-false b h = ground arith

found_some : {A : Type 0} (o : Option A) (e : Error) (a : A) → ok_or o e ≡ ok a → o ≡ some a
found_some none e a h = cc
found_some (some b) e a h = cc

-- With distinct names of the apps: an app that was removed with success was there and was not baked
-- into the image, and afterwards the table has no app of its name, and there is no bundle of its
-- name.
pub remove_app_done :
    {D : Type 0} (sys : System D) (name : Text) (w v : World D)
    → IsValid w.tables
    → remove_app sys name w ≡ (ok tt, v)
    → (app : AppRecord) × (find_app_by_name w.tables name ≡ some app)
      × (app.source == codes "build" ≡ false)
      × (find_app_by_name v.tables name ≡ none)
      × (lookup name v.bundles ≡ none)
unfolding remove_app open_tables
remove_app_done sys name w v valid h =
    let (u1, e1, h1) = query_ok _ _ w tt v h in
    let (app, e2, h2) = query_ok _ _ w tt v h1 in
    let (b, h3) = require_passed sys (not (app.source == codes "build")) _ w v h2 in
    let (u4, e4, h4) = bind_ok _ _ w tt v h3 in
    let (gone, clean) =
      forget_app_done sys name (unlink sys name w).1 v
        (subst IsValid (sym (unlink-SameApps sys name w).tables) valid) h4 in
    (app, found_some _ _ app e2, not-false _ b, gone, clean)
