-- ===== src/Mcp/Addition.antt =====
-- After an app is added it is added_row, and supervised by its own bundle.
use codery.Base.{
  ℕ, zero, suc, ◌≡◌, refl, sym, ap, ◌∙◌, subst, ◌≢◌, inl, inr, Bool, true, false, ◌||◌, Option,
  none, some, List, [], ◌∷◌, if◌then◌else◌, Bool-cases, Text, ◌==◌, ==_refl, ==_ne, any, find_first,
  In, Assoc, lookup, constraint, ok, err, pure, ◌>>◌,
}
use codery.Base.Lists.Membership.{All-In, In-append}
use codery.Base.Lists.Sorted.{Distinct, In-sort_by, sort_by-Distinct}
use codery.Base.Outcome.Triple.{bind_ok, query_ok, bind_within}
use codery.Command.{open_tables, sync_s6}
use codery.Db.{AppRecord, Tables, insert_app, list_apps, find_app_by_name, port_claimed}
use codery.Db.Valid.{IsValid, insert_app-IsValid}
use codery.Mcp.Apps.{
  AddAppParams, app_record, check_app, require_ok, pause, wait_up, bring_up, refresh_routes,
  check_directory, add_app,
}
use codery.Mcp.Removal.{
  SameApps, same_refl, same_trans, refresh-SameApps, pause-SameApps, exec-SameApps, synced,
  require_passed,
}
use codery.S6.{is_runtime, bundle_of}
use codery.S6.Sync.{wanted, wanted-distinct}
use codery.World.{World, System, on_tables}

-- The row of an app that is added.
abbrev pub added_row : (Assoc Text → Text) → Text → AddAppParams → AppRecord
added_row to_json now p = record (app_record to_json p) { created_at = now }

find_first_lem :
    (a : AppRecord) (apps : List AppRecord)
    → Distinct (λ b. b.name) apps
    → In a apps
    → find_first (λ b. b.name == a.name) apps ≡ some a
find_first_lem a [] d m = absurd m
find_first_lem a (b ∷ apps) d (inl e) =
    subst (λ c. find_first (λ d. d.name == c.name) (b ∷ apps) ≡ some c) e (rw (==_refl b.name) refl)
find_first_lem a (b ∷ apps) (ne, d) (inr m) =
    rw (==_ne b.name a.name (λ e. All-In (λ c. c.name ≢ b.name) apps a ne m (sym e)))
      (find_first_lem a apps d m)

wanted_lem :
    (read_json : Text → Option (Assoc Text)) (a : AppRecord) (apps : List AppRecord)
    → Distinct (λ b. b.name) apps
    → In a apps
    → wanted read_json apps a.name ≡ (if is_runtime a then some (bundle_of read_json a) else none)
unfolding wanted
wanted_lem read_json a [] d m = absurd m
wanted_lem read_json a (b ∷ apps) (ne, d) (inl e) =
    subst
      (λ c.
        wanted read_json (b ∷ apps) c.name
        ≡ (if is_runtime c then some (bundle_of read_json c) else none))
      e
      (elim (Bool-cases (is_runtime b)) [
        | inl r ↦ rw (r, ==_refl b.name) refl
        | inr r ↦ rw r (wanted-distinct read_json b.name apps ne)
      ])
wanted_lem read_json a (b ∷ apps) (ne, d) (inr m) =
    rw (==_ne b.name a.name (λ e. All-In (λ c. c.name ≢ b.name) apps a ne m (sym e)))
      (elim (Bool-cases (is_runtime b)) [
        | inl r ↦ rw r (wanted_lem read_json a apps d m)
        | inr r ↦ rw r (wanted_lem read_json a apps d m)
      ])

inserted :
    (now : Text) (app : AppRecord) (t : Tables)
    → (insert_app now app t).0 ≡ ok tt
    → In (record app { created_at = now }) (list_apps (insert_app now app t).1)
unfolding insert_app list_apps
inserted now app t h =
    elim (Bool-cases (any (λ a. a.name == app.name || a.subdomain == app.subdomain) t.apps)) [
      | inl e ↦ let k : err constraint ≡ ok tt = rw e at h in cc
      | inr e ↦ rw e ((In-sort_by (λ a. a.name) _ _).1 ((In-append _ t.apps _).1 (inr (inl refl))))
    ]

port_free :
    (t : Tables) (p : AddAppParams) → check_app t p ≡ ok tt → port_claimed t p.internal_port ≡ false
unfolding check_app
port_free t p h = elim (Bool-cases (port_claimed t p.internal_port)) [
  | inl e ↦ let k : err constraint ≡ ok tt = rw e at h in cc
  | inr e ↦ e
]

module _ {D : Type 0} (sys : System D) where
  choose-SameApps :
      (b : Bool) (u w : World D) (m : World D → Bool × World D)
      → SameApps sys u w
      → SameApps sys w (m w).1
      → SameApps sys u (elim b as (λ c. Bool × World D) [ true ↦ (true, w) | false ↦ m w ]).1
  choose-SameApps true u w m h k = h
  choose-SameApps false u w m h k = same_trans sys u w _ h k

  wait-SameApps : (n : ℕ) (svc : Text) (w : World D) → SameApps sys w (wait_up sys n svc w).1
  unfolding wait_up
  wait-SameApps zero svc w = same_refl sys w
  wait-SameApps (suc n) svc w =
      let slept = (pause sys 500 w).1 in
      choose-SameApps _ w _ (wait_up sys n svc)
        (same_trans sys w slept _ (pause-SameApps sys 500 w) (exec-SameApps sys _ _ slept))
        (wait-SameApps n svc _)

  bring_up-SameApps : (name : Text) (w : World D) → SameApps sys w (bring_up sys name w).1
  unfolding bring_up
  bring_up-SameApps name =
      bind_within (SameApps sys) (same_refl sys) (same_trans sys) _ _ (exec-SameApps sys _ _)
        (λ linked w. wait-SameApps 10 _ w)

  require-SameApps : (b : Bool) (w : World D) → SameApps sys w (require_ok sys b w).1
  unfolding require_ok codery.Base.fail codery.Base.pure
  require-SameApps true w = same_refl sys w
  require-SameApps false w = same_refl sys w

  check-SameApps :
      (directory : Text) (w : World D) → SameApps sys w (check_directory sys directory w).1
  unfolding check_directory
  check-SameApps directory =
      bind_within (SameApps sys) (same_refl sys) (same_trans sys) _ _ (exec-SameApps sys _ _)
        (λ out w. require-SameApps _ w)

  -- What follows the bundles: supervision, where the app is a runtime app, and the routes.
  end-SameApps :
      (b : Bool) (name : Text) (w : World D)
      → SameApps sys w (((if b then bring_up sys name else pure tt) >> refresh_routes sys) w).1
  unfolding codery.Base.pure
  end-SameApps b name =
      bind_within (SameApps sys) (same_refl sys) (same_trans sys) _ _
        (λ w. elim (Bool-cases b) [
          | inl e ↦ rw e (bring_up-SameApps name w)
          | inr e ↦ rw e (same_refl sys w)
        ])
        (λ u. refresh-SameApps sys)

  -- With distinct names of the apps: after an addition that succeeds the port had not been claimed,
  -- the app is found as it was given, and its bundle is there exactly if it is a runtime app.
  pub add_app_done :
      (p : AddAppParams) (w v : World D)
      → IsValid w.tables
      → add_app sys p w ≡ (ok tt, v)
      → (port_claimed w.tables p.internal_port ≡ false)
        × (find_app_by_name v.tables p.name ≡ some (added_row sys.to_json sys.now p))
        × (lookup p.name v.bundles ≡ (
            if is_runtime (app_record sys.to_json p)
            then some (bundle_of sys.read_json (added_row sys.to_json sys.now p))
            else none))
  unfolding add_app app_record open_tables on_tables list_apps find_app_by_name
  add_app_done p w v valid h =
      let (b, h1) = require_passed sys _ _ w v h in
      let (u2, e2, h2) = bind_ok _ _ w tt v h1 in
      let (u3, e3, h3) = query_ok _ _ _ tt v h2 in
      let (u4, e4, h4) = query_ok _ _ _ tt v h3 in
      let (u5, e5, h5) = bind_ok _ _ _ tt v h4 in
      let (u6, e6, h6) = bind_ok _ _ _ tt v h5 in
      let checked = (check_directory sys p.directory w).1 in
      let before = (check-SameApps p.directory w).tables in
      let added = (on_tables (insert_app sys.now (app_record sys.to_json p)) checked).1 in
      let settled = (sync_s6 sys added).1 in
      let valid_added =
        insert_app-IsValid sys.now (app_record sys.to_json p) checked.tables
          (subst IsValid (sym before) valid) in
      let names = sort_by-Distinct (λ a. a.name) added.tables.apps valid_added.names in
      let (t, g) = synced sys p.name added settled names (λ i. (e6 i, settled)) in
      let same = end-SameApps _ p.name settled in
      let here = inserted sys.now (app_record sys.to_json p) checked.tables e5 in
      (
        subst (λ s. port_claimed s p.internal_port ≡ false) before (port_free checked.tables p e4),
        ap (λ o. find_app_by_name o.1.tables p.name) (sym h6)
            ∙ ap (λ s. find_app_by_name s p.name) (same.tables ∙ t)
            ∙ find_first_lem (added_row sys.to_json sys.now p) _ names here,
        ap (λ o. lookup p.name o.1.bundles) (sym h6)
            ∙ ap (lookup p.name) same.bundles
            ∙ g
            ∙ wanted_lem sys.read_json (added_row sys.to_json sys.now p) _ names here,
      )
