-- ===== src/Db/Valid.antt =====
-- The constraints of the schema hold after every statement of the program.
use codery.Base.{
  ◌≡◌, sym, ◌∙◌, ◌≢◌, inl, inr, false, false≢true, not, ◌&&◌, ◌||◌, List, [], ◌∷◌, map, arith,
  Bool-cases, Text, ◌==◌, ==_iff, any, All,
}
use codery.Base.Lists.Sorted.{
  Distinct, any-All, All-weaken, Distinct-retain, Distinct-append, Distinct-map,
}
use codery.Db.{
  AppRecord, PreviewRecord, Tables, insert_app, delete_app, set_app_source, upsert_preview,
  delete_preview, overwrite,
}

pub record IsValid (t : Tables) : Type 0 where
  pub names : Distinct (λ a. a.name) t.apps
  pub subdomains : Distinct (λ a. a.subdomain) t.apps
  pub services : Distinct (λ p. p.service) t.previews
  pub preview_subdomains : Distinct (λ p. p.subdomain) t.previews

differs : (s t : Text) → (s == t) ≡ false → s ≢ t
differs s t h e = false≢true (sym h ∙ (==_iff s t).1 e)

pub insert_app-IsValid :
    (now : Text) (app : AppRecord) (t : Tables) → IsValid t → IsValid (insert_app now app t).1
unfolding insert_app
insert_app-IsValid now app t v =
    elim (Bool-cases (any (λ a. a.name == app.name || a.subdomain == app.subdomain) t.apps)) [
      | inl e ↦ rw e v
      | inr e ↦
          let fresh = any-All (λ a. a.name == app.name || a.subdomain == app.subdomain) t.apps e in
          rw e (record {
            names =
                Distinct-append (λ a. a.name) t.apps _ v.names
                  (All-weaken _ (λ a. a.name ≢ app.name) t.apps (λ a h. differs _ _ (ground arith))
                    fresh);
            subdomains =
                Distinct-append (λ a. a.subdomain) t.apps _ v.subdomains
                  (All-weaken _ (λ a. a.subdomain ≢ app.subdomain) t.apps
                    (λ a h. differs _ _ (ground arith)) fresh);
            services = v.services;
            preview_subdomains = v.preview_subdomains;
          })
    ]

pub delete_app-IsValid : (name : Text) (t : Tables) → IsValid t → IsValid (delete_app name t).1
unfolding delete_app
delete_app-IsValid name t v = record {
  names = Distinct-retain (λ a. a.name) _ t.apps v.names;
  subdomains = Distinct-retain (λ a. a.subdomain) _ t.apps v.subdomains;
  services = v.services;
  preview_subdomains = v.preview_subdomains;
}

pub set_app_source-IsValid :
    (name source : Text) (t : Tables) → IsValid t → IsValid (set_app_source name source t).1
unfolding set_app_source
set_app_source-IsValid name source t v = record {
  names = Distinct-map (λ a. a.name) _ t.apps (λ a. ground arith) v.names;
  subdomains = Distinct-map (λ a. a.subdomain) _ t.apps (λ a. ground arith) v.subdomains;
  services = v.services;
  preview_subdomains = v.preview_subdomains;
}

pub delete_preview-IsValid :
    (service : Text) (t : Tables) → IsValid t → IsValid (delete_preview service t).1
unfolding delete_preview
delete_preview-IsValid service t v = record {
  names = v.names;
  subdomains = v.subdomains;
  services = Distinct-retain (λ p. p.service) _ t.previews v.services;
  preview_subdomains = Distinct-retain (λ p. p.subdomain) _ t.previews v.preview_subdomains;
}

service-overwrite : (p q : PreviewRecord) → (overwrite p q).service ≡ q.service
unfolding overwrite
service-overwrite p q = ground (arith, ==_iff q.service p.service)

-- No row of another service has the subdomain of `p`.
abbrev Apart : PreviewRecord → PreviewRecord → Type 0
Apart p q = (q.subdomain == p.subdomain && not (q.service == p.service)) ≡ false

overwrite-Apart :
    (p q y : PreviewRecord)
    → y.service ≢ q.service
    → y.subdomain ≢ q.subdomain
    → Apart p q
    → Apart p y
    → (overwrite p y).subdomain ≢ (overwrite p q).subdomain
unfolding overwrite
overwrite-Apart p q y a b hq hy e = ground (
  arith,
  ==_iff y.service p.service,
  ==_iff q.service p.service,
  ==_iff y.subdomain p.subdomain,
  ==_iff q.subdomain p.subdomain,
)

overwrite-All :
    (p q : PreviewRecord) (ys : List PreviewRecord)
    → Apart p q
    → All (λ y. y.service ≢ q.service) ys
    → All (λ y. y.subdomain ≢ q.subdomain) ys
    → All (Apart p) ys
    → All (λ y. y.subdomain ≢ (overwrite p q).subdomain) (map (overwrite p) ys)
overwrite-All p q [] hq a b h = tt
overwrite-All p q (y ∷ ys) hq a b h =
    (overwrite-Apart p q y a.0 b.0 hq h.0, overwrite-All p q ys hq a.1 b.1 h.1)

overwrite-Distinct :
    (p : PreviewRecord) (qs : List PreviewRecord)
    → Distinct (λ q. q.service) qs
    → Distinct (λ q. q.subdomain) qs
    → All (Apart p) qs
    → Distinct (λ q. q.subdomain) (map (overwrite p) qs)
overwrite-Distinct p [] d u h = tt
overwrite-Distinct p (q ∷ qs) d u h =
    (overwrite-All p q qs h.0 d.0 u.0 h.1, overwrite-Distinct p qs d.1 u.1 h.1)

-- A row that is added has a new service, so no row has its subdomain.
added-Apart :
    (p q : PreviewRecord) → Apart p q → (q.service == p.service) ≡ false → q.subdomain ≢ p.subdomain
added-Apart p q h k e = ground (arith, ==_iff q.subdomain p.subdomain)

added-All :
    (p : PreviewRecord) (qs : List PreviewRecord)
    → All (Apart p) qs
    → All (λ q. (q.service == p.service) ≡ false) qs
    → All (λ q. q.subdomain ≢ p.subdomain) qs
added-All p [] h k = tt
added-All p (q ∷ qs) h k = (added-Apart p q h.0 k.0, added-All p qs h.1 k.1)

pub upsert_preview-IsValid :
    (now : Text) (p : PreviewRecord) (t : Tables) → IsValid t → IsValid (upsert_preview now p t).1
unfolding upsert_preview
upsert_preview-IsValid now p t v =
    elim (Bool-cases
      (any (λ q. q.subdomain == p.subdomain && not (q.service == p.service)) t.previews)) [
        | inl e ↦ rw e v
        | inr e ↦
            let apart =
              any-All (λ q. q.subdomain == p.subdomain && not (q.service == p.service)) t.previews
                e in
            rw e (elim (Bool-cases (any (λ q. q.service == p.service) t.previews)) [
              | inl f ↦ rw f (record {
                names = v.names;
                subdomains = v.subdomains;
                services =
                    Distinct-map (λ q. q.service) (overwrite p) t.previews (service-overwrite p)
                      v.services;
                preview_subdomains =
                    overwrite-Distinct p t.previews v.services v.preview_subdomains apart;
              })
              | inr f ↦
                  let fresh = any-All (λ q. q.service == p.service) t.previews f in
                  rw f (record {
                    names = v.names;
                    subdomains = v.subdomains;
                    services =
                        Distinct-append (λ q. q.service) t.previews _ v.services
                          (All-weaken _ (λ q. q.service ≢ p.service) t.previews
                            (λ q h. differs _ _ h) fresh);
                    preview_subdomains =
                        Distinct-append (λ q. q.subdomain) t.previews _ v.preview_subdomains
                          (added-All p t.previews apart fresh);
                  })
            ])
      ]

-- The statements that change a table.
pub data Statement : Type 0 where
  inserts : Text → AppRecord → Statement
  deletes_app deletes_preview : Text → Statement
  sets_source : Text → Text → Statement
  upserts : Text → PreviewRecord → Statement

pub execute : Statement → Tables → Tables
execute (inserts now app) t = (insert_app now app t).1
execute (deletes_app name) t = (delete_app name t).1
execute (deletes_preview service) t = (delete_preview service t).1
execute (sets_source name source) t = (set_app_source name source t).1
execute (upserts now p) t = (upsert_preview now p t).1

pub execute_all : List Statement → Tables → Tables
execute_all [] t = t
execute_all (q ∷ qs) t = execute_all qs (execute q t)

execute-IsValid : (q : Statement) (t : Tables) → IsValid t → IsValid (execute q t)
unfolding execute
execute-IsValid (inserts now app) t v = insert_app-IsValid now app t v
execute-IsValid (deletes_app name) t v = delete_app-IsValid name t v
execute-IsValid (deletes_preview service) t v = delete_preview-IsValid service t v
execute-IsValid (sets_source name source) t v = set_app_source-IsValid name source t v
execute-IsValid (upserts now p) t v = upsert_preview-IsValid now p t v

-- If names and subdomains of the apps, and services and subdomains of the previews, are distinct,
-- they stay so through any sequence of the program's statements, those that fail included.
pub execute_all-IsValid :
    (qs : List Statement) (t : Tables) → IsValid t → IsValid (execute_all qs t)
unfolding execute_all
execute_all-IsValid [] t v = v
execute_all-IsValid (q ∷ qs) t v = execute_all-IsValid qs (execute q t) (execute-IsValid q t v)
