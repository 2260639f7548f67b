-- ===== src/Mcp/Services.antt =====
-- Writing and reading the definition of a service.
use codery.Base.{
  ℕ, ◌≡◌, refl, sym, ap, ◌∙◌, subst, Bool, true, false, Option, none, some, ◌++◌, arith,
  if◌then◌else◌, Text, codes, ==_iff, ==_refl, Error, invalid_name, Result, ok, err, bind_result,
  ok_or,
}
use codery.Base.Outcome.Triple.{bind_ok, query_ok}
use codery.Deploy.Real.{load_definition}
use codery.Files.{content, Files, read_to_string, write, rename}
use codery.Files.Laws.{entry-write_self}
use codery.Mcp.{
  validate_service_name, service_path, service_guidance, get_service, upsert_service, or_not_found,
}
use codery.ServiceDef.{ServiceDef}
use codery.ServiceDef.Load.{definition_path, load}
use codery.World.{World, System, on_files}

rename_self :
    (a b : Text) (fs fs' : Files) → rename a b fs ≡ (ok tt, fs') → fs'.entry b ≡ fs.entry a
unfolding rename
rename_self a b fs fs' h = ground (arith, ==_refl b)

read-content :
    (fs : Files) (path text : Text)
    → fs.entry path ≡ content text
    → read_to_string fs path ≡ ok text
unfolding read_to_string
read-content fs path text h = rw (read_to_string, h) refl

path_known :
    (f : ℕ → Bool) (name path : Text)
    → validate_service_name f name ≡ ok tt
    → service_path f name ≡ ok path
    → definition_path name ≡ path
unfolding service_path
path_known f name path v h = let k : ok (definition_path name) ≡ ok path = rw v at h in cc

ok_or-some : {A : Type 0} (o : Option A) (e : Error) (a : A) → ok_or o e ≡ ok a → o ≡ some a
ok_or-some none e a h = cc
ok_or-some (some b) e a h = cc

guard_ok :
    (b : Bool) (o : Result (Unit {0}))
    → (if b then ok tt else err invalid_name) ≡ o
    → o ≡ ok tt
    → b ≡ true
guard_ok true o h k = refl
guard_ok false o h k = cc

written :
    {D : Type 0} (path yaml : Text) (w u v : World D)
    → on_files (write (path ++ codes ".tmp") yaml) w ≡ (ok tt, u)
    → on_files (rename (path ++ codes ".tmp") path) u ≡ (ok tt, v)
    → read_to_string v.files path ≡ ok yaml
unfolding on_files
written path yaml w u v a b = read-content v.files path yaml (
    rename_self (path ++ codes ".tmp") path u.files v.files (λ i. ((b i).0, (b i).1.files))
    ∙ entry-write_self (path ++ codes ".tmp") yaml w.files u.files (λ i. ((a i).0, (a i).1.files)))

module _ {D : Type 0} (sys : System D) (name yaml : Text) (v : World D) where
  load_known :
      (def : ServiceDef)
      → read_to_string v.files (definition_path name) ≡ ok yaml
      → sys.from_str yaml ≡ some def
      → load_definition sys name v ≡ ok def
  unfolding load_definition load
  load_known def r f = rw (r, f) refl

  get_known :
      (path : Text)
      → service_path sys.is_alphanumeric name ≡ ok path
      → read_to_string v.files path ≡ ok yaml
      → get_service sys name v ≡ ok (yaml ++ service_guidance)
  unfolding get_service or_not_found
  get_known path p r =
      let shown : Result Text → Result Text =
        λ o. bind_result (or_not_found o) (λ text. ok (text ++ service_guidance)) in
      ap (λ o. bind_result o (λ q. shown (read_to_string v.files q))) p ∙ ap shown r

-- After a definition is written, which succeeds only for a text that the YAML reader takes for a
-- definition of this very service: every procedure that loads the definition gets this one, and the
-- tool that shows it gives this text with the guidance behind it.
pub load-upsert_service :
    {D : Type 0} (sys : System D) (name yaml : Text) (w v : World D)
    → upsert_service sys name yaml w ≡ (ok tt, v)
    → (def : ServiceDef) × (sys.from_str yaml ≡ some def)
      × (def.service ≡ name)
      × (load_definition sys name v ≡ ok def)
      × (get_service sys name v ≡ ok (yaml ++ service_guidance))
unfolding upsert_service
load-upsert_service sys name yaml w v h =
    let (u1, e1, h1) = query_ok _ _ w tt v h in
    let (def, e2, h2) = query_ok _ _ w tt v h1 in
    let (u3, e3, h3) = query_ok _ _ w tt v h2 in
    let (path, e4, h4) = query_ok _ _ w tt v h3 in
    let (u5, e5, h5) = bind_ok _ _ w tt v h4 in
    let found : sys.from_str yaml ≡ some def = ok_or-some _ _ def e2 in
    let read : read_to_string v.files path ≡ ok yaml =
      written path yaml w (on_files (write (path ++ codes ".tmp") yaml) w).1 v
        (λ i. (e5 i, (on_files (write (path ++ codes ".tmp") yaml) w).1)) h5 in
    (
      def,
      found,
      (==_iff def.service name).0 (guard_ok _ _ e3 refl),
      load_known sys name yaml v def
          (subst (λ q. read_to_string v.files q ≡ ok yaml)
            (sym (path_known sys.is_alphanumeric name path e1 e4)) read)
          found,
      get_known sys name yaml v path e4 read,
    )
