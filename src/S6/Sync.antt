-- ===== src/S6/Sync.antt =====
-- After a synchronisation that succeeds, the bundles are those of the apps that run at run time.
use codery.Base.{
  ◌≡◌, refl, sym, ap, ◌∙◌, subst, ◌≢◌, inl, inr, Bool, true, false, false≢true, ◌&&◌, Option, none,
  some, List, [], ◌∷◌, arith, if◌then◌else◌, Bool-cases, is_some, Text, ◌==◌, ==_iff, ==_ne, retain,
  All, Assoc, lookup, insert, lookup-insert, ok, is_ok,
}
use codery.Base.Lists.Sorted.{Distinct}
use codery.Base.Outcome.Triple.{bind_ok}
use codery.Db.{AppRecord, Tables, list_apps}
use codery.S6.{Bundle, is_runtime, managed, prune_bundles, bundle_of, write_bundles, sync_s6_to_dir}

lookup-prune :
    (removable : Text → Bool) (apps : List AppRecord) (bundles : Assoc Bundle) (name : Text)
    → (prune_bundles removable apps bundles).0 ≡ ok tt
    → lookup name (prune_bundles removable apps bundles).1
      ≡ (if managed apps name then lookup name bundles else none)
unfolding prune_bundles lookup
lookup-prune removable apps [] name h = ground arith
lookup-prune removable apps (e ∷ bundles) name h =
    ground (arith, lookup-prune removable apps bundles name, ==_iff e.0 name)

module _ (read_json : Text → Option (Assoc Text)) where
  -- The bundle that an app of a name has to have.
  unfoldable pub wanted : List AppRecord → Text → Option Bundle
  wanted [] name = none
  wanted (a ∷ apps) name =
      let rest = wanted apps name in
      if is_runtime a && a.name == name then some (bundle_of read_json a) else rest

  pub wanted-distinct :
      (name : Text) (apps : List AppRecord)
      → All (λ b. b.name ≢ name) apps
      → wanted apps name ≡ none
  unfolding wanted
  wanted-distinct name [] h = refl
  wanted-distinct name (b ∷ apps) (ne, h) =
      ground (arith, wanted-distinct name apps h, ==_ne b.name name ne)

  wanted-unmanaged :
      (name : Text) (apps : List AppRecord) → managed apps name ≡ false → wanted apps name ≡ none
  unfolding wanted managed
  wanted-unmanaged name [] h = refl
  wanted-unmanaged name (b ∷ apps) h = ground (arith, wanted-unmanaged name apps)

  wanted-managed :
      (name : Text) (apps : List AppRecord)
      → managed apps name ≡ true
      → is_some (wanted apps name) ≡ true
  unfolding wanted managed
  wanted-managed name [] h = h
  wanted-managed name (b ∷ apps) h = ground (arith, wanted-managed name apps)

  present :
      (a : AppRecord) (name : Text) (o : Option Bundle) (bundles : Assoc Bundle)
      → (a.name ≡ name → o ≡ none)
      → (elim o [
        | none ↦ lookup name (insert a.name (bundle_of read_json a) bundles)
        | some b ↦ some b
      ])
        ≡ elim (if a.name == name then some (bundle_of read_json a) else o) [
          | none ↦ lookup name bundles
          | some b ↦ some b
        ]
  present a name none bundles h = elim (Bool-cases (a.name == name)) [
    | inl e ↦ rw e (lookup-insert a.name name _ bundles ∙ rw e refl)
    | inr e ↦ rw e (lookup-insert a.name name _ bundles ∙ rw e refl)
  ]
  present a name (some b) bundles h = elim (Bool-cases (a.name == name)) [
    | inl e ↦
        let k : some b ≡ none = h ((==_iff a.name name).0 e) in
        absurd (false≢true (sym (ap is_some k)))
    | inr e ↦ rw e refl
  ]

  lookup-write :
      (writable : Text → Bool) (apps : List AppRecord) (bundles : Assoc Bundle) (name : Text)
      → Distinct (λ a. a.name) apps
      → (write_bundles read_json writable (retain (is_runtime) apps) bundles).0 ≡ ok tt
      → lookup name (write_bundles read_json writable (retain (is_runtime) apps) bundles).1
        ≡ elim (wanted apps name) [ none ↦ lookup name bundles | some b ↦ some b ]
  unfolding write_bundles wanted
  lookup-write writable [] bundles name d h = refl
  lookup-write writable (a ∷ apps) bundles name d h = elim (Bool-cases (is_runtime a)) [
    | inr e ↦ rw e (lookup-write writable apps bundles name d.1 (rw e at h))
    | inl e ↦ elim (Bool-cases (writable a.name)) [
      | inr n ↦ absurd (false≢true (ap is_ok (rw (e, n) at h)))
      | inl y ↦
          rw (e, y)
            (lookup-write writable apps _ name d.1 (rw (e, y) at h)
              ∙ present a name (wanted apps name) bundles
                  (λ q. wanted-distinct name apps (subst (λ t. All (λ b. b.name ≢ t) apps) q d.0)))
    ]
  ]

  some_stays :
      (o p : Option Bundle) → is_some o ≡ true → (elim o [ none ↦ p | some b ↦ some b ]) ≡ o
  some_stays none p h = absurd (false≢true h)
  some_stays (some b) p h = refl

  pruned :
      (t : Tables) (before : Assoc Bundle) (name : Text) (removable : Text → Bool)
      → (prune_bundles removable (list_apps t) before).0 ≡ ok tt
      → (elim (wanted (list_apps t) name) [
        | none ↦ lookup name (prune_bundles removable (list_apps t) before).1
        | some b ↦ some b
      ])
        ≡ wanted (list_apps t) name
  pruned t before name removable p = elim (Bool-cases (managed (list_apps t) name)) [
    | inl e ↦ some_stays _ _ (wanted-managed name (list_apps t) e)
    | inr e ↦
        rw (wanted-unmanaged name (list_apps t) e)
          (lookup-prune removable (list_apps t) before name p ∙ rw e refl)
  ]

  -- For apps with distinct names: after a synchronisation that succeeds, each name has exactly the
  -- bundle of the app of this name that is managed at run time, and no bundle if there is none,
  -- whatever bundles there were before.
  pub lookup-sync_s6_to_dir :
      (removable writable : Text → Bool) (t : Tables) (before after : Assoc Bundle) (name : Text)
      → Distinct (λ a. a.name) (list_apps t)
      → sync_s6_to_dir read_json removable writable t before ≡ (ok tt, after)
      → lookup name after ≡ wanted (list_apps t) name
  unfolding sync_s6_to_dir
  lookup-sync_s6_to_dir removable writable t before after name d h =
      let (u, p, q) = bind_ok _ _ before tt after h in
      ap (λ o. lookup name o.1) (sym q)
      ∙ lookup-write writable (list_apps t) _ name d (ap (λ o. o.0) q)
      ∙ pruned t before name removable p
