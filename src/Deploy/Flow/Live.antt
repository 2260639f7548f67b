-- ===== src/Deploy/Flow/Live.antt =====
-- The container that the state files route to keeps running through every procedure of a deploy.
use codery.Base.{
  ◌≡◌, sym, ap, ◌∙◌, subst, ◌≢◌, ◌⊎◌, inl, inr, true, Option, none, some, if◌then◌else◌, Text, trim,
  is_empty, not_running, ok, Exec,
}
use codery.Base.Outcome.Triple.{
  Triple, triple_weaken, triple_pre, triple_of_state, triple_query, triple_fail, triple_if,
  triple_bind, triple_by_result,
}
use codery.Config.{Color, flip, container_name}
use codery.Config.Laws.{flip-ne, flip-flip, container_name_inj}
use codery.Deploy.Deps.{DeployDeps, Unchanged, Only, IsLawful}
use codery.Deploy.Flow.{start_inactive, switch_over, cutover}
use codery.ServiceDef.{ServiceDef}

module _ {S : Type 0} (deps : DeployDeps S) where
  -- A color is the recorded one, and its container runs.
  pub record LiveAt (service : Text) (c : Color) (s : S) : Type 0 where
    pub color : deps.read_active service s ≡ ok c
    pub running : deps.container_running (container_name service c) s ≡ ok true

  abbrev pub Live : Text → S → Type 0
  Live service s = (c : Color) × LiveAt service c s

module _ {S : Type 0} (deps : DeployDeps S) (law : IsLawful deps) (service : Text) where
  Unchanged-LiveAt :
      (c : Color) (s t : S) → Unchanged deps s t → LiveAt deps service c s → LiveAt deps service c t
  Unchanged-LiveAt c s t u h = record {
    color = u.color service ∙ h.color;
    running = u.running (container_name service c) ∙ h.running;
  }

  other_name : (c : Color) → container_name service c ≢ container_name service (flip c)
  other_name c e = flip-ne c (sym (container_name_inj service service c (flip c) e).1)

  Only-LiveAt :
      (c : Color) (s t : S)
      → Only deps (container_name service (flip c)) s t
      → LiveAt deps service c s
      → LiveAt deps service c t
  Only-LiveAt c s t u h = record {
    color = u.color service ∙ h.color;
    running = u.others (container_name service c) (other_name c) ∙ h.running;
  }

  -- Live at a color, with a SHA recorded.
  abbrev pub Held : Color → Option Text → S → Type 0
  Held c r s = LiveAt deps service c s × (deps.read_active_sha service s ≡ r)

  Unchanged-Held :
      (c : Color) (r : Option Text) (s t : S) → Unchanged deps s t → Held c r s → Held c r t
  Unchanged-Held c r s t u h = (Unchanged-LiveAt c s t u h.0, u.sha service ∙ h.1)

  Only-Held :
      (c : Color) (r : Option Text) (s t : S)
      → Only deps (container_name service (flip c)) s t
      → Held c r s
      → Held c r t
  Only-Held c r s t u h = (Only-LiveAt c s t u h.0, u.sha service ∙ h.1)

  pub Unchanged-triple :
      {A : Type 0} (c : Color) (r : Option Text) (m : Exec S A)
      → ((s : S) → Unchanged deps s (m s).1)
      → Triple (Held c r) m (λ _ s. Held c r s) (Held c r)
  Unchanged-triple c r m u =
      triple_of_state {P = Held c r} {R = Held c r} (λ s h. Unchanged-Held c r s (m s).1 (u s) h)

  pub Only-triple :
      {A : Type 0} (c : Color) (r : Option Text) (m : Exec S A)
      → ((s : S) → Only deps (container_name service (flip c)) s (m s).1)
      → Triple (Held c r) m (λ _ s. Held c r s) (Held c r)
  Only-triple c r m u =
      triple_of_state {P = Held c r} {R = Held c r} (λ s h. Only-Held c r s (m s).1 (u s) h)

  -- The other color of a pair that has been switched.
  pub Only-flipped :
      {A : Type 0} (c : Color) (r : Option Text) (m : Exec S A)
      → ((s : S) → Only deps (container_name service c) s (m s).1)
      → Triple (Held (flip c) r) m (λ _ s. Held (flip c) r s) (Held (flip c) r)
  Only-flipped c r m u =
      Only-triple (flip c) r m (
        subst (λ d. (s : S) → Only deps (container_name service d) s (m s).1) (sym (flip-flip c)) u)

module _ {S : Type 0} (deps : DeployDeps S) (law : IsLawful deps) (def : ServiceDef) where
  pub start_inactive_triple :
      (c : Color) (r : Option Text) (sha : Text)
      → Triple
          (Held deps law def.service c r)
          (start_inactive deps def sha (flip c))
          (λ _ s. Held deps law def.service c r s)
          (Held deps law def.service c r)
  unfolding start_inactive
  start_inactive_triple c r sha =
      triple_bind (Unchanged-triple deps law def.service c r _ (law.validate_law def sha (flip c)))
        λ _. triple_bind (Only-triple deps law def.service c r _ (law.remove_law _)) λ _.
          triple_bind (Unchanged-triple deps law def.service c r _ law.nginx_law) λ _.
            triple_bind (Only-triple deps law def.service c r _ (law.start_law def sha (flip c)))
              λ _. Only-triple deps law def.service c r _ (law.health_law def (flip c))

  -- What a cutover leaves when it stops half way: the old color or the new one is live.
  abbrev pub Either : Color → S → Type 0
  Either c s = LiveAt deps def.service c s ⊎ LiveAt deps def.service (flip c) s

  -- What `read_active_sha` gives for a SHA that was written.
  abbrev pub recorded : Text → Option Text
  recorded sha = if is_empty (trim sha) then none else some (trim sha)

  -- The inactive container was just seen running.
  abbrev pub Verified : Color → Option Text → S → Type 0
  Verified c r s =
      Held deps law def.service c r s
      × (deps.container_running (container_name def.service (flip c)) s ≡ ok true)

  pub write_active_triple :
      (c : Color) (r : Option Text)
      → Triple
          (Verified c r)
          (deps.write_active def.service (flip c))
          (λ _ s. LiveAt deps def.service (flip c) s)
          (Either c)
  write_active_triple c r =
      triple_by_result
        (λ s h a e. record {
          color = law.write_done def.service (flip c) s e;
          running = law.write_running def.service (flip c) s _ ∙ h.1;
        })
        (λ s h x e. inl (record {
          color = law.write_undone def.service (flip c) s x e ∙ h.0.0.color;
          running = law.write_running def.service (flip c) s _ ∙ h.0.0.running;
        }))

  write_sha_LiveAt :
      (c : Color) (sha : Text) (s : S)
      → LiveAt deps def.service c s
      → LiveAt deps def.service c (deps.write_active_sha def.service sha s).1
  write_sha_LiveAt c sha s h = record {
    color = law.write_sha_color def.service sha s ∙ h.color;
    running = law.write_sha_running def.service sha s _ ∙ h.running;
  }

  pub write_sha_triple :
      (c : Color) (sha : Text)
      → Triple
          (λ s. LiveAt deps def.service (flip c) s)
          (deps.write_active_sha def.service sha)
          (λ _ s. Held deps law def.service (flip c) (recorded sha) s)
          (Either c)
  write_sha_triple c sha =
      triple_by_result
        (λ s h a e. (write_sha_LiveAt (flip c) sha s h, law.write_sha_done def.service sha s e))
        (λ s h x e. inr (write_sha_LiveAt (flip c) sha s h))

  switch_over_triple :
      (c : Color) (r : Option Text) (sha : Text)
      → Triple
          (Verified c r)
          (switch_over deps def sha c (flip c))
          (λ _ s. Held deps law def.service (flip c) (recorded sha) s)
          (Either c)
  unfolding switch_over
  switch_over_triple c r sha = triple_bind (write_active_triple c r) λ _.
      triple_bind (write_sha_triple c sha) λ _.
        triple_weaken
          (triple_bind
            (Unchanged-triple deps law def.service (flip c) (recorded sha) _ law.caddy_law)
            λ _.
              triple_bind (Only-flipped deps law def.service c (recorded sha) _ (law.stop_law _))
                λ _.
                  Unchanged-triple deps law def.service (flip c) (recorded sha) _ (law.prune_law _))
          (λ a s h. h) (λ s h. inr h.0)

  pub cutover_triple :
      (c : Color) (r : Option Text) (sha : Text)
      → Triple
          (Held deps law def.service c r)
          (cutover deps def sha c (flip c))
          (λ _ s. Held deps law def.service (flip c) (recorded sha) s)
          (Either c)
  unfolding cutover
  cutover_triple c r sha =
      triple_bind (triple_weaken (triple_query _ _) (λ a s h. h) (λ s h. inl h.0)) λ running.
        triple_if running
          (λ e. triple_pre (λ s h. (h.0, h.1 ∙ ap ok e)) (switch_over_triple c r sha))
          (λ e. triple_fail not_running (λ s h. inl h.0.0))
