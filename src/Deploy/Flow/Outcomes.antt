-- ===== src/Deploy/Flow/Outcomes.antt =====
-- What a deploy, a preview, a cutover and a cancel leave behind, on success and on failure.
use codery.Base.{
  ◌≡◌, refl, sym, ap, subst, ◌⊎◌, inl, inr, Bool, true, false, Option, none, some, [],
  if◌then◌else◌, Bool-cases, unwrap_or, Text, ◌==◌, ==_iff, first, no_local_images, stale_preview,
  Result, ok, Exec, step_on, query, ◌>>=◌,
}
use codery.Base.Outcome.Triple.{
  Post, Triple, triple_weaken, triple_pre, triple_query, triple_pure, triple_fail, triple_if,
  triple_bind,
}
use codery.Config.{Color, flip}
use codery.Deploy.Deps.{DeployDeps, IsLawful}
use codery.Deploy.Flow.{
  same_sha, Inspection, redeploy, unless_running, deploy_service, run_start_inactive,
  run_cancel_inactive, start_unless_up, carry_out, run_cutover,
}
use codery.Deploy.Flow.Live.{
  Held, Unchanged-triple, Only-triple, start_inactive_triple, Either, recorded, cutover_triple,
}
use codery.Deploy.Plan.{CutoverPlan, promote, nothing_newer, no_images, stale, plan_cutover}
use codery.Images.{LocalImage}
use codery.ServiceDef.{ServiceDef}

module _ {S : Type 0} (deps : DeployDeps S) (law : IsLawful deps) (def : ServiceDef) where
  abbrev At : Color → Option Text → S → Type 0
  At c r s = Held deps law def.service c r s

  abbrev Half : Color → S → Type 0
  Half c s = Either deps law def c s

  -- What a finished deploy leaves: either the color was kept, because it runs the wanted SHA, or
  -- the other color is live and the new SHA is recorded.
  abbrev pub Deployed : Color → Option Text → Text → S → Type 0
  Deployed c r sha s = (At c r s × (r ≡ some sha)) ⊎ At (flip c) (recorded deps law def sha) s

  -- What a finished cutover leaves: the other color is live with the SHA that was given, or else with
  -- that of the preview, or else with that of some image, unless the color was kept.
  abbrev pub Chosen : Color → Option Text → Option Text → Option Text → S → Type 0
  Chosen c r (some sha) preview s = At (flip c) (recorded deps law def sha) s
  Chosen c r none (some p) s = At (flip c) (recorded deps law def p) s
  Chosen c r none none s = At c r s ⊎ ((sha : Text) × At (flip c) (recorded deps law def sha) s)

  redeploy_triple :
      (c : Color) (r : Option Text) (sha : Text)
      → Triple
          (At c r)
          (redeploy deps def sha c)
          (λ _ s. At (flip c) (recorded deps law def sha) s)
          (Half c)
  unfolding redeploy
  redeploy_triple c r sha =
      triple_bind
        (triple_weaken (start_inactive_triple deps law def c r sha) (λ a s h. h) (λ s h. inl h.0))
        λ _. cutover_triple deps law def c r sha

  same_sha_lem : (r : Option Text) (sha : Text) → same_sha r sha ≡ true → r ≡ some sha
  unfolding same_sha
  same_sha_lem none sha e = cc
  same_sha_lem (some t) sha e = ap some ((==_iff t sha).0 e)

  finish_triple :
      (c : Color) (r : Option Text) (sha : Text) (b : Bool)
      → (b ≡ true → r ≡ some sha)
      → Triple
          (At c r)
          (if b then unless_running deps def sha c else redeploy deps def sha c)
          (λ _ s. Deployed c r sha s)
          (Half c)
  unfolding unless_running
  finish_triple c r sha b k =
      triple_if b
        (λ e.
          triple_bind (triple_weaken (triple_query _ _) (λ a s h. h) (λ s h. inl h.0)) λ running.
            triple_if running (λ _. triple_pure tt (λ s h. inl (h.0, k e)))
              (λ _.
                triple_pre (λ s h. h.0)
                  (triple_weaken (redeploy_triple c r sha) (λ a s h. inr h) (λ s h. h))))
        (λ e. triple_weaken (redeploy_triple c r sha) (λ a s h. inr h) (λ s h. h))

  -- The result of a query is the one that the state determines.
  triple_determined :
      {A B : Type 0} {P : S → Type 0} {Q : B → S → Type 0} {E : S → Type 0} (q : S → Result A)
      (f : A → Exec S B) (a : A)
      → ((s : S) → P s → q s ≡ ok a)
      → Triple P (f a) Q E
      → Triple P (query q >>= f) Q E
  unfolding ◌>>=◌
  triple_determined {Q} {E} q f a k t = record {
    at = λ s h. subst (λ r. Post Q E (step_on (r, s) f)) (sym (k s h)) (t.at s h);
  }

  pub deploy_service_triple :
      (c : Color) (r : Option Text) (sha : Text)
      → Triple (At c r) (deploy_service deps def sha) (λ _ s. Deployed c r sha s) (Half c)
  unfolding deploy_service
  deploy_service_triple c r sha =
      triple_bind
        (triple_weaken (Unchanged-triple deps law def.service c r _ law.preflight_law) (λ a s h. h)
          (λ s h. inl h.0))
        λ _.
          triple_bind
            (triple_weaken
              (Unchanged-triple deps law def.service c r _ (law.network_law def.network))
              (λ a s h. h) (λ s h. inl h.0))
            λ _.
              triple_determined _ _ c (λ s h. h.0.color)
                (triple_determined _ _ r (λ s h. ap ok h.1)
                  (finish_triple c r sha (same_sha r sha) (same_sha_lem r sha)))

  pub run_start_inactive_triple :
      (c : Color) (r : Option Text) (sha : Text)
      → Triple (At c r) (run_start_inactive deps def sha) (λ d s. At c r s × (d ≡ flip c)) (At c r)
  unfolding run_start_inactive
  run_start_inactive_triple c r sha =
      triple_bind (Unchanged-triple deps law def.service c r _ law.preflight_law) λ _.
        triple_bind (Unchanged-triple deps law def.service c r _ (law.network_law def.network)) λ _.
          triple_determined _ _ c (λ s h. h.0.color)
            (triple_bind (start_inactive_triple deps law def c r sha)
              λ _. triple_pure (flip c) (λ s h. (h, refl)))

  pub run_cancel_inactive_triple :
      (c : Color) (r : Option Text)
      → Triple (At c r) (run_cancel_inactive deps def) (λ _ s. At c r s) (At c r)
  unfolding run_cancel_inactive
  run_cancel_inactive_triple c r =
      triple_determined _ _ c (λ s h. h.0.color)
        (triple_bind (Only-triple deps law def.service c r _ (law.stop_law _)) λ _.
          triple_bind (Only-triple deps law def.service c r _ (law.remove_law _))
            λ _. Unchanged-triple deps law def.service c r _ (law.prune_law _))

  module _ (look : Inspection S) where
    start_unless_up_triple :
        (c : Color) (r : Option Text) (sha : Text)
        → Triple (At c r) (start_unless_up deps look def sha (flip c)) (λ _ s. At c r s) (At c r)
    unfolding start_unless_up
    start_unless_up_triple c r sha = triple_bind (triple_query _ _) λ up.
        triple_if up (λ _. triple_pure tt (λ s h. h.0))
          (λ _. triple_pre (λ s h. h.0) (start_inactive_triple deps law def c r sha))

    -- A cutover keeps the color, or promotes the SHA that the plan names.
    abbrev Cut : Color → Option Text → CutoverPlan → S → Type 0
    Cut c r (promote sha staged) s = At (flip c) (recorded deps law def sha) s
    Cut c r (nothing_newer a n) s = At c r s
    Cut c r _ s = ⊥

    carry_out_triple :
        (c : Color) (r : Option Text) (plan : CutoverPlan)
        → Triple (At c r) (carry_out deps look def c plan) (λ _ s. Cut c r plan s) (Half c)
    unfolding carry_out
    carry_out_triple c r (promote sha staged) =
        triple_if staged (λ _. cutover_triple deps law def c r sha)
          (λ _.
            triple_bind
              (triple_weaken (start_unless_up_triple c r sha) (λ a s h. h) (λ s h. inl h.0))
              λ _. cutover_triple deps law def c r sha)
    carry_out_triple c r (nothing_newer a n) = triple_pure tt (λ s h. h)
    carry_out_triple c r no_images = triple_fail no_local_images (λ s h. inl h.0)
    carry_out_triple c r (stale sha) = triple_fail stale_preview (λ s h. inl h.0)

    Cut-Chosen :
        (c : Color) (r : Option Text) (sha_opt preview : Option Text) (staged : Bool)
        (newest : Option LocalImage) (tag : Text) (s : S)
        → Cut c r (plan_cutover sha_opt preview staged newest tag) s
        → Chosen c r sha_opt preview s
    unfolding plan_cutover
    Cut-Chosen c r (some sha) preview staged newest tag s h = h
    Cut-Chosen c r none (some p) true newest tag s h = h
    Cut-Chosen c r none (some p) false newest tag s h = absurd h
    Cut-Chosen c r none none staged none tag s h = absurd h
    Cut-Chosen c r none none staged (some image) tag s h = elim (Bool-cases (image.tag == tag)) [
      | inl e ↦ inl (rw e at h)
      | inr e ↦ inr (image.sha, rw e at h)
    ]

    pub run_cutover_triple :
        (c : Color) (r : Option Text) (sha_opt preview : Option Text)
        → Triple
            (At c r)
            (run_cutover deps look def sha_opt preview)
            (λ _ s. Chosen c r sha_opt preview s)
            (Half c)
    unfolding run_cutover
    run_cutover_triple c r sha_opt preview =
        triple_determined _ _ c (λ s h. h.0.color)
          (triple_bind (looks _) λ staged. triple_bind (looks _) λ images.
            triple_bind (looks _) λ image.
              triple_weaken
                (carry_out_triple c r
                  (plan_cutover sha_opt preview staged (first images) (unwrap_or image [])))
                (λ a s h. Cut-Chosen c r sha_opt preview staged _ _ s h) (λ s h. h))
      where
        looks :
            {A : Type 0} (q : S → Result A) → Triple (At c r) (query q) (λ _ s. At c r s) (Half c)
        looks q = triple_weaken (triple_query (At c r) q) (λ a s h. h.0) (λ s h. inl h.0)
