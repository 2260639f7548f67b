-- ===== src/Deploy/Flow/Safety.antt =====
-- The safety of blue/green deployment: no procedure of deploy.rs leaves the routed container down.
use codery.Base.{◌≡◌, refl, inl, inr, Option, none, some, List, [], ◌∷◌, Text}
use codery.Base.Outcome.Triple.{Post, triple_weaken, post_state}
use codery.Config.{Color, flip}
use codery.Deploy.Deps.{DeployDeps, IsLawful}
use codery.Deploy.Flow.{
  Inspection, deploy_service, run_start_inactive, run_cancel_inactive, run_cutover,
}
use codery.Deploy.Flow.Live.{LiveAt, Live, Held, Either}
use codery.Deploy.Flow.Outcomes.{
  Deployed, Chosen, deploy_service_triple, run_start_inactive_triple, run_cancel_inactive_triple,
  run_cutover_triple,
}
use codery.ServiceDef.{ServiceDef}

-- The procedures that an operator or the daemon runs on one service.
pub data Procedure : Type 0 where
  deploys stages : Text → Procedure
  cuts_over : Option Text → Option Text → Procedure
  cancels : Procedure

module _ {S : Type 0} (deps : DeployDeps S) (look : Inspection S) (def : ServiceDef) where
  -- The state that a procedure leaves, whether it succeeds or fails.
  unfoldable pub after_procedure : Procedure → S → S
  after_procedure (deploys sha) s = (deploy_service deps def sha s).1
  after_procedure (stages sha) s = (run_start_inactive deps def sha s).1
  after_procedure (cuts_over sha_opt preview) s = (run_cutover deps look def sha_opt preview s).1
  after_procedure cancels s = (run_cancel_inactive deps def s).1

  pub history : List Procedure → S → S
  history [] s = s
  history (p ∷ ps) s = history ps (after_procedure p s)

module _ {S : Type 0} (deps : DeployDeps S) (law : IsLawful deps) (def : ServiceDef) where
  -- For methods that keep the laws: a deploy that starts with the recorded container running ends
  -- in one of these states. On success, either that container still runs and already had the
  -- wanted SHA on record, or the container of the other color runs, its color is the recorded one
  -- and the new SHA is on record. On failure, the color on record is one of the two, and the
  -- container of that color runs.
  pub deploy_service_outcome :
      (sha : Text) (c : Color) (r : Option Text) (s : S)
      → LiveAt deps def.service c s
      → deps.read_active_sha def.service s ≡ r
      → Post
          (λ _ t. Deployed deps law def c r sha t)
          (Either deps law def c)
          (deploy_service deps def sha s)
  deploy_service_outcome sha c r s h e = (deploy_service_triple deps law def c r sha).at s (h, e)

  -- For methods that keep the laws: a preview that starts with the recorded container running
  -- leaves, on success and on failure, the recorded color, the recorded SHA and the running
  -- container as they were; its result is the opposite color.
  pub run_start_inactive_outcome :
      (sha : Text) (c : Color) (r : Option Text) (s : S)
      → LiveAt deps def.service c s
      → deps.read_active_sha def.service s ≡ r
      → Post
          (λ d t. Held deps law def.service c r t × (d ≡ flip c))
          (Held deps law def.service c r)
          (run_start_inactive deps def sha s)
  run_start_inactive_outcome sha c r s h e =
      (run_start_inactive_triple deps law def c r sha).at s (h, e)

  half-Live : (c : Color) (t : S) → Either deps law def c t → Live deps def.service t
  half-Live c t (inl h) = (c, h)
  half-Live c t (inr h) = (flip c, h)

  Deployed-Live :
      (c : Color) (r : Option Text) (sha : Text) (t : S)
      → Deployed deps law def c r sha t
      → Live deps def.service t
  Deployed-Live c r sha t (inl h) = (c, h.0.0)
  Deployed-Live c r sha t (inr h) = (flip c, h.0)

  Chosen-Live :
      (c : Color) (r sha_opt preview : Option Text) (t : S)
      → Chosen deps law def c r sha_opt preview t
      → Live deps def.service t
  Chosen-Live c r (some sha) preview t h = (flip c, h.0)
  Chosen-Live c r none (some p) t h = (flip c, h.0)
  Chosen-Live c r none none t (inl h) = (c, h.0)
  Chosen-Live c r none none t (inr (sha, h)) = (flip c, h.0)

  module _ (look : Inspection S) where
    pub after_procedure-Live :
        (p : Procedure) (s : S)
        → Live deps def.service s
        → Live deps def.service (after_procedure deps look def p s)
    unfolding after_procedure
    after_procedure-Live (deploys sha) s (c, h) =
        post_state (Live deps def.service)
          (triple_weaken (deploy_service_triple deps law def c _ sha)
            (λ _ t k. Deployed-Live c _ sha t k) (half-Live c))
          s (h, refl)
    after_procedure-Live (stages sha) s (c, h) =
        post_state (Live deps def.service)
          (triple_weaken (run_start_inactive_triple deps law def c _ sha) (λ _ t k. (c, k.0.0))
            (λ t k. (c, k.0)))
          s (h, refl)
    after_procedure-Live (cuts_over sha_opt preview) s (c, h) =
        post_state (Live deps def.service)
          (triple_weaken (run_cutover_triple deps law def look c _ sha_opt preview)
            (λ _ t k. Chosen-Live c _ sha_opt preview t k) (half-Live c))
          s (h, refl)
    after_procedure-Live cancels s (c, h) =
        post_state (Live deps def.service)
          (triple_weaken (run_cancel_inactive_triple deps law def c _) (λ _ t k. (c, k.0))
            (λ t k. (c, k.0)))
          s (h, refl)

    -- For methods that keep the laws: whatever deploys, previews, cutovers and cancels are run in
    -- a row, and wherever each of them fails, if the container of the recorded color ran before,
    -- the container of the color that is recorded afterwards runs.
    pub history-Live :
        (ps : List Procedure) (s : S)
        → Live deps def.service s
        → Live deps def.service (history deps look def ps s)
    unfolding history
    history-Live [] s h = h
    history-Live (p ∷ ps) s h =
        history-Live ps (after_procedure deps look def p s) (after_procedure-Live p s h)
