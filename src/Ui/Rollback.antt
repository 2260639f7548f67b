-- ===== src/Ui/Rollback.antt =====
-- A rollback keeps the recorded container of its service running.
use codery.Base.{
  ◌≡◌, refl, sym, ap, ◌∙◌, ◌⊎◌, inl, inr, true, false≢true, Option, Bool-cases, Text,
  health_timeout, Result, ok, err, is_ok, ◌>>◌,
}
use codery.Base.Outcome.Triple.{
  Post, Triple, triple_weaken, triple_query, triple_bind, triple_by_result, post_state, bind_ok,
}
use codery.Caddy.Apply.{apply_all}
use codery.Config.{Color, flip, container_name}
use codery.Deploy.Container.{stop_container}
use codery.Deploy.Deps.{IsLawful}
use codery.Deploy.Flow.Live.{
  LiveAt, Held, Unchanged-triple, Only-triple, Only-flipped, Either, Verified, write_active_triple,
  write_sha_triple,
}
use codery.Deploy.Health.{poll_health}
use codery.Deploy.Health.Truth.{poll_health-running}
use codery.Deploy.Real.{container_running, real_deps}
use codery.Deploy.Real.Isolation.{
  IsSparing, Beside, bind-IsSparing, settle-IsSparing, stop-IsSparing, poll-IsSparing,
}
use codery.Deploy.Real.Laws.{Only-docker, real-IsLawful}
use codery.Docker.{is_running, IsEngine, IsTruthful}
use codery.ServiceDef.{ServiceDef}
use codery.Ui.{check_or_stop, start_previous, do_rollback}
use codery.World.{World, System, on_docker}

is_ok_unit : (r : Result (Unit {0})) → is_ok r ≡ true → r ≡ ok tt
is_ok_unit (ok u) h = refl
is_ok_unit (err e) h = absurd (false≢true h)

module _ {D : Type 0} (sys : System D) (law : IsEngine sys.engine) (truth : IsTruthful sys.engine)
    (def : ServiceDef) (c : Color) (r : Option Text) where
  abbrev laws : IsLawful (real_deps sys)
  laws = real-IsLawful sys law

  abbrev prev : Text
  prev = container_name def.service (flip c)

  check_or_stop-IsSparing :
      IsSparing sys.engine (Beside sys.engine prev) (check_or_stop sys def (flip c) prev)
  unfolding check_or_stop
  check_or_stop-IsSparing d other ne =
      elim (Bool-cases (is_ok (poll_health sys.engine def (flip c) d).0)) [
        | inl e ↦ rw (check_or_stop, e) (poll-IsSparing sys.engine law def (flip c) d other ne)
        | inr e ↦
            rw (check_or_stop, e)
              (stop-IsSparing sys.engine law prev _ other ne
                ∙ poll-IsSparing sys.engine law def (flip c) d other ne)
      ]

  start_previous-IsSparing :
      IsSparing sys.engine (Beside sys.engine prev) (start_previous sys def (flip c) prev)
  unfolding start_previous
  start_previous-IsSparing =
      bind-IsSparing sys.engine (Beside sys.engine prev) _ _
        (settle-IsSparing sys.engine (Beside sys.engine prev) _ _
          (λ d other ne. law.start_law prev other d ne))
        (λ u. check_or_stop-IsSparing)

  check_or_stop-running :
      (d : D)
      → (check_or_stop sys def (flip c) prev d).0 ≡ ok tt
      → is_running sys.engine prev (check_or_stop sys def (flip c) prev d).1 ≡ true
  unfolding check_or_stop
  check_or_stop-running d h = elim (Bool-cases (is_ok (poll_health sys.engine def (flip c) d).0)) [
    | inl e ↦
        rw (check_or_stop, e) (poll_health-running sys.engine truth def (flip c) d (is_ok_unit _ e))
    | inr e ↦ let k : err health_timeout ≡ ok tt = rw (check_or_stop, e) at h in cc
  ]

  start_previous-running :
      (d : D)
      → (start_previous sys def (flip c) prev d).0 ≡ ok tt
      → is_running sys.engine prev (start_previous sys def (flip c) prev d).1 ≡ true
  unfolding start_previous
  start_previous-running d h =
      let (u, e, q) = bind_ok _ _ d tt _ (λ i. (h i, (start_previous sys def (flip c) prev d).1)) in
      ap (λ o. is_running sys.engine prev o.1) (sym q) ∙ check_or_stop-running _ (ap (λ o. o.0) q)

  abbrev Serving : World D → Type 0
  Serving = Held (real_deps sys) laws def.service c r

  started_Serving :
      (w : World D) → Serving w → Serving (on_docker (start_previous sys def (flip c) prev) w).1
  started_Serving = post_state Serving (
      Only-triple (real_deps sys) laws def.service c r
        (on_docker (start_previous sys def (flip c) prev))
        (Only-docker sys law prev (start_previous sys def (flip c) prev) start_previous-IsSparing))

  start_triple :
      Triple Serving
        (on_docker (start_previous sys def (flip c) prev))
        (λ u w. Verified (real_deps sys) laws def c r w)
        Serving
  unfolding on_docker real_deps container_running
  start_triple =
      triple_by_result
        (λ w h a e. (started_Serving w h, ap (λ b. ok b) (start_previous-running w.docker e)))
        (λ w h x e. started_Serving w h)

  -- One of the two containers is the recorded one and runs.
  abbrev OneServes : World D → Type 0
  OneServes = Either (real_deps sys) laws def c

  -- The other container is the recorded one and runs.
  abbrev OtherServes : World D → Type 0
  OtherServes = LiveAt (real_deps sys) def.service (flip c)

  finish_triple :
      (sha : Option Text)
      → Triple
          (Held (real_deps sys) laws def.service (flip c) sha)
          (apply_all sys >> on_docker (stop_container sys.engine (container_name def.service c)))
          (λ u w. OtherServes w)
          OneServes
  unfolding real_deps
  finish_triple sha =
      triple_weaken
        (triple_bind
          (Unchanged-triple (real_deps sys) laws def.service (flip c) sha _ laws.caddy_law)
          λ y. Only-flipped (real_deps sys) laws def.service c sha _ (laws.stop_law _))
        (λ a w h. h.0) (λ w h. inr h.0)

  do_rollback_triple :
      Triple Serving
        (do_rollback sys def def.service (flip c) prev (container_name def.service c))
        (λ u w. OtherServes w)
        OneServes
  unfolding do_rollback real_deps
  do_rollback_triple =
      triple_bind (triple_weaken (triple_query Serving _) (λ a w h. h.0) (λ w h. inl h.0)) λ sha.
        triple_bind (triple_weaken start_triple (λ u w h. h) (λ w h. inl h.0)) λ u.
          triple_bind (write_active_triple (real_deps sys) laws def c r)
            λ v. triple_bind (write_sha_triple (real_deps sys) laws def c sha) λ x. finish_triple _

-- Given that Docker treats containers apart from each other, that a container runs when a command
-- could be run in it or it is reported healthy, and that the definition is one of the service that
-- is rolled back: a rollback from a color whose container runs ends, on success, with the other
-- color on record and its container running, and on failure with one of the two colors on record
-- and the container of this color running.
pub do_rollback_outcome :
    {D : Type 0} (sys : System D) (def : ServiceDef) (c : Color) (w : World D)
    → IsEngine sys.engine
    → IsTruthful sys.engine
    → LiveAt (real_deps sys) def.service c w
    → Post
        (λ u v. LiveAt (real_deps sys) def.service (flip c) v)
        (λ v.
          LiveAt (real_deps sys) def.service c v ⊎ LiveAt (real_deps sys) def.service (flip c) v)
        (do_rollback sys def def.service
          (flip c)
          (container_name def.service (flip c))
          (container_name def.service c)
          w)
do_rollback_outcome sys def c w law truth h =
    (do_rollback_triple sys law truth def c _).at w (h, refl)
