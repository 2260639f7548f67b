-- ===== src/Tests/Procedures.antt =====
-- Sequences of procedures on the mock, and plans of cutovers.
use codery.Base.{◌≡◌, refl, true, false, none, some, [], ◌∷◌, codes, ◌==◌, ok, is_ok, ◌>>=◌}
use codery.Base.Outcome.Triple.{Post}
use codery.Config.{blue, flip, container_name}
use codery.Deploy.Flow.{
  Inspection, start_inactive, cutover, run_start_inactive, staged_preview, start_unless_up,
  carry_out, run_cutover,
}
use codery.Deploy.Flow.Live.{Live, Held}
use codery.Deploy.Flow.Safety.{
  deploys, stages, cuts_over, cancels, history, run_start_inactive_outcome, history-Live,
}
use codery.Deploy.Plan.{plan_cutover}
use codery.Tests.Deploying.{blue_up-LiveAt, blue_up-LiveAt_sick}
use codery.Tests.Mock.{Mock, mock, mock-IsLawful, paseo, blue_up}

abbrev look : Inspection Mock
look = record {
  container_runs_image = λ def c sha s. ok (s.up (container_name def.service c));
  list_local =
      λ service s. ok (record { sha = codes "new"; tag = codes "paseo-new"; created = 2 } ∷ []);
  active_container_image = λ service c s. ok (some (codes "paseo-abc"));
}

history-Live_example : Live (mock true) (codes "paseo") (
    history
      (mock true)
      look
      paseo
      (stages (codes "new")
        ∷ cuts_over none (some (codes "new"))
        ∷ deploys (codes "abc")
        ∷ cancels
        ∷ [])
      blue_up)
history-Live_example =
    history-Live (mock true) (mock-IsLawful true) paseo look
      (stages (codes "new")
        ∷ cuts_over none (some (codes "new"))
        ∷ deploys (codes "abc")
        ∷ cancels
        ∷ [])
      blue_up (blue, blue_up-LiveAt)

run_start_inactive_outcome_example :
    Post
      (λ d t.
        Held (mock false) (mock-IsLawful false) (codes "paseo") blue (some (codes "abc")) t
        × (d ≡ flip blue))
      (Held (mock false) (mock-IsLawful false) (codes "paseo") blue (some (codes "abc")))
      (run_start_inactive (mock false) paseo (codes "new") blue_up)
unfolding mock
run_start_inactive_outcome_example =
    run_start_inactive_outcome (mock false) (mock-IsLawful false) paseo (codes "new") blue
      (some (codes "abc")) blue_up blue_up-LiveAt_sick refl

-- On the mock the cutover succeeds, so that the first of the two outcomes is the one that is met.
cuts : is_ok (run_cutover (mock true) look paseo (some (codes "new")) none blue_up).0 ≡ true
unfolding run_cutover mock ◌>>=◌ staged_preview carry_out plan_cutover start_unless_up ◌==◌
    container_name flip start_inactive cutover
cuts = refl
