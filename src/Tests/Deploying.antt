-- ===== src/Tests/Deploying.antt =====
-- Deploys on the mock.
use codery.Base.{◌≡◌, refl, ap, true, false, some, codes, ◌==◌, ==_refl, ok, is_ok, ◌>>=◌}
use codery.Base.Outcome.Triple.{Post}
use codery.Config.{blue, green, flip, container_name}
use codery.Deploy.Flow.{
  same_sha, start_inactive, switch_over, cutover, redeploy, unless_running, deploy_service,
}
use codery.Deploy.Flow.Live.{LiveAt, Either}
use codery.Deploy.Flow.Outcomes.{Deployed}
use codery.Deploy.Flow.Safety.{deploy_service_outcome}
use codery.Tests.Mock.{mock, mock-IsLawful, paseo, blue_up}

pub blue_up-LiveAt : LiveAt (mock true) (codes "paseo") blue blue_up
unfolding mock
blue_up-LiveAt = record {
  color = refl;
  running = ap ok (==_refl (container_name (codes "paseo") blue));
}

pub blue_up-LiveAt_sick : LiveAt (mock false) (codes "paseo") blue blue_up
unfolding mock
blue_up-LiveAt_sick = record {
  color = refl;
  running = ap ok (==_refl (container_name (codes "paseo") blue));
}

deploy_service_outcome_example :
    Post
      (λ _ t.
        Deployed (mock true) (mock-IsLawful true) paseo blue (some (codes "abc")) (codes "new") t)
      (Either (mock true) (mock-IsLawful true) paseo blue)
      (deploy_service (mock true) paseo (codes "new") blue_up)
unfolding mock
deploy_service_outcome_example =
    deploy_service_outcome (mock true) (mock-IsLawful true) paseo (codes "new") blue
      (some (codes "abc")) blue_up blue_up-LiveAt refl

-- The deploy of a new SHA ends with green recorded, and blue stopped.
deploy_switches :
    ((deploy_service (mock true) paseo (codes "new") blue_up).1.active_color ≡ green)
    × ((deploy_service (mock true) paseo (codes "new") blue_up).1.up
          (container_name (codes "paseo") blue)
        ≡ false)
    × (is_ok (deploy_service (mock true) paseo (codes "new") blue_up).0 ≡ true)
unfolding mock deploy_service redeploy start_inactive cutover switch_over unless_running same_sha
    flip container_name ◌==◌ ◌>>=◌
deploy_switches = (refl, refl, refl)
