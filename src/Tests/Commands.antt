-- ===== src/Tests/Commands.antt =====
-- The commands, the rollback and the real dependencies at concrete inputs.
use codery.Base.{
  ◌≡◌, refl, ◌⊎◌, true, false, some, List, [], ◌∷◌, ◌++◌, Text, codes, ◌==◌, any, ok, is_ok, ◌>>=◌,
}
use codery.Base.Outcome.Triple.{Post}
use codery.Caddy.Apply.{apply_all}
use codery.Command.{deploying, cutting_over, perform}
use codery.Command.Busy.{perform_busy}
use codery.Command.Safety.{perform-Live}
use codery.Config.{blue, green, flip, container_name, deploy_lock_path}
use codery.Deploy.Container.{stop_container}
use codery.Deploy.Deps.{IsLawful}
use codery.Deploy.Flow.Live.{LiveAt, Live}
use codery.Deploy.Health.{poll_health}
use codery.Deploy.Real.{real_deps, load_definition}
use codery.Deploy.Real.Laws.{real-IsLawful}
use codery.Docker.{settle}
use codery.Files.{write, rename}
use codery.Mcp.{service_guidance, get_service, upsert_service}
use codery.Mcp.Services.{load-upsert_service}
use codery.ServiceDef.{ServiceDef}
use codery.ServiceDef.Load.{definition_path, load_all}
use codery.ServiceDef.Ports.{health_container_port}
use codery.State.{write_active, write_active_sha}
use codery.Tests.Engine.{
  Runs, sim_engine, sim_engine-IsEngine, sim_engine-IsTruthful, sim, sim_files, sim_world, sim_live,
  sim_loads,
}
use codery.Tests.Mock.{paseo}
use codery.Ui.{do_rollback}
use codery.Ui.Rollback.{do_rollback_outcome}
use codery.World.{World, on_docker, on_files}

real-IsLawful_example : IsLawful (real_deps sim)
real-IsLawful_example = real-IsLawful sim sim_engine-IsEngine

abbrev arguments : List Text
arguments = codes "codery-ci" ∷ codes "deploy" ∷ codes "paseo" ∷ codes "new" ∷ []

perform-Live_example :
    Live (real_deps sim) (codes "paseo") (perform sim deploying arguments sim_world).1
perform-Live_example =
    perform-Live sim deploying arguments (codes "paseo") paseo sim_world sim_engine-IsEngine refl
      sim_loads (blue, sim_live)

abbrev busy_world : World Runs
busy_world = record sim_world { held = deploy_lock_path (codes "paseo") ∷ [] }

busy_holds : any (λ p. p == deploy_lock_path (codes "paseo")) busy_world.held ≡ true
unfolding ◌==◌ deploy_lock_path
busy_holds = refl

perform_busy_example :
    (is_ok (perform sim cutting_over arguments busy_world).0 ≡ false)
    × ((perform sim cutting_over arguments busy_world).1 ≡ busy_world)
perform_busy_example =
    perform_busy sim cutting_over arguments (codes "paseo") busy_world refl busy_holds

do_rollback_outcome_example :
    Post
      (λ u v. LiveAt (real_deps sim) (codes "paseo") green v)
      (λ v.
        LiveAt (real_deps sim) (codes "paseo") blue v
        ⊎ LiveAt (real_deps sim) (codes "paseo") green v)
      (do_rollback sim paseo
        (codes "paseo")
        green
        (container_name (codes "paseo") green)
        (container_name (codes "paseo") blue)
        sim_world)
unfolding flip
do_rollback_outcome_example =
    do_rollback_outcome sim paseo blue sim_world sim_engine-IsEngine sim_engine-IsTruthful sim_live

-- The rollback of the example succeeds.
rolls_back :
    is_ok
      (do_rollback sim paseo
        (codes "paseo")
        green
        (container_name (codes "paseo") green)
        (container_name (codes "paseo") blue)
        sim_world).0
    ≡ true
unfolding do_rollback ◌>>=◌ sim_engine ◌==◌ container_name on_docker settle poll_health
    health_container_port on_files write_active write sim_files write_active_sha apply_all load_all
    stop_container
rolls_back = refl

load-upsert_service_example :
    (def : ServiceDef) × (sim.from_str (codes "service: paseo") ≡ some def)
    × (def.service ≡ codes "paseo")
    × (load_definition sim
          (codes "paseo")
          (upsert_service sim (codes "paseo") (codes "service: paseo") sim_world).1
        ≡ ok def)
    × (get_service sim
          (codes "paseo")
          (upsert_service sim (codes "paseo") (codes "service: paseo") sim_world).1
        ≡ ok (codes "service: paseo" ++ service_guidance))
unfolding upsert_service ◌>>=◌ ◌==◌ on_files write sim_files rename definition_path
load-upsert_service_example =
    load-upsert_service sim (codes "paseo") (codes "service: paseo") sim_world _ refl
