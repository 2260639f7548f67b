-- ===== src/HostMetrics/Processes/Samples.antt =====
-- host_metrics.rs, collect: what one sample leaves for the next.
use codery.Base.{ℕ, ◌<◌, ◌≡◌, refl, inr, Option, some, [], unwrap_or, Text, codes, Assoc, ok_option}
use codery.Files.{Files, read_to_string}
use codery.HostMetrics.{Floats, parse_meminfo, read_psi}
use codery.HostMetrics.Health.Verdict.{Alarm, derive_health_iff}
use codery.HostMetrics.Processes.{ProcSnapshot, MetricsState, oom_kills_of, collect}

module _ {F : Type 0} (fl : Floats F) (ticks : F) where
  -- A count of processes killed for lack of memory that has grown between two samples makes the
  -- second one red, whatever else it measures.
  pub collect-collect :
      (earlier later : Files) (at after : ℕ) (containers containers' : Assoc Text)
      (procs procs' : Option (ProcSnapshot F)) (state : MetricsState F)
      → oom_kills_of earlier < oom_kills_of later
      → (collect fl ticks later after containers' procs'
          (collect fl ticks earlier at containers procs state).1).0.health.status
        ≡ codes "red"
  unfolding collect Alarm
  collect-collect earlier later at after containers containers' procs procs' state h =
      (derive_health_iff fl
          (parse_meminfo fl
            (unwrap_or (ok_option (read_to_string later (codes "/proc/meminfo"))) []))
          (read_psi fl later) (some (oom_kills_of earlier)) (oom_kills_of later)).1
        (inr (inr (inr (oom_kills_of earlier, refl, h))))
