-- ===== src/Tests/Jobs.antt =====
-- A build that an agent starts.
use codery.Base.{
  ◌≡◌, refl, inl, true, false, none, some, List, [], ◌∷◌, arith, Text, codes, ◌==◌, In, lookup,
  insert, not_allowed, err,
}
use codery.Jobs.{
  timeout, ExecJob, is_allowed, Wait, Daemon, Attempt, launch, spawn_with, timed_out, ended, finish,
  set_toggle,
}
use codery.Jobs.Lifecycle.{Daemon-IsSound, finished_stays}
use codery.Jobs.Starts.{spawns, finishes, toggles, idle, Reachable, starts, steps, IsSound}

abbrev attempt : Attempt
attempt = record {
  id = codes "00a1";
  now = 100;
  log_created = true;
  log_path = codes "/var/log/exec.log";
  child = some (some 4242);
}

abbrev build : List Text
build = codes "build" ∷ codes "paseo" ∷ []

abbrev building : Daemon
building = (spawn_with attempt build 30 (idle true)).1

no_jobs : lookup attempt.id (idle true).jobs ≡ none
unfolding lookup
no_jobs = refl

building-Reachable : Reachable building
building-Reachable =
    steps (idle true) building (starts true) (spawns (idle true) attempt build 30 no_jobs)

Daemon-IsSound_example : IsSound building
Daemon-IsSound_example = Daemon-IsSound building building-Reachable

abbrev wait : Wait
wait = record { job = codes "00a1"; timeout_secs = 30 }

waited : In wait building.waits
unfolding spawn_with is_allowed launch ◌==◌
waited = inl refl

abbrev killed : Daemon
killed = finish wait.job 130 timed_out building

killed-Reachable : Reachable killed
killed-Reachable =
    steps building killed building-Reachable
      (finishes building wait 130 timed_out waited (λ e z. absurd (omega (arith, z))))

abbrev killed_job : ExecJob
killed_job = record {
  id = codes "00a1";
  args = build;
  pid = some 4242;
  started_at = 100;
  finished_at = some 130;
  status = timeout;
  exit_code = none;
  log_path = codes "/var/log/exec.log";
}

killed_found : lookup (codes "00a1") killed.jobs ≡ some killed_job
unfolding finish ended spawn_with is_allowed launch lookup insert ◌==◌
killed_found = refl

abbrev toggled : Daemon
toggled = (set_toggle true false killed).1

finished_stays_example : lookup (codes "00a1") toggled.jobs ≡ some killed_job
finished_stays_example =
    finished_stays killed toggled (codes "00a1") killed_job killed-Reachable
      (toggles killed true false) killed_found (λ e. cc)

-- A cutover is refused.
cutover_not_allowed :
    spawn_with attempt (codes "cutover" ∷ []) 0 (idle true) ≡ (err not_allowed, idle true)
unfolding spawn_with is_allowed ◌==◌
cutover_not_allowed = refl
