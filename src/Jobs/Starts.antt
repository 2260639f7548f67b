-- ===== src/Jobs/Starts.antt =====
-- The registry of jobs and its steps, and the start of a job: mcp_exec.rs, spawn_with.
use Prim.Native.Char.{code}
use codery.Base.{
  ℕ, ◌≡◌, refl, sym, ap, ◌∙◌, ◌≢◌, ◌⊎◌, inl, inr, Bool, true, Option, none, some, List, [], ◌∷◌,
  Bool-cases, Option-cases, is_some, Text, All, In, Assoc, lookup, insert,
}
use codery.Base.Maps.Keys.{lookup-insert_ne, lookup-insert_self, lookup-insert-cases}
use codery.Jobs.{
  running, ExecJob, is_allowed, Wait, Daemon, Attempt, launch, spawn_with, Ending, timed_out,
  wait_failed, exited, ended, finish, set_toggle,
}

-- The first argument is on the allowlist.
abbrev pub IsAllowed : List Text → Type 0
IsAllowed [] = ⊥
IsAllowed (subcmd ∷ rest) = is_allowed subcmd ≡ true

abbrev pub IsRunning : ExecJob → Type 0
IsRunning j = (j.status ≡ running) × (j.finished_at ≡ none) × (j.exit_code ≡ none)

-- What can happen to the registry. An identifier is given out once, and a task without a limit does
-- not time out.
pub data Step : Daemon → Daemon → Type 0 where
  spawns :
      (s : Daemon) (a : Attempt) (args : List Text) (timeout_secs : ℕ)
      → lookup a.id s.jobs ≡ none
      → Step s (spawn_with a args timeout_secs s).1
  finishes :
      (s : Daemon) (w : Wait) (now : ℕ) (how : Ending)
      → In w s.waits
      → (how ≡ timed_out → w.timeout_secs ≢ 0)
      → Step s (finish w.job now how s)
  toggles : (s : Daemon) (can_write enabled : Bool) → Step s (set_toggle can_write enabled s).1

abbrev pub idle : Bool → Daemon
idle enabled = record { toggle = enabled; jobs = []; waits = []; launched = [] }

pub data Reachable : Daemon → Type 0 where
  starts : (enabled : Bool) → Reachable (idle enabled)
  steps : (s t : Daemon) → Reachable s → Step s t → Reachable t

-- Only allowed commands were launched, a job that is waited for is running, and one that is not
-- running has a time of its end.
pub record IsSound (s : Daemon) : Type 0 where
  pub commands : All IsAllowed s.launched
  pub waiting :
      (w : Wait) → In w s.waits → (j : ExecJob) × (lookup w.job s.jobs ≡ some j) × IsRunning j
  pub ended_at :
      (id : Text) (j : ExecJob)
      → lookup id s.jobs ≡ some j
      → j.status ≢ running
      → is_some j.finished_at ≡ true

abbrev new_job : Attempt → List Text → Option ℕ → ExecJob
new_job a args pid = record {
  id = a.id;
  args = args;
  pid = pid;
  started_at = a.now;
  finished_at = none;
  status = running;
  exit_code = none;
  log_path = a.log_path;
}

-- A job that is known has another identifier than one that is not.
pub known-ne :
    (k q : Text) (j : ExecJob) (m : Assoc ExecJob) → lookup k m ≡ none → lookup q m ≡ some j → k ≢ q
known-ne k q j m a h e = let x : some j ≡ none = sym h ∙ (ap (λ t. lookup t m) (sym e) ∙ a) in cc

pub launch-IsSound :
    (s : Daemon) (a : Attempt) (args : List Text) (limit : ℕ) (pid : Option ℕ)
    → IsAllowed args
    → lookup a.id s.jobs ≡ none
    → IsSound s
    → IsSound (launch a args limit pid s)
unfolding launch
launch-IsSound s a args limit pid allowed fresh v = record {
  commands = (allowed, v.commands);
  waiting = λ w i. elim i [
    | inl e ↦ (
      new_job a args pid,
      ap (λ q. lookup q (insert a.id (new_job a args pid) s.jobs))
            (sym (ap (λ (u : Wait). u.job) e))
          ∙ lookup-insert_self a.id (new_job a args pid) s.jobs,
      (refl, refl, refl),
    )
    | inr i' ↦
        let (j, h, r) = v.waiting w i' in
        (j, lookup-insert_ne a.id w.job _ s.jobs (known-ne a.id w.job j s.jobs fresh h) ∙ h, r)
  ];
  ended_at = λ id j h ne. elim (lookup-insert-cases a.id id (new_job a args pid) j s.jobs h) [
    | inl (x, y) ↦ absurd (ne (ap (λ (u : ExecJob). u.status) y))
    | inr (x, y) ↦ v.ended_at id j y ne
  ];
}

-- An attempt changes nothing, or it launches an allowed command.
pub spawn_with-cases :
    (s : Daemon) (a : Attempt) (args : List Text) (limit : ℕ)
    → ((spawn_with a args limit s).1 ≡ s)
      ⊎ ((pid : Option ℕ) × IsAllowed args
          × ((spawn_with a args limit s).1 ≡ launch a args limit pid s))
unfolding spawn_with
spawn_with-cases s a [] limit = inl refl
spawn_with-cases s a (subcmd ∷ rest) limit = elim (Bool-cases s.toggle) [
  | inr off ↦ inl (simp off)
  | inl on ↦ elim (Bool-cases (is_allowed subcmd)) [
    | inr bad ↦ inl (simp (on, bad))
    | inl good ↦ elim (Bool-cases a.log_created) [
      | inr lost ↦ inl (simp (on, good, lost))
      | inl made ↦ elim (Option-cases a.child) [
        | inl none_left ↦ inl (simp (on, good, made, none_left))
        | inr (pid, e) ↦ inr (pid, good, simp (on, good, made, e))
      ]
    ]
  ]
]

pub ended-finished_at :
    (now : ℕ) (how : Ending) (j : ExecJob) → is_some (ended now how j).finished_at ≡ true
unfolding ended
ended-finished_at now timed_out j = refl
ended-finished_at now wait_failed j = refl
ended-finished_at now (exited success code) j = refl
