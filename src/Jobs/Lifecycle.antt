-- ===== src/Jobs/Lifecycle.antt =====
-- The life of a job: mcp_exec.rs, spawn_with and its background task.
use codery.Base.{
  ℕ, ◌≡◌, refl, sym, ap, ◌∙◌, subst, ◌≢◌, inl, inr, Bool, not, ◌&&◌, Option, none, some, List,
  arith, Bool-cases, is_some, Text, ◌==◌, ==_iff, In, lookup, insert,
}
use codery.Base.Lists.Membership.{In-retain}
use codery.Base.Maps.Keys.{lookup-insert_ne, lookup-insert-cases}
use codery.Jobs.{running, ExecJob, Wait, Daemon, Attempt, launch, Ending, ended, finish, set_toggle}
use codery.Jobs.Starts.{
  Step, spawns, finishes, toggles, idle, Reachable, starts, steps, IsSound, known-ne,
  launch-IsSound, spawn_with-cases, ended-finished_at,
}

-- What the end of a task does to the entry of its job.
jobs-finish :
    (s : Daemon) (id : Text) (now : ℕ) (how : Ending) (j : ExecJob)
    → lookup id s.jobs ≡ some j
    → (finish id now how s).jobs ≡ insert id (ended now how j) s.jobs
unfolding finish
jobs-finish s id now how j h = rw (h, finish) refl

waits-finish :
    (s : Daemon) (id : Text) (now : ℕ) (how : Ending) (w : Wait)
    → In w (finish id now how s).waits
    → In w s.waits × (id ≢ w.job)
unfolding finish
waits-finish s id now how w i =
    let (m, k) = (In-retain (λ w. not (w.job == id)) w s.waits).0 i in
    (m, λ e. absurd (ground (arith, (==_iff w.job id).1 (sym e))))

finish-IsSound :
    (s : Daemon) (w : Wait) (now : ℕ) (how : Ending)
    → In w s.waits
    → IsSound s
    → IsSound (finish w.job now how s)
finish-IsSound s w now how i v =
    let (j, h, r) = v.waiting w i in
    let jobs = jobs-finish s w.job now how j h in
    record {
      commands = unfold finish in v.commands;
      waiting = λ w' i'.
          let (m, ne) = waits-finish s w.job now how w' i' in
          let (j', h', r') = v.waiting w' m in
          (j', ap (lookup w'.job) jobs ∙ (lookup-insert_ne w.job w'.job _ s.jobs ne ∙ h'), r');
      ended_at = λ id j' h' ne.
          elim (lookup-insert-cases w.job id (ended now how j) j' s.jobs
            (sym (ap (lookup id) jobs) ∙ h')) [
              | inl (x, y) ↦
                  ap (λ (u : ExecJob). is_some u.finished_at) y ∙ ended-finished_at now how j
              | inr (x, y) ↦ v.ended_at id j' y ne
            ];
    }

-- The toggle is all that a change of it changes.
set_toggle-cases :
    (s : Daemon) (can_write enabled : Bool)
    → (b : Bool) × ((set_toggle can_write enabled s).1 ≡ record s { toggle = b })
unfolding set_toggle
set_toggle-cases s can_write enabled = elim (Bool-cases (not enabled && not s.toggle)) [
  | inl e ↦ (s.toggle, simp e)
  | inr e ↦ elim (Bool-cases can_write) [
    | inl f ↦ (enabled, simp (e, f))
    | inr f ↦ (s.toggle, simp (e, f))
  ]
]

toggle-IsSound :
    (s : Daemon) (can_write enabled : Bool) → IsSound s → IsSound (set_toggle can_write enabled s).1
toggle-IsSound s can_write enabled v =
    let (b, e) = set_toggle-cases s can_write enabled in
    subst IsSound (sym e)
      (record { commands = v.commands; waiting = v.waiting; ended_at = v.ended_at })

Step-IsSound : (s t : Daemon) → Step s t → IsSound s → IsSound t
Step-IsSound _ _ (spawns s a args limit fresh) v = elim (spawn_with-cases s a args limit) [
  | inl e ↦ subst IsSound (sym e) v
  | inr (pid, allowed, e) ↦
      subst IsSound (sym e) (launch-IsSound s a args limit pid allowed fresh v)
]
Step-IsSound _ _ (finishes s w now how i limit) v = finish-IsSound s w now how i v
Step-IsSound _ _ (toggles s can_write enabled) v = toggle-IsSound s can_write enabled v

idle-IsSound : (enabled : Bool) → IsSound (idle enabled)
idle-IsSound enabled = record {
  commands = tt;
  waiting = λ w i. absurd i;
  ended_at = λ id j h ne. absurd (unfold lookup in cc);
}

-- In every state that the registry can get into, if identifiers are given out once, each process
-- that was started had a first argument on the allowlist, each job that is waited for is running,
-- with no end and no exit code, and each job that is not running has a time of its end.
pub Daemon-IsSound : (s : Daemon) → Reachable s → IsSound s
Daemon-IsSound _ (starts enabled) = idle-IsSound enabled
Daemon-IsSound _ (steps s t r e) = Step-IsSound s t e (Daemon-IsSound s r)

after_launch :
    (s : Daemon) (a : Attempt) (args : List Text) (limit : ℕ) (pid : Option ℕ) (id : Text)
    (j : ExecJob)
    → lookup a.id s.jobs ≡ none
    → lookup id s.jobs ≡ some j
    → lookup id (launch a args limit pid s).jobs ≡ some j
unfolding launch
after_launch s a args limit pid id j fresh h =
    lookup-insert_ne a.id id _ s.jobs (known-ne a.id id j s.jobs fresh h) ∙ h

other_job :
    (s : Daemon) (p q : Text) (j k : ExecJob)
    → lookup p s.jobs ≡ some k
    → lookup q s.jobs ≡ some j
    → k.status ≡ running
    → j.status ≢ running
    → p ≢ q
other_job s p q j k g h on ne e =
    let same : some k ≡ some j = sym g ∙ (ap (λ t. lookup t s.jobs) e ∙ h) in
    let one : k ≡ j = cc in ne (sym (ap (λ (u : ExecJob). u.status) one) ∙ on)

-- In a state that the registry can get into, a job that is not running is left as it is by every step.
pub finished_stays :
    (s t : Daemon) (id : Text) (j : ExecJob)
    → Reachable s
    → Step s t
    → lookup id s.jobs ≡ some j
    → j.status ≢ running
    → lookup id t.jobs ≡ some j
finished_stays _ _ id j r (spawns s a args limit fresh) h ne =
    elim (spawn_with-cases s a args limit) [
      | inl e ↦ ap (λ (x : Daemon). lookup id x.jobs) e ∙ h
      | inr (pid, allowed, e) ↦
          ap (λ (x : Daemon). lookup id x.jobs) e ∙ after_launch s a args limit pid id j fresh h
    ]
finished_stays _ _ id j r (finishes s w now how i limit) h ne =
    let (k, g, running_k) = (Daemon-IsSound s r).waiting w i in
    ap (lookup id) (jobs-finish s w.job now how k g)
    ∙ (lookup-insert_ne w.job id _ s.jobs (other_job s w.job id j k g h running_k.0 ne) ∙ h)
finished_stays _ _ id j r (toggles s can_write enabled) h ne =
    let (b, e) = set_toggle-cases s can_write enabled in ap (λ (x : Daemon). lookup id x.jobs) e ∙ h
