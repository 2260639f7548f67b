-- ===== src/HostMetrics/Processes.antt =====
-- host_metrics.rs: the processes of the host, the largest of them, and a whole sample. The files of
-- a process and the entries of /proc are arguments, as is the clock.
pub mod Samples
use codery.Base.{
  ℕ, ◌+◌, ◌-◌, ◌%◌, ◌^◌, Bool, false, not, ◌||◌, Option, none, some, List, [], ◌∷◌, map, eqb,
  if◌then◌else◌, is_some, unwrap_or, map_option, and_then, Text, codes, trim, starts_with, ℤ, pos,
  negsuc, take, find_first, Assoc, ok, err, ok_option,
}
use codery.Files.{Files, read_to_string}
use codery.HostMetrics.{Floats, MemoryInfo, Psi, parse_meminfo, read_psi, parse_memory_events}
use codery.HostMetrics.Health.{Health, derive_health}
use codery.HostMetrics.Stat.{
  parse_i32, Stat, panicked, parsed, parse_stat, parse_statm_rss_bytes, parse_cgroup_container,
}

-- The files of an entry of /proc that can be read.
pub record ProcFiles : Type 0 where
  pub stat : Option Text
  pub comm : Option Text
  pub statm : Option Text
  pub cgroup : Option Text

pub record ProcSample : Type 0 where
  pub pid : ℤ
  pub state : Text
  pub comm : Text
  pub utime : ℕ
  pub stime : ℕ
  pub rss_bytes : ℕ
  pub container_id : Option Text

pub record ProcSnapshot (F : Type 0) : Type 0 where
  pub wall_secs : F
  pub procs : List ProcSample

pub record TopProcess (F : Type 0) : Type 0 where
  pub pid : ℤ
  pub comm : Text
  pub rss_mb : F
  pub cpu_pct : F
  pub container : Text
  pub state : Text

same_pid : ℤ → ℤ → Bool
same_pid (pos n) (pos m) = eqb n m
same_pid (negsuc n) (negsuc m) = eqb n m
same_pid _ _ = false

-- Addition and subtraction of `u64`: the one wraps around, the other stops at zero.
cpu_time : ProcSample → ℕ
cpu_time p = (p.utime + p.stime) % 2 ^ 64

-- The name of the container, by identifiers of which one starts with the other.
container_of : Assoc Text → Option Text → Text
container_of containers none = codes "host"
container_of containers (some id) =
    elim (find_first (λ e. starts_with e.0 id || starts_with id e.0) containers) [
      | none ↦ codes "unknown"
      | some e ↦ e.1
    ]

module _ {F : Type 0} (fl : Floats F) (page : F) where
  sample_of : ProcFiles → Stat → ProcSample
  sample_of files stat = record {
    pid = stat.pid;
    state = stat.state;
    comm = trim (unwrap_or files.comm []);
    utime = stat.utime;
    stime = stat.stime;
    rss_bytes = elim files.statm [ none ↦ 0 | some s ↦ parse_statm_rss_bytes fl s page ];
    container_id = and_then files.cgroup parse_cgroup_container;
  }

  -- Whether the parent is kthreadd.
  is_kernel_thread : Stat → Bool
  is_kernel_thread stat = same_pid stat.parent_pid (pos 2)

  -- The processes of the entries of /proc, by name; none where reading one panics.
  unfoldable pub scan_processes : List (Text × ProcFiles) → Option (List ProcSample)
  unfolding sample_of is_kernel_thread same_pid
  scan_processes [] = some []
  scan_processes ((name, files) ∷ entries) =
      let rest = scan_processes entries in
      if not (is_some (parse_i32 name)) then rest else elim files.stat [
        | none ↦ rest
        | some text ↦ elim (parse_stat text) [
          | panicked ↦ none
          | parsed none ↦ rest
          | parsed (some stat) ↦
              if is_kernel_thread stat
              then rest
              else map_option (λ l. sample_of files stat ∷ l) rest
        ]
      ]

module _ {F : Type 0} (fl : Floats F) (ticks : F) where
  -- The share of the time between two samples; a process that was not there before has none.
  unfoldable pub cpu_pct : F → F → Option (ProcSnapshot F) → ProcSample → F
  unfolding cpu_time same_pid
  cpu_pct dt zero_pct none p = zero_pct
  cpu_pct dt zero_pct (some prev) p =
      let before : ℕ = elim (find_first (λ q. same_pid q.pid p.pid) prev.procs) [
        | none ↦ cpu_time p
        | some q ↦ cpu_time q
      ] in
      fl.div (fl.mul (fl.div (fl.of_nat (cpu_time p - before)) ticks) (fl.of_nat 100)) dt

  row_of : Assoc Text → F → Option (ProcSnapshot F) → ProcSample → TopProcess F
  unfolding cpu_pct container_of
  row_of containers dt prev p = record {
    pid = p.pid;
    comm = p.comm;
    rss_mb = fl.div (fl.div (fl.of_nat p.rss_bytes) (fl.of_nat 1024)) (fl.of_nat 1024);
    cpu_pct = cpu_pct dt (fl.of_nat 0) prev p;
    container = container_of containers p.container_id;
    state = p.state;
  }

  -- A stable sort by the memory, the largest first.
  place : TopProcess F → List (TopProcess F) → List (TopProcess F)
  place row [] = row ∷ []
  place row (r ∷ rows) =
      let later = r ∷ place row rows in
      if fl.less row.rss_mb r.rss_mb then later else row ∷ r ∷ rows

  largest_first : List (TopProcess F) → List (TopProcess F)
  unfolding place
  largest_first [] = []
  largest_first (row ∷ rows) = place row (largest_first rows)

  unfoldable pub top_processes :
      ProcSnapshot F → Option (ProcSnapshot F) → Assoc Text → ℕ → List (TopProcess F)
  unfolding row_of largest_first
  top_processes cur prev containers n =
      let earlier : F = elim prev [ none ↦ cur.wall_secs | some p ↦ p.wall_secs ] in
      let dt = fl.max (fl.sub cur.wall_secs earlier) (fl.div (fl.of_nat 1) (fl.of_nat 1000)) in
      take n (largest_first (map (row_of containers dt prev) cur.procs))

pub record MetricsState (F : Type 0) : Type 0 where
  pub prev : Option (ProcSnapshot F)
  pub prev_oom : Option ℕ

pub record HostMetrics (F : Type 0) : Type 0 where
  -- In seconds.
  pub ts : ℕ
  pub health : Health
  pub memory : MemoryInfo F
  pub psi : Option (Psi F)
  pub oom_kills : ℕ
  pub top_processes : List (TopProcess F)

unfoldable pub oom_kills_of : Files → ℕ
oom_kills_of fs = elim (read_to_string fs (codes "/sys/fs/cgroup/memory.events")) [
  | err e ↦ 0
  | ok text ↦ parse_memory_events text
]

module _ {F : Type 0} (fl : Floats F) (ticks : F) where
  -- One sample, given the snapshot of the processes where there is one.
  unfoldable pub collect :
      Files
      → ℕ
      → Assoc Text
      → Option (ProcSnapshot F)
      → MetricsState F
      → HostMetrics F × MetricsState F
  unfolding oom_kills_of
  collect fs ts containers snapshot state =
      let memory =
        parse_meminfo fl (unwrap_or (ok_option (read_to_string fs (codes "/proc/meminfo"))) []) in
      let psi = read_psi fl fs in
      let oom_kills = oom_kills_of fs in
      (
        record {
          ts = ts;
          health = derive_health fl memory psi state.prev_oom oom_kills;
          memory = memory;
          psi = psi;
          oom_kills = oom_kills;
          top_processes = elim snapshot [
            | none ↦ []
            | some cur ↦ top_processes fl ticks cur state.prev containers 12
          ];
        },
        record { prev = snapshot; prev_oom = some oom_kills },
      )
