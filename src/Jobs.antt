-- ===== src/Jobs.antt =====
-- system/orchestrator/src/mcp_exec.rs: the jobs that an agent starts through the MCP server. Identifiers,
-- times, and what the operating system answers are arguments; logs are left out.
pub mod Starts
pub mod Lifecycle
use Prim.Native.Char.{code}
use codery.Base.{
  ℕ, ◌-◌, Bool, not, ◌&&◌, Option, none, some, List, [], ◌∷◌, if◌then◌else◌, Text, codes, ◌==◌,
  length, drop, retain, any, Assoc, lookup, insert, io_error, exec_disabled, no_subcommand,
  not_allowed, unknown_job, Result, ok, err, Exec,
}

pub data JobStatus : Type 0 where
  running done failed timeout : JobStatus

pub record ExecJob : Type 0 where
  pub id : Text
  pub args : List Text
  pub pid : Option ℕ
  pub started_at : ℕ
  pub finished_at : Option ℕ
  pub status : JobStatus
  pub exit_code : Option ℕ
  pub log_path : Text

abbrev pub allowlist : List Text
allowlist = codes "build" ∷ codes "validate" ∷ codes "deploy-preview" ∷ codes "cancel-preview" ∷ []

unfoldable pub is_allowed : Text → Bool
is_allowed subcmd = any (λ a. a == subcmd) allowlist

-- A background task that waits for a job's process, with its limit in seconds; 0 is no limit.
pub record Wait : Type 0 where
  pub job : Text
  pub timeout_secs : ℕ

-- `launched`: the arguments of every process that was started, the last one first.
pub record Daemon : Type 0 where
  pub toggle : Bool
  pub jobs : Assoc ExecJob
  pub waits : List Wait
  pub launched : List (List Text)

-- What the operating system does for a new job.
pub record Attempt : Type 0 where
  pub id : Text
  pub now : ℕ
  pub log_created : Bool
  pub log_path : Text
  -- The process, if it was started, with its number.
  pub child : Option (Option ℕ)

unfoldable pub launch : Attempt → List Text → ℕ → Option ℕ → Daemon → Daemon
launch a args timeout_secs pid s = record s {
  jobs =
      insert a.id
        (record {
          id = a.id;
          args = args;
          pid = pid;
          started_at = a.now;
          finished_at = none;
          status = running;
          exit_code = none;
          log_path = a.log_path;
        })
        s.jobs;
  waits = record { job = a.id; timeout_secs = timeout_secs } ∷ s.waits;
  launched = args ∷ s.launched;
}

unfoldable pub spawn_with : Attempt → List Text → ℕ → Exec Daemon Text
unfolding is_allowed launch
spawn_with a [] timeout_secs s = (err (if s.toggle then no_subcommand else exec_disabled), s)
spawn_with a (subcmd ∷ rest) timeout_secs s =
    if not s.toggle
    then (err exec_disabled, s)
    else if not (is_allowed subcmd)
    then (err not_allowed, s)
    else if not a.log_created
    then (err io_error, s)
    else elim a.child [
      | none ↦ (err io_error, s)
      | some pid ↦ (ok a.id, launch a (subcmd ∷ rest) timeout_secs pid s)
    ]

-- How a wait ends: past its limit, with an exit status, or with an error.
pub data Ending : Type 0 where
  timed_out wait_failed : Ending
  exited : Bool → Option ℕ → Ending

unfoldable pub ended : ℕ → Ending → ExecJob → ExecJob
ended now timed_out j = record j { status = timeout; finished_at = some now }
ended now wait_failed j = record j { status = failed; finished_at = some now; exit_code = none }
ended now (exited success code) j = record j {
  status = if success then done else failed;
  finished_at = some now;
  exit_code = code;
}

-- The end of a background task.
unfoldable pub finish : Text → ℕ → Ending → Daemon → Daemon
unfolding ended
finish id now how s = record s {
  jobs = elim (lookup id s.jobs) [ none ↦ s.jobs | some j ↦ insert id (ended now how j) s.jobs ];
  waits = retain (λ w. not (w.job == id)) s.waits;
}

-- `can_write`: whether the toggle file can be written and removed.
unfoldable pub set_toggle : Bool → Bool → Exec Daemon (Unit {0})
set_toggle can_write enabled s =
    if not enabled && not s.toggle
    then (ok tt, s)
    else if can_write
    then (ok tt, record s { toggle = enabled })
    else (err io_error, s)

pub record JobStatusResponse : Type 0 where
  pub job_id : Text
  pub status : JobStatus
  pub exit_code : Option ℕ
  pub elapsed_secs : ℕ
  pub log_path : Text
  pub tail : List ℕ

-- The last bytes of a file; the whole file where it has no more.
unfoldable pub read_tail : Option (List ℕ) → ℕ → List ℕ
read_tail none max_bytes = []
read_tail (some bytes) max_bytes = drop (length bytes - max_bytes) bytes

-- `read` gives the bytes of a file that can be read.
unfoldable pub job_status :
    (Text → Option (List ℕ)) → ℕ → Text → ℕ → Daemon → Result JobStatusResponse
unfolding read_tail
job_status read now job_id tail_bytes s = elim (lookup job_id s.jobs) [
  | none ↦ err unknown_job
  | some j ↦ ok (record {
    job_id = job_id;
    status = j.status;
    exit_code = j.exit_code;
    elapsed_secs = now - j.started_at;
    log_path = j.log_path;
    tail = read_tail (read j.log_path) tail_bytes;
  })
]
