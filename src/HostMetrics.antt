-- ===== src/HostMetrics.antt =====
-- system/orchestrator/src/host_metrics.rs: what the host reports of its memory, the pressure on it
-- and its processes. An `f64` is a parameter with its operations; `a > b` is `less b a`.
pub mod Health
pub mod Stat
pub mod Processes
use codery.Base.{
  ℕ, ◌-◌, ◌^◌, Bool, true, false, Option, none, some, List, [], ◌∷◌, eqb, if◌then◌else◌, unwrap_or,
  map_option, and_then, Text, codes, ◌==◌, trim, strip_prefix, starts_with, split_once, lines,
  split_whitespace, parse_unsigned, drop, first, ok_option,
}
use codery.Files.{Files, read_to_string}

-- The operations of `f64` that are used; `of_nat` is `as f64`, and `to_u64` is `as u64`.
pub record Floats (F : Type 0) : Type 0 where
  pub from_str : Text → Option F
  pub of_nat : ℕ → F
  pub less : F → F → Bool
  pub div : F → F → F
  pub mul : F → F → F
  pub sub : F → F → F
  pub max : F → F → F
  pub to_u64 : F → ℕ

pub record MemoryInfo (F : Type 0) : Type 0 where
  pub total_mb : F
  pub available_mb : F
  pub cached_mb : F
  pub buffers_mb : F
  pub swap_total_mb : F
  pub swap_free_mb : F

pub record PsiWindow (F : Type 0) : Type 0 where
  pub avg10 : F
  pub avg60 : F
  pub avg300 : F

pub record PsiResource (F : Type 0) : Type 0 where
  pub on_some : PsiWindow F
  pub on_full : Option (PsiWindow F)

pub record Psi (F : Type 0) : Type 0 where
  pub cpu : PsiResource F
  pub memory : PsiResource F
  pub io : PsiResource F

module _ {F : Type 0} (fl : Floats F) where
  kb_to_mb : F → F
  kb_to_mb kb = fl.div kb (fl.of_nat 1024)

  -- `trim_start_matches(':')`.
  skip_colons : Text → Text
  skip_colons [] = []
  skip_colons (c ∷ s) = let rest = skip_colons s in if eqb c b':' then rest else c ∷ s

  -- The number after the key, in the first line that starts with it.
  meminfo_kb : Text → F
  unfolding skip_colons
  meminfo_kb rest =
      unwrap_or (and_then (first (split_whitespace (skip_colons rest))) fl.from_str) (fl.of_nat 0)

  unfoldable pub meminfo_field : Text → List Text → F
  unfolding kb_to_mb meminfo_kb
  meminfo_field key [] = fl.of_nat 0
  meminfo_field key (line ∷ rest) = elim (strip_prefix key line) [
    | none ↦ meminfo_field key rest
    | some after ↦ kb_to_mb (meminfo_kb after)
  ]

  unfoldable pub parse_meminfo : Text → MemoryInfo F
  unfolding meminfo_field
  parse_meminfo text =
      let get = λ (key : Text). meminfo_field key (lines text) in
      record {
        total_mb = get (codes "MemTotal");
        available_mb = get (codes "MemAvailable");
        cached_mb = get (codes "Cached");
        buffers_mb = get (codes "Buffers");
        swap_total_mb = get (codes "SwapTotal");
        swap_free_mb = get (codes "SwapFree");
      }

  -- One `key=value` of a line; none where the value is no number. The flag says whether an average
  -- has been seen.
  pressure_part : Text → PsiWindow F × Bool → Option (PsiWindow F × Bool)
  pressure_part part (w, seen) = elim (split_once b'=' part) [
    | none ↦ some (w, seen)
    | some p ↦
        if p.0 == codes "avg10"
        then map_option (λ v. (record w { avg10 = v }, true)) (fl.from_str p.1)
        else if p.0 == codes "avg60"
        then map_option (λ v. (record w { avg60 = v }, true)) (fl.from_str p.1)
        else if p.0 == codes "avg300"
        then map_option (λ v. (record w { avg300 = v }, true)) (fl.from_str p.1)
        else some (w, seen)
  ]

  pressure_parts : List Text → PsiWindow F × Bool → Option (PsiWindow F × Bool)
  unfolding pressure_part
  pressure_parts [] acc = some acc
  pressure_parts (part ∷ parts) acc = and_then (pressure_part part acc) (pressure_parts parts)

  unfoldable pub pressure_line : Text → Option (PsiWindow F)
  unfolding pressure_parts
  pressure_line line =
      let zeros : PsiWindow F = record {
        avg10 = fl.of_nat 0;
        avg60 = fl.of_nat 0;
        avg300 = fl.of_nat 0;
      } in
      and_then (pressure_parts (drop 1 (split_whitespace line)) (zeros, false))
        λ p. if p.1 then some p.0 else none

  -- The windows of the last line of each kind.
  pressure_lines :
      List Text
      → Option (PsiWindow F) × Option (PsiWindow F)
      → Option (PsiWindow F) × Option (PsiWindow F)
  unfolding pressure_line
  pressure_lines [] acc = acc
  pressure_lines (line ∷ rest) acc =
      if starts_with (codes "some ") line
      then pressure_lines rest (pressure_line line, acc.1)
      else if starts_with (codes "full ") line
      then pressure_lines rest (acc.0, pressure_line line)
      else pressure_lines rest acc

  unfoldable pub parse_pressure : Text → Option (PsiResource F)
  unfolding pressure_lines
  parse_pressure text =
      let (on_some, on_full) = pressure_lines (lines text) (none, none) in
      map_option (λ w. record { on_some = w; on_full = on_full }) on_some

  read_pressure : Files → Text → Option (PsiResource F)
  unfolding parse_pressure
  read_pressure fs path = and_then (ok_option (read_to_string fs path)) parse_pressure

  -- All three files, or nothing.
  unfoldable pub read_psi : Files → Option (Psi F)
  unfolding read_pressure
  read_psi fs = and_then (read_pressure fs (codes "/proc/pressure/cpu")) λ cpu.
      and_then (read_pressure fs (codes "/proc/pressure/memory")) λ memory.
        and_then (read_pressure fs (codes "/proc/pressure/io"))
          λ io. some (record { cpu = cpu; memory = memory; io = io })

oom_kills_in : List Text → ℕ
oom_kills_in [] = 0
oom_kills_in (line ∷ rest) = elim (strip_prefix (codes "oom_kill ") line) [
  | none ↦ oom_kills_in rest
  | some after ↦ unwrap_or (parse_unsigned (2 ^ 64 - 1) (trim after)) 0
]

unfoldable pub parse_memory_events : Text → ℕ
unfolding oom_kills_in
parse_memory_events text = oom_kills_in (lines text)
