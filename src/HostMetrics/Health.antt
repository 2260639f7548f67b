-- ===== src/HostMetrics/Health.antt =====
-- host_metrics.rs, derive_health: what the state of the host's memory is rated as. A reason is kept
-- without its numbers.
pub mod Verdict
use codery.Base.{
  ℕ, Bool, true, false, not, ◌&&◌, ◌||◌, Option, none, some, List, [], ◌∷◌, ◌++◌, map, ltb,
  if◌then◌else◌, is_some, Text, codes, retain, is_empty,
}
use codery.HostMetrics.{Floats, MemoryInfo, Psi}

pub data Level : Type 0 where
  normal : Level
  warning : Level
  critical : Level

pub data Reason : Type 0 where
  memory_available : Reason
  swap_in_use : Reason
  memory_pressure : Reason
  oom_detected : Reason
  psi_unavailable : Reason

pub record Health : Type 0 where
  pub status : Text
  pub reasons : List Reason

abbrev pub rate : Bool → Bool → Level
rate red yellow = if red then critical else if yellow then warning else normal

unfoldable pub is_critical : Level × Reason → Bool
is_critical (critical, r) = true
is_critical (_, r) = false

unfoldable pub is_warning : Level × Reason → Bool
is_warning (warning, r) = true
is_warning (_, r) = false

-- The rating that the measures come to; the notes are listed behind its reasons.
unfoldable pub health_of : List (Level × Reason) → List Reason → Health
unfolding is_critical is_warning
health_of vs notes =
    let red = map (λ v. v.1) (retain is_critical vs) in
    let yellow = map (λ v. v.1) (retain is_warning vs) in
    if not (is_empty red)
    then record { status = codes "red"; reasons = red ++ notes }
    else if not (is_empty yellow)
    then record { status = codes "yellow"; reasons = yellow ++ notes }
    else record { status = codes "green"; reasons = notes }

module _ {F : Type 0} (fl : Floats F) where
  -- Whether the memory that is left is below a share of all memory, in per cent.
  abbrev pub is_below : ℕ → MemoryInfo F → Bool
  is_below percent m =
      fl.less (fl.of_nat 0) m.total_mb
      && fl.less (fl.mul (fl.div m.available_mb m.total_mb) (fl.of_nat 100)) (fl.of_nat percent)

  -- Whether more swap is used than a size.
  abbrev pub swaps_over : ℕ → MemoryInfo F → Bool
  swaps_over size m =
      fl.less (fl.of_nat 0) m.swap_total_mb
      && fl.less (fl.of_nat size) (fl.max (fl.sub m.swap_total_mb m.swap_free_mb) (fl.of_nat 0))

  unfoldable pub pressure_level : Option (Psi F) → Level
  pressure_level none = normal
  pressure_level (some p) =
      let w = p.memory.on_some in
      rate (fl.less (fl.of_nat 25) w.avg10)
        (fl.less (fl.of_nat 10) w.avg10 || fl.less (fl.of_nat 25) w.avg60)

  unfoldable pub oom_level : Option ℕ → ℕ → Level
  oom_level none now = normal
  oom_level (some before) now = rate (ltb before now) false

  -- The measures in the order in which their reasons are listed.
  unfoldable pub measures : MemoryInfo F → Option (Psi F) → Option ℕ → ℕ → List (Level × Reason)
  unfolding pressure_level oom_level
  measures m psi before now =
      (rate (is_below 10 m) (is_below 20 m), memory_available)
      ∷ (rate (swaps_over 2048 m) (swaps_over 100 m), swap_in_use)
      ∷ (pressure_level psi, memory_pressure)
      ∷ (oom_level before now, oom_detected)
      ∷ []

  unfoldable pub derive_health : MemoryInfo F → Option (Psi F) → Option ℕ → ℕ → Health
  unfolding measures health_of
  derive_health m psi before now =
      health_of (measures m psi before now) (if is_some psi then [] else psi_unavailable ∷ [])
