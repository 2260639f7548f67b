-- ===== src/HostMetrics/Health/Verdict.antt =====
-- host_metrics.rs, derive_health: when the host is rated red.
use codery.Base.{
  ℕ, ◌<◌, ◌≡◌, refl, sym, ◌∙◌, ◌≢◌, ◌↔◌, ◌⊎◌, inl, inr, Bool, true, false, not, ◌||◌, Option, none,
  some, List, [], ◌∷◌, map, arith, ltb, if◌then◌else◌, Bool-cases, is_some, codes, retain, any,
  is_empty,
}
use codery.HostMetrics.{Floats, MemoryInfo, Psi}
use codery.HostMetrics.Health.{
  Level, Reason, memory_available, swap_in_use, memory_pressure, oom_detected, psi_unavailable,
  rate, is_critical, is_warning, health_of, is_below, swaps_over, pressure_level, oom_level,
  measures, derive_health,
}

is_empty-reasons :
    (vs : List (Level × Reason))
    → not (is_empty (map (λ v. v.1) (retain is_critical vs))) ≡ any is_critical vs
is_empty-reasons [] = refl
is_empty-reasons (v ∷ vs) = elim (Bool-cases (is_critical v)) [
  | inl e ↦ rw e refl
  | inr e ↦ rw e (is_empty-reasons vs)
]

green_ne : codes "green" ≢ codes "red"
green_ne = λ q. ground arith

yellow_ne : codes "yellow" ≢ codes "red"
yellow_ne = λ q. ground arith

-- The rating is red exactly if one of the measures is critical.
health_of_red :
    (vs : List (Level × Reason)) (notes : List Reason)
    → ((health_of vs notes).status ≡ codes "red") ↔ (any is_critical vs ≡ true)
unfolding health_of
health_of_red vs notes = elim (Bool-cases (any is_critical vs)) [
  | inl e ↦ rw e (λ q. refl, λ q. rw (is_empty-reasons vs) (rw e refl))
  | inr e ↦ (
    λ q. elim (Bool-cases (is_empty (map (λ v. v.1) (retain is_warning vs)))) [
      | inl f ↦ absurd (green_ne (sym (rw (health_of, is_empty-reasons vs, e, f) refl) ∙ q))
      | inr f ↦ absurd (yellow_ne (sym (rw (health_of, is_empty-reasons vs, e, f) refl) ∙ q))
    ],
    λ q. ground arith,
  )
]

is_critical-rate : (red yellow : Bool) (r : Reason) → is_critical (rate red yellow, r) ≡ red
unfolding is_critical
is_critical-rate true yellow r = refl
is_critical-rate false true r = refl
is_critical-rate false false r = refl

or_iff : (a b : Bool) → ((a || b) ≡ true) ↔ ((a ≡ true) ⊎ (b ≡ true))
or_iff true b = (λ q. inl refl, λ q. refl)
or_iff false b = (λ q. inr q, λ q. ground arith)

module _ {F : Type 0} (fl : Floats F) where
  critical_pressure :
      (psi : Option (Psi F))
      → (is_critical (pressure_level fl psi, memory_pressure) ≡ true)
        ↔ ((p : Psi F) × (psi ≡ some p) × (fl.less (fl.of_nat 25) p.memory.on_some.avg10 ≡ true))
  unfolding is_critical pressure_level
  critical_pressure none = (λ q. ground arith, λ (p, q, _). cc)
  critical_pressure (some p) =
      rw (is_critical-rate (fl.less (fl.of_nat 25) p.memory.on_some.avg10) _ memory_pressure)
        (λ q. (p, refl, q), λ (x, e, q). cc)

  critical_oom :
      (before : Option ℕ) (now : ℕ)
      → (is_critical (oom_level fl before now, oom_detected) ≡ true)
        ↔ ((n : ℕ) × (before ≡ some n) × (n < now))
  unfolding is_critical oom_level
  critical_oom none now = (λ q. ground arith, λ (n, q, _). cc)
  critical_oom (some n) now =
      rw (is_critical-rate (ltb n now) false oom_detected)
        (λ q. (n, refl, ground arith), λ (x, e, q). ground arith)

  -- The thresholds of the rating red.
  unfoldable pub Alarm : MemoryInfo F → Option (Psi F) → Option ℕ → ℕ → Type 0
  Alarm m psi before now =
      (is_below fl 10 m ≡ true)
      ⊎ ((swaps_over fl 2048 m ≡ true)
          ⊎ (((p : Psi F) × (psi ≡ some p) × (fl.less (fl.of_nat 25) p.memory.on_some.avg10 ≡ true))
              ⊎ ((n : ℕ) × (before ≡ some n) × (n < now))))

  -- The measures one by one.
  critical_measures :
      (m : MemoryInfo F) (psi : Option (Psi F)) (before : Option ℕ) (now : ℕ)
      → any is_critical (measures fl m psi before now) ≡ (
          is_below fl 10 m
          || (swaps_over fl 2048 m
              || (is_critical (pressure_level fl psi, memory_pressure)
                  || (is_critical (oom_level fl before now, oom_detected) || false))))
  unfolding measures
  critical_measures m psi before now =
      rw (is_critical-rate (is_below fl 10 m) (is_below fl 20 m) memory_available)
        (rw (is_critical-rate (swaps_over fl 2048 m) (swaps_over fl 100 m) swap_in_use) refl)

  pub derive_health_iff :
      (m : MemoryInfo F) (psi : Option (Psi F)) (before : Option ℕ) (now : ℕ)
      → ((derive_health fl m psi before now).status ≡ codes "red") ↔ Alarm m psi before now
  unfolding derive_health Alarm
  derive_health_iff m psi before now =
      let notes : List Reason = if is_some psi then [] else psi_unavailable ∷ [] in
      let red = health_of_red (measures fl m psi before now) notes in
      let each = critical_measures m psi before now in
      let pressure = critical_pressure psi in
      let oom = critical_oom before now in
      (
        λ q. elim ((or_iff _ _).0 (sym each ∙ red.0 q)) [
          | inl a ↦ inl a
          | inr r ↦ elim ((or_iff _ _).0 r) [
            | inl b ↦ inr (inl b)
            | inr t ↦ elim ((or_iff _ _).0 t) [
              | inl c ↦ inr (inr (inl (pressure.0 c)))
              | inr d ↦ inr (inr (inr (oom.0 (ground arith))))
            ]
          ]
        ],
        λ a. red.1 (
            each
            ∙ (or_iff _ _).1 (elim a [
              | inl b ↦ inl b
              | inr r ↦ inr (
                  (or_iff _ _).1 (elim r [
                    | inl c ↦ inl c
                    | inr t ↦ inr (
                        (or_iff _ _).1 (elim t [
                          | inl d ↦ inl (pressure.1 d)
                          | inr e ↦ inr ((or_iff _ _).1 (inl (oom.1 e)))
                        ]))
                  ]))
            ])),
      )
