-- ===== src/Tests/Metrics.antt =====
-- The metrics of the host (host_metrics.rs) at concrete inputs, with whole numbers for an `f64`.
use codery.Base.{
  ℕ, ◌-◌, ◌*◌, ◌/◌, ◌^◌, max, ◌≡◌, refl, ◌↔◌, true, none, some, [], ◌∷◌, ◌++◌, arith, ltb,
  if◌then◌else◌, Text, codes, ◌==◌, trim, strip_prefix, lines, split_whitespace, parse_unsigned,
  pos,
}
use codery.Files.{missing, content, Files, read_to_string}
use codery.HostMetrics.{Floats, parse_meminfo, parse_memory_events}
use codery.HostMetrics.Health.{derive_health}
use codery.HostMetrics.Health.Verdict.{Alarm, derive_health_iff}
use codery.HostMetrics.Processes.{MetricsState, oom_kills_of, collect}
use codery.HostMetrics.Processes.Samples.{collect-collect}
use codery.HostMetrics.Stat.{parse_i32, stat_fields, parsed, parse_stat}
use codery.HostMetrics.Stat.Fields.{parse_stat_lem}

abbrev whole : Floats ℕ
whole = record {
  from_str = parse_unsigned (2 ^ 64 - 1);
  of_nat = λ n. n;
  less = ltb;
  div = λ a b. a / b;
  mul = λ a b. a * b;
  sub = λ a b. a - b;
  max = λ a b. max a b;
  to_u64 = λ n. n;
}

abbrev meminfo : Text
meminfo = codes "MemTotal:       8192000 kB\nMemAvailable:   409600 kB\nSwapCached:  0 kB\n"

available_test : (parse_meminfo whole meminfo).available_mb ≡ 400
unfolding parse_meminfo lines strip_prefix split_whitespace parse_unsigned
available_test = refl

red_test : (derive_health whole (parse_meminfo whole meminfo) none (some 3) 3).status ≡ codes "red"
unfolding parse_meminfo derive_health lines strip_prefix split_whitespace parse_unsigned
red_test = refl

derive_health_iff_example :
    ((derive_health whole (parse_meminfo whole meminfo) none (some 3) 3).status ≡ codes "red")
    ↔ Alarm whole (parse_meminfo whole meminfo) none (some 3) 3
derive_health_iff_example = derive_health_iff whole (parse_meminfo whole meminfo) none (some 3) 3

abbrev after_name : Text
after_name = codes " S 1 42 42 0 -1 4194560 100 0 0 0 250 50 0 0 20 0"

fields_test :
    stat_fields (pos 42) (split_whitespace after_name)
    ≡ some (record { pid = pos 42; parent_pid = pos 1; state = codes "S"; utime = 250; stime = 50 })
unfolding stat_fields split_whitespace parse_unsigned
fields_test = refl

parse_stat_lem_example :
    parse_stat (codes "42 " ++ b'(' ∷ (codes "a) (b" ++ b')' ∷ after_name))
    ≡ parsed (stat_fields (pos 42) (split_whitespace after_name))
unfolding parse_i32 trim parse_unsigned
parse_stat_lem_example =
    parse_stat_lem (codes "42 ") (codes "a) (b") after_name (pos 42) refl refl refl

abbrev events : Text → Files
events text = record {
  entry = λ p. if p == codes "/sys/fs/cgroup/memory.events" then content text else missing;
  writable = λ p. true;
}

abbrev fresh : MetricsState ℕ
fresh = record { prev = none; prev_oom = none }

collect-collect_example :
    (collect whole 100
      (events (codes "low 0\noom_kill 4\n"))
      20
      []
      none
      (collect whole 100 (events (codes "oom_kill 3\n")) 10 [] none fresh).1).0.health.status
    ≡ codes "red"
unfolding oom_kills_of parse_memory_events read_to_string ◌==◌ lines strip_prefix parse_unsigned
    trim
collect-collect_example =
    collect-collect whole 100 (events (codes "oom_kill 3\n")) (events (codes "low 0\noom_kill 4\n"))
      10 20 [] [] none none fresh (omega arith)
