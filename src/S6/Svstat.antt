-- ===== src/S6/Svstat.antt =====
-- s6.rs: the answer of s6-svstat for all services. A process number is an `i64`.
use codery.Base.{
  ℕ, ◌-◌, ◌^◌, Bool, Option, none, some, List, [], ◌∷◌, eqb, if◌then◌else◌, map_option, and_then,
  Text, codes, ◌==◌, starts_with, split_once, lines, split_whitespace, parse_unsigned, ℤ, pos,
  minus, is_empty, filter_map,
}

pub record SvcStat : Type 0 where
  pub name : Text
  pub up : Bool
  pub pid : ℤ
  pub uptime_secs : ℕ

-- `str::parse` into an `i64`.
unfoldable pub parse_i64 : Text → Option ℤ
parse_i64 [] = none
parse_i64 (c ∷ s) =
    if eqb c b'-'
    then if starts_with (codes "+") s then none else map_option minus (parse_unsigned (2 ^ 63) s)
    else map_option pos (parse_unsigned (2 ^ 63 - 1) (c ∷ s))

fields : Text → List Text → Option SvcStat
unfolding parse_i64
fields name (up ∷ pid ∷ uptime ∷ rest) = and_then (parse_i64 pid) λ p.
    and_then (parse_unsigned (2 ^ 64 - 1) uptime)
      λ n. some (record { name = name; up = up == codes "true"; pid = p; uptime_secs = n })
fields name _ = none

unfoldable pub parse_line : Text → Option SvcStat
unfolding fields
parse_line line =
    and_then (split_once b'|' line)
      λ p. if is_empty p.0 then none else fields p.0 (split_whitespace p.1)

unfoldable pub parse_svstat_batch : Text → List SvcStat
unfolding parse_line
parse_svstat_batch text = filter_map parse_line (lines text)

-- The command whose output is read, with the names of s6's own services.
abbrev pub svstat_batch_cmd : Text
svstat_batch_cmd =
    codes
      "for d in /run/service/*/; do n=$(basename \"$d\"); case \"$n\" in s6-linux-init-shutdownd|s6rc-fdholder|s6rc-oneshot-runner) continue;; esac; echo \"$n|$(/command/s6-svstat -o up,pid,updownfor \"$d\")\"; done"
