-- ===== src/HostMetrics/Stat.antt =====
-- host_metrics.rs: one process, as its files under /proc give it.
pub mod Fields
use codery.Base.{
  ℕ, ◌+◌, ◌-◌, ◌^◌, Bool, ◌&&◌, ◌||◌, Option, none, some, List, [], ◌∷◌, ltb, leb, eqb,
  if◌then◌else◌, map_option, and_then, Text, codes, trim, starts_with, split_once, cut, lines,
  split_whitespace, parse_unsigned, ℤ, pos, minus, length, get_elem?, drop, first, filter_map,
}
use codery.HostMetrics.{Floats}

-- `str::rfind` of a character: what stands before its last occurrence, and what stands after it.
unfoldable pub split_last : ℕ → Text → Option (Text × Text)
split_last c [] = none
split_last c (d ∷ s) = elim (split_last c s) [
  | some p ↦ some (d ∷ p.0, p.1)
  | none ↦ if eqb c d then some ([], s) else none
]

-- `str::parse` into an `i32`.
unfoldable pub parse_i32 : Text → Option ℤ
parse_i32 [] = none
parse_i32 (c ∷ s) =
    if eqb c b'-'
    then if starts_with (codes "+") s then none else map_option minus (parse_unsigned (2 ^ 31) s)
    else map_option pos (parse_unsigned (2 ^ 31 - 1) (c ∷ s))

pub record Stat : Type 0 where
  pub pid : ℤ
  pub parent_pid : ℤ
  pub state : Text
  pub utime : ℕ
  pub stime : ℕ

abbrev pub parse_u64 : Text → Option ℕ
parse_u64 s = parse_unsigned (2 ^ 64 - 1) s

-- The fields after the name: the state, the parent, and the eleventh and twelfth after the state.
unfoldable pub stat_fields : ℤ → List Text → Option Stat
unfolding parse_i32
stat_fields pid rest = and_then (get_elem? rest 0) λ state. and_then (get_elem? rest 1) λ parent.
    and_then (get_elem? rest 11) λ user. and_then (get_elem? rest 12) λ system.
      and_then (parse_i32 parent) λ parent_pid. and_then (parse_u64 user) λ utime.
        and_then (parse_u64 system) λ stime. some (record {
          pid = pid;
          parent_pid = parent_pid;
          state = state;
          utime = utime;
          stime = stime;
        })

-- What `parse_stat` comes to: it panics where the last `)` stands before the first `(`.
pub data Parsed : Type 0 where
  panicked : Parsed
  parsed : Option Stat → Parsed

unfoldable pub parse_stat : Text → Parsed
unfolding split_last parse_i32 stat_fields
parse_stat text = elim (split_once b'(' text) [
  | none ↦ parsed none
  | some opened ↦ elim (split_last b')' text) [
    | none ↦ parsed none
    | some close ↦ elim (parse_i32 (trim opened.0)) [
      | none ↦ parsed none
      | some pid ↦
          if ltb (length close.0) (length opened.0 + 1)
          then panicked
          else parsed (stat_fields pid (split_whitespace close.1))
    ]
  ]
]

-- The resident memory: the second field times the size of a page.
unfoldable pub parse_statm_rss_bytes : {F : Type 0} → Floats F → Text → F → ℕ
parse_statm_rss_bytes fl text page_size =
    elim (and_then (get_elem? (split_whitespace text) 1) parse_u64) [
      | none ↦ 0
      | some pages ↦ fl.to_u64 (fl.mul (fl.of_nat pages) page_size)
    ]

abbrev is_ascii_hexdigit : ℕ → Bool
is_ascii_hexdigit c =
    (leb b'0' c && leb c b'9') || ((leb b'a' c && leb c b'f') || (leb b'A' c && leb c b'F'))

-- `take_while(is_ascii_hexdigit)`.
hex_start : Text → Text
hex_start [] = []
hex_start (c ∷ s) = let rest = hex_start s in if is_ascii_hexdigit c then c ∷ rest else []

container_id_in : Text → Option Text
unfolding hex_start
container_id_in line = and_then (cut (codes "docker-") line) λ p.
    let id = hex_start (drop (length (codes "docker-")) p.1) in
    if eqb (length id) 64 then some id else none

unfoldable pub parse_cgroup_container : Text → Option Text
unfolding container_id_in
parse_cgroup_container text = first (filter_map container_id_in (lines text))
