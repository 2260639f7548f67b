-- ===== src/HostMetrics/Stat/Fields.antt =====
-- host_metrics.rs, parse_stat: what stands in the name of a process does not matter.
use codery.Base.{
  ℕ, ◌+◌, ◌≡◌, refl, sym, false, none, some, [], ◌∷◌, ◌++◌, append_assoc, arith, ltb, eqb, eqb_refl,
  Text, trim, contains_char, split_once, split_whitespace, ℤ, length, length-append,
}
use codery.HostMetrics.Stat.{split_last, parse_i32, stat_fields, parsed, parse_stat}

other :
    (c d : ℕ) (s : Text)
    → contains_char c (d ∷ s) ≡ false
    → (eqb c d ≡ false) × (contains_char c s ≡ false)
other c d s h = (ground arith, ground arith)

split_once-append :
    (c : ℕ) (s t : Text) → contains_char c s ≡ false → split_once c (s ++ c ∷ t) ≡ some (s, t)
unfolding split_once
split_once-append c [] t h = rw (eqb_refl c) refl
split_once-append c (d ∷ s) t h =
    rw ((other c d s h).0, split_once-append c s t (other c d s h).1) refl

split_last-without : (c : ℕ) (s : Text) → contains_char c s ≡ false → split_last c s ≡ none
unfolding split_last
split_last-without c [] h = refl
split_last-without c (d ∷ s) h =
    rw (split_last-without c s (other c d s h).1, (other c d s h).0) refl

split_last-append :
    (c : ℕ) (s t : Text) → contains_char c t ≡ false → split_last c (s ++ c ∷ t) ≡ some (s, t)
unfolding split_last
split_last-append c [] t h = rw (split_last-without c t h) (ground arith)
split_last-append c (d ∷ s) t h = rw (split_last-append c s t h) refl

last_paren :
    (number name rest : Text)
    → contains_char b')' rest ≡ false
    → split_last b')' (number ++ b'(' ∷ (name ++ b')' ∷ rest)) ≡ some (number ++ b'(' ∷ name, rest)
last_paren number name rest k =
    rw (sym (append_assoc number (b'(' ∷ name) (b')' ∷ rest)))
      (split_last-append b')' (number ++ b'(' ∷ name) rest k)

short : (number name : Text) → ltb (length (number ++ b'(' ∷ name)) (length number + 1) ≡ false
short number name = rw (length-append number (b'(' ∷ name)) (ground arith)

-- Whatever the name of a process holds, also white space and parentheses, the fields are those that
-- stand after it, where its number has no `(` and the fields have no `)`.
pub parse_stat_lem :
    (number name rest : Text) (pid : ℤ)
    → contains_char b'(' number ≡ false
    → contains_char b')' rest ≡ false
    → parse_i32 (trim number) ≡ some pid
    → parse_stat (number ++ b'(' ∷ (name ++ b')' ∷ rest))
      ≡ parsed (stat_fields pid (split_whitespace rest))
unfolding parse_stat
parse_stat_lem number name rest pid h k e =
    rw
      (
        parse_stat,
        split_once-append b'(' number (name ++ b')' ∷ rest) h,
        last_paren number name rest k,
        e,
        short number name,
      )
      refl
