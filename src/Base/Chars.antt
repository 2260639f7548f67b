-- ===== src/Base/Chars.antt =====
-- A Rust `str` as the list of its code points, with the operations of `str` that the program uses.
pub mod Trim
use Prim.Native.Char.{code}
use Prim.Native.Nat.{ℕ, zero, suc, ◌+◌, ◌-◌, ◌*◌, ◌/◌, ◌%◌, ◌^◌}
use Prim.Native.String.{String}
use codery.Base.Bools.{ltb, leb, eqb, if◌then◌else◌, Bool-cases, map_option, filter_option}
use codery.Base.Lists.{any, is_empty}
use mathlib.Core.Bool.{Bool, true, false, ◌&&◌, ◌||◌}
use mathlib.Core.List.{List, [], ◌∷◌, reverse}
use mathlib.Core.Logic.{◌≢◌, ◌↔◌, inl, inr}
use mathlib.Core.Option.{Option, none, some}
use mathlib.Core.Path.{◌≡◌, refl}
use native.Mathlib.Omega.{arith}

abbrev pub Text : Type 0
Text = List ℕ

-- A text literal.
abbrev pub codes : String → Text
codes String.[] = []
codes (String.◌∷◌ c s) = code c ∷ codes s

infix 50 ◌==◌
unfoldable pub ◌==◌ : Text → Text → Bool
[] == [] = true
[] == (y ∷ t) = false
(x ∷ s) == [] = false
(x ∷ s) == (y ∷ t) = eqb x y && s == t

pub ==_iff : (s t : Text) → ((s == t) ≡ true) ↔ (s ≡ t)
unfolding ◌==◌
==_iff [] [] = ground arith
==_iff [] (y ∷ t) = ground arith
==_iff (x ∷ s) [] = ground arith
==_iff (x ∷ s) (y ∷ t) = ground (arith, ==_iff s t)

pub ==_refl : (s : Text) → (s == s) ≡ true
==_refl s = (==_iff s s).1 refl

pub ==_ne : (s t : Text) → s ≢ t → (s == t) ≡ false
==_ne s t h = elim (Bool-cases (s == t)) [ inl e ↦ absurd (h ((==_iff s t).0 e)) | inr e ↦ e ]

-- `char::is_whitespace`.
pub is_whitespace : ℕ → Bool
is_whitespace c =
    (leb 9 c && leb c 13)
    || eqb c 32
    || eqb c 0x85
    || eqb c 0xa0
    || eqb c 0x1680
    || (leb 0x2000 c && leb c 0x200a)
    || eqb c 0x2028
    || eqb c 0x2029
    || eqb c 0x202f
    || eqb c 0x205f
    || eqb c 0x3000

unfoldable pub trim_start : Text → Text
unfolding is_whitespace
trim_start [] = []
trim_start (c ∷ s) = if is_whitespace c then trim_start s else c ∷ s

unfoldable pub trim : Text → Text
unfolding trim_start
trim s = reverse (trim_start (reverse (trim_start s)))

-- `str::strip_prefix`, prefix first.
unfoldable pub strip_prefix : Text → Text → Option Text
strip_prefix [] s = some s
strip_prefix (p ∷ ps) [] = none
strip_prefix (p ∷ ps) (c ∷ s) = if eqb p c then strip_prefix ps s else none

-- `str::starts_with`, prefix first.
unfoldable pub starts_with : Text → Text → Bool
starts_with [] s = true
starts_with (p ∷ ps) [] = false
starts_with (p ∷ ps) (c ∷ s) = eqb p c && starts_with ps s

-- `str::contains` of a character.
abbrev pub contains_char : ℕ → Text → Bool
contains_char c = any (λ d. eqb c d)

-- `str::split_once` at a character.
unfoldable pub split_once : ℕ → Text → Option (Text × Text)
split_once c [] = none
split_once c (d ∷ s) =
    if eqb c d then some ([], s) else map_option (λ p. (d ∷ p.0, p.1)) (split_once c s)

-- Cut before the first occurrence of a pattern: what stands before it, and the rest from it on.
unfoldable pub cut : Text → Text → Option (Text × Text)
unfolding starts_with
cut p [] = if starts_with p [] then some ([], []) else none
cut p (c ∷ s) =
    if starts_with p (c ∷ s) then some ([], c ∷ s) else map_option (λ r. (c ∷ r.0, r.1)) (cut p s)

-- Put a character before the first piece.
grow : ℕ → List Text → List Text
grow x [] = (x ∷ []) ∷ []
grow x (t ∷ ts) = (x ∷ t) ∷ ts

-- The pieces between the occurrences of a character, at least one.
unfoldable pub split : ℕ → Text → List Text
unfolding grow
split c [] = [] ∷ []
split c (d ∷ s) = let rest = split c s in if eqb c d then [] ∷ rest else grow d rest

strip_cr : Text → Text
strip_cr [] = []
strip_cr (c ∷ []) = if eqb c 13 then [] else c ∷ []
strip_cr (c ∷ d ∷ s) = c ∷ strip_cr (d ∷ s)

-- The last piece is a line only if it is not empty, and keeps its carriage return.
end_lines : List Text → List Text
unfolding strip_cr
end_lines [] = []
end_lines (l ∷ []) = if is_empty l then [] else l ∷ []
end_lines (l ∷ m ∷ r) = strip_cr l ∷ end_lines (m ∷ r)

-- `str::lines`.
unfoldable pub lines : Text → List Text
unfolding end_lines split
lines s = end_lines (split 10 s)

-- The word read so far, if there is one, before the words that follow.
flush : Text → List Text → List Text
flush [] ws = ws
flush (c ∷ w) ws = reverse (c ∷ w) ∷ ws

words : Text → Text → List Text
unfolding is_whitespace flush
words w [] = flush w []
words w (c ∷ s) =
    let done = words [] s in
    let more = words (c ∷ w) s in if is_whitespace c then flush w done else more

-- `str::split_whitespace`.
unfoldable pub split_whitespace : Text → List Text
unfolding words
split_whitespace s = words [] s

digits : ℕ → ℕ → Text → Text
digits zero n acc = acc
digits (suc f) n acc =
    let rest = digits f (n / 10) ((48 + n % 10) ∷ acc) in if ltb n 10 then (48 + n) ∷ acc else rest

-- `u16::to_string` and `u64::to_string`: twenty digits are enough for both.
unfoldable pub number_text : ℕ → Text
unfolding digits
number_text n = digits 20 n []

decimal : ℕ → Text → Option ℕ
decimal n [] = some n
decimal n (c ∷ s) =
    let rest = decimal (n * 10 + (c - 48)) s in if leb 48 c && leb c 57 then rest else none

unsigned : Text → Option ℕ
unfolding decimal
unsigned [] = none
unsigned (c ∷ s) = decimal 0 (c ∷ s)

plus_sign : Text → Text
plus_sign [] = []
plus_sign (c ∷ s) = if eqb c b'+' then s else c ∷ s

-- `str::parse` into an unsigned type with a largest value: digits, after one `+` at most.
unfoldable pub parse_unsigned : ℕ → Text → Option ℕ
unfolding unsigned plus_sign
parse_unsigned bound s = filter_option (λ n. leb n bound) (unsigned (plus_sign s))

abbrev pub u16_mod : ℕ
u16_mod = 2 ^ 16
