-- ===== src/Base/Chars/Trim.antt =====
-- Laws of `trim`.
use Prim.Native.Nat.{ℕ}
use codery.Base.Bools.{if◌then◌else◌, Bool-cases}
use codery.Base.Chars.{Text, codes, is_whitespace, trim_start, trim}
use codery.Base.Lists.{is_empty}
use mathlib.Core.Bool.{true}
use mathlib.Core.List.{[], ◌∷◌, ◌++◌, reverse, reverse-append}
use mathlib.Core.Logic.{inl, inr}
use mathlib.Core.Path.{◌≡◌, refl}

trim_start-append :
    (s : Text) (c : ℕ)
    → is_whitespace c ≡ true
    → trim_start (s ++ c ∷ []) ≡ (if is_empty (trim_start s) then [] else trim_start s ++ c ∷ [])
unfolding trim_start
trim_start-append [] c h = rw h
trim_start-append (d ∷ s) c h = elim (Bool-cases (is_whitespace d)) [
  | inl e ↦ rw e (trim_start-append s c h)
  | inr e ↦ rw e
]

trim_end-append :
    (t : Text) (c : ℕ)
    → is_whitespace c ≡ true
    → reverse (trim_start (reverse (if is_empty t then [] else t ++ c ∷ [])))
      ≡ reverse (trim_start (reverse t))
unfolding trim_start
trim_end-append [] c h = refl
trim_end-append (d ∷ t) c h = rw (reverse-append (d ∷ t) (c ∷ []), h)

-- White space at the end of a text does not change what `trim` gives.
pub trim-append : (s : Text) (c : ℕ) → is_whitespace c ≡ true → trim (s ++ c ∷ []) ≡ trim s
unfolding trim
trim-append s c h = rw (trim_start-append s c h) (trim_end-append (trim_start s) c h)

pub trim-newline : (s : Text) → trim (s ++ codes "\n") ≡ trim s
unfolding is_whitespace
trim-newline s = trim-append s 10 refl
