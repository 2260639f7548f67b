-- ===== src/S6/Quoting.antt =====
-- What a shell makes of a quoted text.
-- A word as the shell reads it (POSIX, Quoting): between `'` every character stands for itself, and
-- outside of them only an escaped one does; `none`: the word is not closed, or has a character that
-- may be expanded or end the word. The first argument: whether a `'` is open.
use codery.Base.{
  ◌≡◌, refl, sym, ap, ◌∙◌, inl, inr, Bool, true, false, Option, none, some, [], ◌∷◌, ◌++◌, eqb,
  if◌then◌else◌, eqb_iff, Bool-cases, map_option, Text, codes,
}
use codery.S6.{shell_quote, quote_chars}

unfoldable pub shell_word : Bool → Text → Option Text
shell_word true [] = none
shell_word true (c ∷ s) =
    let after = shell_word false s in
    let more = map_option (λ w. c ∷ w) (shell_word true s) in if eqb c 39 then after else more
shell_word false [] = some []
shell_word false (c ∷ []) = none
shell_word false (c ∷ d ∷ s) =
    let opened = shell_word true (d ∷ s) in
    let escaped = map_option (λ w. d ∷ w) (shell_word false s) in
    if eqb c 39 then opened else if eqb c 92 then escaped else none

opening : (t : Text) → shell_word false (39 ∷ t) ≡ shell_word true t
unfolding shell_word
opening [] = refl
opening (d ∷ t) = refl

shell_word-quote_chars : (s : Text) → shell_word true (quote_chars s ++ codes "'") ≡ some s
unfolding shell_word quote_chars
shell_word-quote_chars [] = refl
shell_word-quote_chars (c ∷ s) = elim (Bool-cases (eqb c 39)) [
  | inl e ↦ rw e (
      ap (map_option (λ w. 39 ∷ w))
        (opening (quote_chars s ++ codes "'") ∙ shell_word-quote_chars s)
      ∙ ap (λ n. some (n ∷ s)) (sym ((eqb_iff c 39).0 e)))
  | inr e ↦ rw e (rw e (ap (map_option (λ w. c ∷ w)) (shell_word-quote_chars s)))
]

-- A shell reads a quoted text as one word, which is the text itself, whatever its characters are.
pub shell_word-shell_quote : (s : Text) → shell_word false (shell_quote s) ≡ some s
unfolding shell_quote
shell_word-shell_quote s = opening (quote_chars s ++ codes "'") ∙ shell_word-quote_chars s
