-- ===== src/ServiceDef/Env/Substitution.antt =====
-- The loop of `substitute_env`: when it ends, and when it does not.
use codery.Base.{
  ℕ, zero, suc, ◌+◌, ◌≤◌, ◌<◌, ◌≡◌, refl, ap, ◌⊎◌, inl, inr, true, false, none, some, [], ◌∷◌, ◌++◌,
  append-nil, arith, eqb, if◌then◌else◌, Bool-cases, Option-cases, Text, codes, starts_with,
  contains_char, cut, drop, All, Assoc, lookup, Error, missing_env, unclosed_placeholder, Result,
  ok, err,
}
use codery.ServiceDef.Env.{Round, closed, refused, replaced, substitute_first, substitute_loop}

-- How many `$` a text has.
unfoldable pub count_dollar : Text → ℕ
count_dollar [] = 0
count_dollar (c ∷ s) = (if eqb c b'$' then 1 else 0) + count_dollar s

count_dollar-append : (s t : Text) → count_dollar (s ++ t) ≡ count_dollar s + count_dollar t
unfolding count_dollar
count_dollar-append [] t = omega arith
count_dollar-append (c ∷ s) t = ground (arith, count_dollar-append s t)

-- `cut` splits the text, and the second part begins with the pattern.
cut_parts : (p s a b : Text) → cut p s ≡ some (a, b) → (a ++ b ≡ s) × (starts_with p b ≡ true)
unfolding cut
cut_parts p [] a b h = elim (Bool-cases (starts_with p [])) [
  | inl e ↦ ground arith
  | inr e ↦ ground arith
]
cut_parts p (c ∷ s) [] b h = ground arith
cut_parts p (c ∷ s) (d ∷ a) b h = ground (arith, cut_parts p s a b)

opening : (s : Text) → starts_with (codes "${") s ≡ true → (t : Text) × (s ≡ b'$' ∷ t)
unfolding starts_with
opening [] h = ground arith
opening (c ∷ s) h = (s, ground arith)

cut_after_dollar :
    (t o r : Text) → cut (codes "}") (b'$' ∷ t) ≡ some (o, r) → (u : Text) × (o ≡ b'$' ∷ u)
unfolding cut starts_with
cut_after_dollar t o r h = ground arith

-- No value in the map has a `$`.
abbrev pub PlainValues : Assoc Text → Type 0
PlainValues = All (λ e. count_dollar e.1 ≡ 0)

lookup-PlainValues :
    (k v : Text) (env : Assoc Text) → PlainValues env → lookup k env ≡ some v → count_dollar v ≡ 0
unfolding lookup
lookup-PlainValues k v [] h e = ground arith
lookup-PlainValues k v ((j, w) ∷ env) h e = ground (arith, lookup-PlainValues k v env h.1)

-- What a round that replaces has found: the text around the placeholder, and the value.
record Replacement (env : Assoc Text) (s t : Text) : Type 0 where
  before : Text
  opened : Text
  rest : Text
  value : Text
  whole : before ++ (opened ++ rest) ≡ s
  dollar : 0 < count_dollar opened
  bound : lookup (drop 2 opened) env ≡ some value
  result : t ≡ before ++ (value ++ drop 1 rest)

opened_dollar :
    (found opened rest : Text)
    → starts_with (codes "${") found ≡ true
    → cut (codes "}") found ≡ some (opened, rest)
    → 0 < count_dollar opened
unfolding count_dollar
opened_dollar found opened rest h e =
    let (x, p) = opening found h in
    let (u, q) = cut_after_dollar x opened rest (rw p at e) in rw q (omega arith)

Replacement-of :
    (env : Assoc Text) (s t : Text) → substitute_first env s ≡ replaced t → Replacement env s t
unfolding substitute_first
Replacement-of env s t e = elim (Option-cases (cut (codes "${") s)) [
  | inl f ↦ absurd (ground (arith, f))
  | inr ((before, found), f) ↦ elim (Option-cases (cut (codes "}") found)) [
    | inl g ↦ absurd (ground (arith, f, g))
    | inr ((opened, rest), g) ↦ elim (Option-cases (lookup (drop 2 opened) env)) [
      | inl l ↦ absurd (ground (arith, f, g, l))
      | inr (value, l) ↦ record {
        before = before;
        opened = opened;
        rest = rest;
        value = value;
        whole =
            rw (cut_parts (codes "}") found opened rest g).0
              (cut_parts (codes "${") s before found f).0;
        dollar = opened_dollar found opened rest (cut_parts (codes "${") s before found f).1 g;
        bound = l;
        result = ground (arith, f, g, l);
      }
    ]
  ]
]

count_dollar-drop : (n : ℕ) (s : Text) → count_dollar (drop n s) ≤ count_dollar s
unfolding count_dollar
count_dollar-drop zero s = omega arith
count_dollar-drop (suc n) [] = omega arith
count_dollar-drop (suc n) (c ∷ s) = omega (arith, count_dollar-drop n s)

-- A round that replaces takes the `$` of its placeholder away.
replaced_smaller :
    (env : Assoc Text) (s t : Text)
    → PlainValues env
    → substitute_first env s ≡ replaced t
    → count_dollar t < count_dollar s
replaced_smaller env s t h e =
    let r = Replacement-of env s t e in
    omega (
      arith,
      ap count_dollar r.whole,
      ap count_dollar r.result,
      r.dollar,
      count_dollar-append r.before (r.opened ++ r.rest),
      count_dollar-append r.opened r.rest,
      count_dollar-append r.before (r.value ++ drop 1 r.rest),
      count_dollar-append r.value (drop 1 r.rest),
      count_dollar-drop 1 r.rest,
      lookup-PlainValues (drop 2 r.opened) r.value env h r.bound,
    )

-- A round that stops has no placeholder before it.
closed_lem :
    (env : Assoc Text) (s : Text) → substitute_first env s ≡ closed → cut (codes "${") s ≡ none
unfolding substitute_first
closed_lem env s e = ground arith

-- A result of the loop: a refusal, or a text with no placeholder left.
abbrev pub Final : Result Text → Type 0
Final (ok t) = cut (codes "${") t ≡ none
Final (err e) = (e ≡ unclosed_placeholder) ⊎ (e ≡ missing_env)

refused_lem :
    (env : Assoc Text) (s : Text) (x : Error) → substitute_first env s ≡ refused x → Final (err x)
unfolding substitute_first
refused_lem env s x e = ground arith

Round-cases :
    (r : Round) → (r ≡ closed) ⊎ ((x : Error) × (r ≡ refused x)) ⊎ ((t : Text) × (r ≡ replaced t))
Round-cases closed = inl refl
Round-cases (refused x) = inr (inl (x, refl))
Round-cases (replaced t) = inr (inr (t, refl))

-- Where no value of the map has a `$`, the loop ends: with more rounds at hand than the text has
-- `$`, it refuses for an unclosed or an unknown placeholder, or gives a text with no placeholder.
pub substitute_total :
    (fuel : ℕ) (env : Assoc Text) (s : Text)
    → PlainValues env
    → count_dollar s < fuel
    → (r : Result Text) × (substitute_loop fuel env s ≡ some r) × Final r
unfolding substitute_loop
substitute_total zero env s h lt = absurd (omega arith)
substitute_total (suc fuel) env s h lt = elim (Round-cases (substitute_first env s)) [
  | inl e ↦ (ok s, rw (e, substitute_loop), closed_lem env s e)
  | inr (inl (x, e)) ↦ (err x, rw (e, substitute_loop), refused_lem env s x e)
  | inr (inr (t, e)) ↦
      let less = replaced_smaller env s t h e in
      rw (e, substitute_loop) (substitute_total fuel env t h (omega arith))
]

cut_char :
    (s r : Text)
    → contains_char b'}' s ≡ false
    → cut (codes "}") (s ++ b'}' ∷ r) ≡ some (s, b'}' ∷ r)
unfolding cut starts_with
cut_char [] r h = refl
cut_char (c ∷ s) r h = ground (arith, cut_char s r)

abbrev placeholder : Text → Text
placeholder k = codes "${" ++ (k ++ codes "}")

placeholder_first : (k : Text) → cut (codes "${") (placeholder k) ≡ some ([], placeholder k)
unfolding cut starts_with
placeholder_first k = refl

self_replaced :
    (env : Assoc Text) (k : Text)
    → contains_char b'}' k ≡ false
    → lookup k env ≡ some (placeholder k)
    → substitute_first env (placeholder k) ≡ replaced (placeholder k)
unfolding substitute_first
self_replaced env k h e = rw (
  placeholder_first k,
  substitute_first,
  cut_char (codes "${" ++ k) [] h,
  e,
  append-nil (placeholder k),
)

-- A variable whose name has no `}` and whose value is its own placeholder is never done with:
-- from that placeholder the loop has no result after any number of rounds.
pub substitute_diverges :
    (fuel : ℕ) (env : Assoc Text) (k : Text)
    → contains_char b'}' k ≡ false
    → lookup k env ≡ some (placeholder k)
    → substitute_loop fuel env (placeholder k) ≡ none
unfolding substitute_loop
substitute_diverges zero env k h e = refl
substitute_diverges (suc fuel) env k h e =
    rw (self_replaced env k h e, substitute_loop) (substitute_diverges fuel env k h e)
