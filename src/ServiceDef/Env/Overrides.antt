-- ===== src/ServiceDef/Env/Overrides.antt =====
-- The environment of a container after the overrides.
use codery.Base.{
  ◌≡◌, refl, sym, ap, ◌∙◌, ◌≢◌, inl, inr, Bool, true, false, not, some, List, [], ◌∷◌, ◌++◌,
  append-nil, append_assoc, arith, eqb_refl, Bool-cases, Text, codes, starts_with, contains_char,
  retain, All, In, Assoc,
}
use codery.ServiceDef.{ServiceDef}
use codery.ServiceDef.Env.{override, resolved_env, overridden}

-- The lines that set a key.
abbrev pub lines_of : Text → List Text → List Text
lines_of k = retain (λ line. starts_with (k ++ codes "=") line)

retain-append :
    (p : Text → Bool) (xs ys : List Text) → retain p (xs ++ ys) ≡ retain p xs ++ retain p ys
retain-append p [] ys = refl
retain-append p (x ∷ xs) ys = ground (arith, retain-append p xs ys)

-- Nothing is left of what was removed.
retain_absent : (p : Text → Bool) (xs : List Text) → retain p (retain (λ x. not (p x)) xs) ≡ []
retain_absent p [] = refl
retain_absent p (x ∷ xs) = ground (arith, retain_absent p xs)

retain_apart :
    (p q : Text → Bool) (xs : List Text)
    → ((x : Text) → p x ≡ true → q x ≡ true → ⊥)
    → retain p (retain (λ x. not (q x)) xs) ≡ retain p xs
retain_apart p q [] h = refl
retain_apart p q (x ∷ xs) h = ground (arith, h x, retain_apart p q xs h)

starts_with_self : (p s : Text) → starts_with p (p ++ s) ≡ true
unfolding starts_with
starts_with_self [] s = refl
starts_with_self (c ∷ p) s = rw (eqb_refl c) (starts_with_self p s)

-- A text that begins with a name and `=` begins with no other name and `=`.
starts_with_unique :
    (j k s : Text)
    → contains_char b'=' j ≡ false
    → contains_char b'=' k ≡ false
    → starts_with (j ++ codes "=") s ≡ true
    → starts_with (k ++ codes "=") s ≡ true
    → j ≡ k
unfolding starts_with
starts_with_unique [] [] s hj hk a b = refl
starts_with_unique [] (d ∷ k) [] hj hk a b = ground arith
starts_with_unique [] (d ∷ k) (c ∷ s) hj hk a b = ground arith
starts_with_unique (d ∷ j) [] [] hj hk a b = ground arith
starts_with_unique (d ∷ j) [] (c ∷ s) hj hk a b = ground arith
starts_with_unique (d ∷ j) (e ∷ k) [] hj hk a b = ground arith
starts_with_unique (d ∷ j) (e ∷ k) (c ∷ s) hj hk a b = ground (arith, starts_with_unique j k s)

-- The line that sets a key to a value.
abbrev pub setting : Text → Text → Text
setting k v = k ++ (codes "=" ++ v)

starts_with-setting : (k v : Text) → starts_with (k ++ codes "=") (setting k v) ≡ true
starts_with-setting k v =
    rw (sym (append_assoc k (codes "=") v)) (starts_with_self (k ++ codes "=") v)

abbrev sets : Text → Text → Bool
sets k line = starts_with (k ++ codes "=") line

-- What an override keeps, and the line that it adds.
lines_of-override :
    (j k v : Text) (env : List Text)
    → lines_of j (override k v env)
      ≡ retain (sets j) (retain (λ x. not (sets k x)) env) ++ retain (sets j) (setting k v ∷ [])
unfolding override
lines_of-override j k v env =
    retain-append (sets j) (retain (λ x. not (sets k x)) env) ((k ++ (codes "=" ++ v)) ∷ [])

lines_of-override_self :
    (k v : Text) (env : List Text) → lines_of k (override k v env) ≡ setting k v ∷ []
lines_of-override_self k v env =
    lines_of-override k k v env ∙ rw (retain_absent (sets k) env, starts_with-setting k v)

setting_of_other :
    (j k v : Text)
    → contains_char b'=' j ≡ false
    → contains_char b'=' k ≡ false
    → j ≢ k
    → sets j (setting k v) ≡ false
setting_of_other j k v hj hk ne = elim (Bool-cases (sets j (setting k v))) [
  | inl e ↦ absurd (ne (starts_with_unique j k (setting k v) hj hk e (starts_with-setting k v)))
  | inr e ↦ e
]

lines_of-override_ne :
    (j k v : Text) (env : List Text)
    → contains_char b'=' j ≡ false
    → contains_char b'=' k ≡ false
    → j ≢ k
    → lines_of j (override k v env) ≡ lines_of j env
lines_of-override_ne j k v env hj hk ne =
    lines_of-override j k v env
    ∙ rw
        (
          retain_apart (sets j) (sets k) env (λ x a b. ne (starts_with_unique j k x hj hk a b)),
          setting_of_other j k v hj hk ne,
        )
        (append-nil _)

-- No override is for this key.
abbrev pub Free : Text → Assoc Text → Type 0
Free k = All (λ o. k ≢ o.0)

-- The keys hold no `=`, and each is overridden once.
abbrev pub WellKeyed : Assoc Text → Type 0
WellKeyed [] = Unit
WellKeyed (o ∷ os) = (contains_char b'=' o.0 ≡ false) × Free o.0 os × WellKeyed os

lines_of-overridden-Free :
    (j : Text) (os : Assoc Text) (env : List Text)
    → contains_char b'=' j ≡ false
    → WellKeyed os
    → Free j os
    → lines_of j (overridden os env) ≡ lines_of j env
unfolding overridden
lines_of-overridden-Free j [] env hj w f = refl
lines_of-overridden-Free j ((k, v) ∷ os) env hj w f =
    lines_of-overridden-Free j os (override k v env) hj w.2 f.1
    ∙ lines_of-override_ne j k v env hj w.0 f.0

lines_of-overridden :
    (k v : Text) (os : Assoc Text) (env : List Text)
    → WellKeyed os
    → In (k, v) os
    → lines_of k (overridden os env) ≡ setting k v ∷ []
unfolding overridden
lines_of-overridden k v [] env w m = absurd m
lines_of-overridden k v ((j, u) ∷ os) env w (inl e) =
    rw (sym (ap (λ (o : Text × Text). o.0) e), sym (ap (λ (o : Text × Text). o.1) e))
      (lines_of-overridden-Free j os (override j u env) w.0 w.2 w.1
        ∙ lines_of-override_self j u env)
lines_of-overridden k v ((j, u) ∷ os) env w (inr m) =
    lines_of-overridden k v os (override j u env) w.2 m

-- Where the names of variables hold no `=` and each is overridden once: in the environment of a
-- container an overridden variable is set by exactly one line, that of its override, and the
-- lines of a variable that is not overridden are those of the `.env` file, in their order.
pub resolved_env_lem :
    (def : ServiceDef) (os : Assoc Text) (raw : List Text) (k v j : Text)
    → def.env_overrides ≡ some os
    → WellKeyed os
    → In (k, v) os
    → contains_char b'=' j ≡ false
    → Free j os
    → (lines_of k (resolved_env def raw) ≡ setting k v ∷ [])
      × (lines_of j (resolved_env def raw) ≡ lines_of j raw)
unfolding resolved_env
resolved_env_lem def os raw k v j e w m hj f =
    rw e (lines_of-overridden k v os raw w m, lines_of-overridden-Free j os raw hj w f)
