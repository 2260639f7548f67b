-- ===== src/Base/Outcome/Triple.antt =====
-- What a computation ensures when it succeeds and when it fails, and one rule for each way to
-- build a computation.
use codery.Base.Bools.{if◌then◌else◌}
use codery.Base.Outcome.{Error, Result, ok, err, Exec, step_on, pure, fail, query, ◌>>=◌}
use mathlib.Core.Bool.{Bool, true, false}
use mathlib.Core.Path.{◌≡◌, refl, sym, ap, subst}

abbrev pub Post : {S A : Type 0} → (A → S → Type 0) → (S → Type 0) → Result A × S → Type 0
Post Q E (ok a, s) = Q a s
Post Q E (err e, s) = E s

-- From a state with `P`, a success ends with `Q` and a failure with `E`.
pub record Triple {S A : Type 0} (P : S → Type 0) (m : Exec S A) (Q : A → S → Type 0)
    (E : S → Type 0) : Type 0 where
  pub at : (s : S) → P s → Post Q E (m s)

module _ {S A : Type 0} where
  Post-weaken :
      {Q R : A → S → Type 0} {E F : S → Type 0} (o : Result A × S)
      → ((a : A) (s : S) → Q a s → R a s)
      → ((s : S) → E s → F s)
      → Post Q E o
      → Post R F o
  Post-weaken (ok a, s) q e h = q a s h
  Post-weaken (err x, s) q e h = e s h

  pub triple_weaken :
      {P : S → Type 0} {Q R : A → S → Type 0} {E F : S → Type 0} {m : Exec S A}
      → Triple P m Q E
      → ((a : A) (s : S) → Q a s → R a s)
      → ((s : S) → E s → F s)
      → Triple P m R F
  triple_weaken {m} t q e = record { at = λ s h. Post-weaken (m s) q e (t.at s h) }

  pub triple_pre :
      {P O : S → Type 0} {Q : A → S → Type 0} {E : S → Type 0} {m : Exec S A}
      → ((s : S) → O s → P s)
      → Triple P m Q E
      → Triple O m Q E
  triple_pre f t = record { at = λ s h. t.at s (f s h) }

  Post-of_state : (P : S → Type 0) (o : Result A × S) → P o.1 → Post (λ _ s. P s) P o
  Post-of_state P (ok a, s) h = h
  Post-of_state P (err x, s) h = h

  -- What holds of the final state whatever the result is.
  pub triple_of_state :
      {P R : S → Type 0} {m : Exec S A} → ((s : S) → P s → R (m s).1) → Triple P m (λ _ s. R s) R
  triple_of_state {R} {m} f = record { at = λ s h. Post-of_state R (m s) (f s h) }

  Post-of_query :
      (P : S → Type 0) (f : S → Result A) (s : S) (r : Result A)
      → f s ≡ r
      → P s
      → Post (λ a t. P t × (f t ≡ ok a)) P (r, s)
  Post-of_query P f s (ok a) e h = (h, e)
  Post-of_query P f s (err x) e h = h

  pub triple_query :
      (P : S → Type 0) (f : S → Result A) → Triple P (query f) (λ a s. P s × (f s ≡ ok a)) P
  unfolding ◌>>=◌
  triple_query P f = record { at = λ s h. Post-of_query P f s (f s) refl h }

  pub triple_pure :
      {P : S → Type 0} {Q : A → S → Type 0} {E : S → Type 0} (a : A)
      → ((s : S) → P s → Q a s)
      → Triple P (pure a) Q E
  unfolding ◌>>=◌
  triple_pure a f = record { at = f }

  pub triple_fail :
      {P E : S → Type 0} {Q : A → S → Type 0} (x : Error)
      → ((s : S) → P s → E s)
      → Triple P (fail x) Q E
  unfolding ◌>>=◌
  triple_fail x f = record { at = f }

  pub triple_if :
      {P : S → Type 0} {Q : A → S → Type 0} {E : S → Type 0} {m n : Exec S A} (b : Bool)
      → (b ≡ true → Triple P m Q E)
      → (b ≡ false → Triple P n Q E)
      → Triple P (if b then m else n) Q E
  triple_if true tm tn = tm refl
  triple_if false tm tn = tn refl

module _ {S A B : Type 0} where
  step_on-Post :
      {Q : A → S → Type 0} {R : B → S → Type 0} {E : S → Type 0} (o : Result A × S)
      (f : A → Exec S B)
      → Post Q E o
      → ((a : A) → Triple (Q a) (f a) R E)
      → Post R E (step_on o f)
  step_on-Post (ok a, s) f h t = (t a).at s h
  step_on-Post (err x, s) f h t = h

  pub triple_bind :
      {P E : S → Type 0} {Q : A → S → Type 0} {R : B → S → Type 0} {m : Exec S A} {f : A → Exec S B}
      → Triple P m Q E
      → ((a : A) → Triple (Q a) (f a) R E)
      → Triple P (m >>= f) R E
  unfolding ◌>>=◌
  triple_bind {m} {f} t k = record { at = λ s h. step_on-Post (m s) f (t.at s h) k }

module _ {S A : Type 0} where
  Post-by_result :
      (Q : A → S → Type 0) (E : S → Type 0) (r : Result A) (t : S)
      → ((a : A) → r ≡ ok a → Q a t)
      → ((x : Error) → r ≡ err x → E t)
      → Post Q E (r, t)
  Post-by_result Q E (ok a) t q e = q a refl
  Post-by_result Q E (err x) t q e = e x refl

  pub triple_by_result :
      {P E : S → Type 0} {Q : A → S → Type 0} {m : Exec S A}
      → ((s : S) → P s → (a : A) → (m s).0 ≡ ok a → Q a (m s).1)
      → ((s : S) → P s → (x : Error) → (m s).0 ≡ err x → E (m s).1)
      → Triple P m Q E
  triple_by_result {E} {Q} {m} q e = record {
    at = λ s h. Post-by_result Q E (m s).0 (m s).1 (q s h) (e s h);
  }

-- Where success and failure ensure the same of the state, it holds of the final state.
pub post_state :
    {S A : Type 0} (P : S → Type 0) {R : S → Type 0} {m : Exec S A}
    → Triple R m (λ _ s. P s) P
    → (s : S) → R s
    → P (m s).1
post_state {S = S} {A = A} P {m = m} t s h = go (m s) (t.at s h)
  where
    go : (o : Result A × S) → Post (λ _ s. P s) P o → P o.1
    go (ok a, t) k = k
    go (err x, t) k = k

step_on_ok :
    {S A B : Type 0} (o : Result A × S) (f : A → Exec S B) (b : B) (t : S)
    → step_on o f ≡ (ok b, t)
    → (a : A) × (o.0 ≡ ok a) × (f a o.1 ≡ (ok b, t))
step_on_ok (ok a, s) f b t h = (a, refl, h)
step_on_ok (err e, s) f b t h = let k : err e ≡ ok b = ap (λ r. r.0) h in cc

-- A sequence that succeeds: both parts do.
pub bind_ok :
    {S A B : Type 0} (m : Exec S A) (f : A → Exec S B) (s : S) (b : B) (t : S)
    → (m >>= f) s ≡ (ok b, t)
    → (a : A) × ((m s).0 ≡ ok a) × (f a (m s).1 ≡ (ok b, t))
unfolding ◌>>=◌
bind_ok m f s b t h = step_on_ok (m s) f b t h

pub query_ok :
    {S A B : Type 0} (look : S → Result A) (f : A → Exec S B) (s : S) (b : B) (t : S)
    → (query look >>= f) s ≡ (ok b, t)
    → (a : A) × (look s ≡ ok a) × (f a s ≡ (ok b, t))
unfolding ◌>>=◌
query_ok look f s b t h = step_on_ok (look s, s) f b t h

-- A property of the state at the end of a sequence: after a look, and after a step that gives it.
module _ {S A B : Type 0} (R : S → Type 0) (f : A → Exec S B) where
  after_look :
      (r : Result A) (s : S) → R s → ((a : A) → r ≡ ok a → R (f a s).1) → R (step_on (r, s) f).1
  after_look (ok a) s h k = k a refl
  after_look (err e) s h k = h

  pub after_query :
      (look : S → Result A) (s : S)
      → R s
      → ((a : A) → look s ≡ ok a → R (f a s).1)
      → R ((query look >>= f) s).1
  unfolding ◌>>=◌
  after_query look s h k = after_look (look s) s h k

  pub after_known :
      (look : S → Result A) (s : S) (a : A)
      → look s ≡ ok a
      → R (f a s).1
      → R ((query look >>= f) s).1
  unfolding ◌>>=◌
  after_known look s a e k = subst (λ r. R (step_on (r, s) f).1) (sym e) k

  after_step :
      (o : Result A × S) → R o.1 → ((a : A) (t : S) → R t → R (f a t).1) → R (step_on o f).1
  after_step (ok a, s) h k = k a s h
  after_step (err e, s) h k = h

  pub after_bind :
      (m : Exec S A) (s : S) → R (m s).1 → ((a : A) (t : S) → R t → R (f a t).1) → R ((m >>= f) s).1
  unfolding ◌>>=◌
  after_bind m s h k = after_step (m s) h k

-- A relation of the states before and after, kept by each computation of a sequence.
module _ {S : Type 0} (R : S → S → Type 0) (stay : (s : S) → R s s)
    (chain : (s t u : S) → R s t → R t u → R s u) where
  pub bind_within :
      {A B : Type 0} (m : Exec S A) (f : A → Exec S B)
      → ((s : S) → R s (m s).1)
      → ((a : A) (s : S) → R s (f a s).1)
      → (s : S) → R s ((m >>= f) s).1
  bind_within m f k l s =
      post_state (R s) {R = R s}
        (triple_bind (triple_of_state {R = R s} (λ t h. chain s t (m t).1 h (k t)))
          (λ a. triple_of_state {R = R s} (λ t h. chain s t (f a t).1 h (l a t))))
        s (stay s)
