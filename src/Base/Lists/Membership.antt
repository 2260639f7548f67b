-- ===== src/Base/Lists/Membership.antt =====
-- Membership in, and predicates over, the lists that the list functions build.
use Prim.Native.Nat.{ℕ, zero, suc}
use codery.Base.Bools.{Bool-cases}
use codery.Base.Lists.{drop, take, retain, any, find_first, All, In}
use mathlib.Core.Bool.{Bool, true, false, false≢true}
use mathlib.Core.List.{List, [], ◌∷◌, ◌++◌, map}
use mathlib.Core.Logic.{◌↔◌, ◌⊎◌, inl, inr}
use mathlib.Core.Option.{none, some}
use mathlib.Core.Path.{◌≡◌, refl, sym, ap, ◌∙◌, subst}
use native.Mathlib.Omega.{arith}

module _ {A : Type 0} where
  pub All-In {κ} : (P : A → Type κ) (xs : List A) (a : A) → All P xs → In a xs → P a
  All-In P [] a h m = absurd m
  All-In P (x ∷ xs) a h (inl e) = subst P e h.0
  All-In P (x ∷ xs) a h (inr m) = All-In P xs a h.1 m

  pub In-All {κ} : (P : A → Type κ) (xs : List A) → ((a : A) → In a xs → P a) → All P xs
  In-All P [] h = tt
  In-All P (x ∷ xs) h = (h x (inl refl), In-All P xs (λ a m. h a (inr m)))

  pub All-append {κ} : (P : A → Type κ) (xs ys : List A) → All P xs → All P ys → All P (xs ++ ys)
  All-append P [] ys h k = k
  All-append P (x ∷ xs) ys h k = (h.0, All-append P xs ys h.1 k)

  pub In-drop : (k : ℕ) (xs : List A) (a : A) → In a (drop k xs) → In a xs
  In-drop zero xs a m = m
  In-drop (suc k) [] a m = m
  In-drop (suc k) (x ∷ xs) a m = inr (In-drop k xs a m)

  pub In-append : (a : A) (xs ys : List A) → In a (xs ++ ys) ↔ (In a xs ⊎ In a ys)
  In-append a [] ys = (λ m. inr m, λ m. elim m [ inl h ↦ absurd h | inr k ↦ k ])
  In-append a (x ∷ xs) ys = (
    λ m. elim m [
      | inl e ↦ inl (inl e)
      | inr k ↦ elim ((In-append a xs ys).0 k) [ inl i ↦ inl (inr i) | inr i ↦ inr i ]
    ],
    λ m. elim m [
      | inl k ↦ elim k [ inl e ↦ inl e | inr i ↦ inr ((In-append a xs ys).1 (inl i)) ]
      | inr i ↦ inr ((In-append a xs ys).1 (inr i))
    ],
  )

  pub In-retain :
      (p : A → Bool) (a : A) (xs : List A) → In a (retain p xs) ↔ (In a xs × (p a ≡ true))
  In-retain p a [] = (λ m. absurd m, λ m. m.0)
  In-retain p a (x ∷ xs) = elim (Bool-cases (p x)) [
    | inl e ↦ rw e (
      λ m. elim m [
        | inl q ↦ (inl q, subst (λ y. p y ≡ true) q e)
        | inr k ↦ let r = (In-retain p a xs).0 k in (inr r.0, r.1)
      ],
      λ m. elim m.0 [ inl q ↦ inl q | inr k ↦ inr ((In-retain p a xs).1 (k, m.1)) ],
    )
    | inr e ↦ rw e (
      λ m. let r = (In-retain p a xs).0 m in (inr r.0, r.1),
      λ m. elim m.0 [
        | inl q ↦ absurd (false≢true (sym (subst (λ y. p y ≡ false) q e) ∙ m.1))
        | inr k ↦ (In-retain p a xs).1 (k, m.1)
      ],
    )
  ]

pub In-map :
    {A B : Type 0} (f : A → B) (b : B) (xs : List A)
    → In b (map f xs) ↔ ((a : A) × In a xs × (f a ≡ b))
In-map f b [] = (λ m. absurd m, λ m. m.1)
In-map f b (x ∷ xs) = (
  λ m. elim m [
    | inl e ↦ (x, inl refl, e)
    | inr k ↦ let (a, i, e) = (In-map f b xs).0 k in (a, inr i, e)
  ],
  λ (a, i, e). elim i [ inl q ↦ inl (ap f q ∙ e) | inr k ↦ inr ((In-map f b xs).1 (a, k, e)) ],
)

pub take-append-drop {ℓ} : {A : Type ℓ} (n : ℕ) (xs : List A) → take n xs ++ drop n xs ≡ xs
take-append-drop zero xs = refl
take-append-drop (suc n) [] = refl
take-append-drop (suc n) (x ∷ xs) = ap (λ ys. x ∷ ys) (take-append-drop n xs)

module _ {A : Type 0} (p : A → Bool) where
  pub find_first-In :
      (xs : List A) (a : A)
      → In a xs
      → p a ≡ true
      → (b : A) × (find_first p xs ≡ some b) × (p b ≡ true) × In b xs
  find_first-In [] a m h = absurd m
  find_first-In (x ∷ xs) a m h = elim (Bool-cases (p x)) [
    | inl e ↦ (x, rw e, e, inl refl)
    | inr e ↦ elim m [
      | inl q ↦ absurd (false≢true (sym e ∙ ap p q ∙ h))
      | inr k ↦ let (b, f, g, i) = find_first-In xs a k h in (b, rw e f, g, inr i)
    ]
  ]

  pub find_first-none : (xs : List A) → ((a : A) → In a xs → p a ≡ false) → find_first p xs ≡ none
  find_first-none [] h = refl
  find_first-none (x ∷ xs) h = rw (h x (inl refl)) (find_first-none xs (λ a m. h a (inr m)))

  pub any-In : (xs : List A) → any p xs ≡ true → (a : A) × In a xs × (p a ≡ true)
  any-In [] h = cc
  any-In (x ∷ xs) h = elim (Bool-cases (p x)) [
    | inl e ↦ (x, inl refl, e)
    | inr e ↦ let (a, m, k) = any-In xs (ground arith) in (a, inr m, k)
  ]
