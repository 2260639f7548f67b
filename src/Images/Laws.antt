-- ===== src/Images/Laws.antt =====
-- images.rs: the order of the images and what a prune spares.
use mathlib.Core.List.Perm
use codery.Base.{
  ℕ, zero, suc, ◌≤◌, subst, inl, inr, List, [], ◌∷◌, ◌++◌, Perm, arith, ltb, Bool-cases, drop, take,
  All, In,
}
use codery.Base.Lists.Membership.{All-In, In-drop, take-append-drop}
use codery.Images.{ImageSummary, newest_first, prunable, place}

module _ {A : Type 0} (age : A → ℕ) where
  -- Newest first.
  abbrev pub Descending : List A → Type 0
  Descending [] = Unit
  Descending (x ∷ xs) = All (λ y. age y ≤ age x) xs × Descending xs

  All-le_trans : (a b : ℕ) (xs : List A) → a ≤ b → All (λ y. age y ≤ a) xs → All (λ y. age y ≤ b) xs
  All-le_trans a b [] h k = tt
  All-le_trans a b (x ∷ xs) h k = (omega arith, All-le_trans a b xs h k.1)

  place-All :
      (b : ℕ) (x : A) (xs : List A)
      → age x ≤ b
      → All (λ y. age y ≤ b) xs
      → All (λ y. age y ≤ b) (place age x xs)
  unfolding place
  place-All b x [] h k = (h, tt)
  place-All b x (y ∷ ys) h k = elim (Bool-cases (ltb (age x) (age y))) [
    | inl e ↦ rw e (k.0, place-All b x ys h k.1)
    | inr e ↦ rw e (h, k)
  ]

  place-Descending : (x : A) (xs : List A) → Descending xs → Descending (place age x xs)
  unfolding place
  place-Descending x [] h = (tt, tt)
  place-Descending x (y ∷ ys) h = elim (Bool-cases (ltb (age x) (age y))) [
    | inl e ↦ rw e (place-All (age y) x ys (ground arith) h.0, place-Descending x ys h.1)
    | inr e ↦
        let older : age y ≤ age x = ground arith in
        rw e ((older, All-le_trans (age y) (age x) ys older h.0), h)
  ]

  pub newest_first-Descending : (xs : List A) → Descending (newest_first age xs)
  unfolding newest_first
  newest_first-Descending [] = tt
  newest_first-Descending (x ∷ xs) =
      place-Descending x (newest_first age xs) (newest_first-Descending xs)

  place-perm : (x : A) (xs : List A) → Perm (place age x xs) (x ∷ xs)
  unfolding place
  place-perm x [] = Perm.refl (x ∷ [])
  place-perm x (y ∷ ys) = elim (Bool-cases (ltb (age x) (age y))) [
    | inl e ↦ rw e (Perm.trans (Perm.cons y (place-perm x ys)) (Perm.swap x y ys))
    | inr e ↦ rw e (Perm.refl (x ∷ y ∷ ys))
  ]

  pub newest_first-perm : (xs : List A) → Perm (newest_first age xs) xs
  unfolding newest_first
  newest_first-perm [] = Perm.refl []
  newest_first-perm (x ∷ xs) =
      Perm.trans (place-perm x (newest_first age xs)) (Perm.cons x (newest_first-perm xs))

  drop-newer :
      (n : ℕ) (xs : List A) (x y : A)
      → Descending xs
      → In x (take n xs)
      → In y (drop n xs)
      → age y ≤ age x
  drop-newer zero xs x y h i j = absurd i
  drop-newer (suc n) [] x y h i j = absurd i
  drop-newer (suc n) (z ∷ zs) x y h (inl e) j =
      subst (λ a. age y ≤ age a) e (All-In (λ a. age a ≤ age z) zs y h.0 (In-drop n zs y j))
  drop-newer (suc n) (z ∷ zs) x y h (inr i) j = drop-newer n zs x y h.1 i j

-- An image that a prune removes is not newer than any of the two that it keeps.
pub prunable_oldest :
    (images : List ImageSummary) (kept removed : ImageSummary)
    → In kept (take 2 (newest_first (λ i. i.created) images))
    → In removed (prunable images)
    → removed.created ≤ kept.created
unfolding prunable
prunable_oldest images kept removed =
    drop-newer (λ i. i.created) 2 _ kept removed (newest_first-Descending (λ i. i.created) images)

pub take-append-prunable :
    (images : List ImageSummary)
    → Perm (take 2 (newest_first (λ i. i.created) images) ++ prunable images) images
unfolding prunable
take-append-prunable images =
    rw (take-append-drop 2 (newest_first (λ i. i.created) images))
      (newest_first-perm (λ i. i.created) images)
