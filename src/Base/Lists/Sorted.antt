-- ===== src/Base/Lists/Sorted.antt =====
-- A stable sort by a text key, and lists whose keys are distinct.
use codery.Base.Bools.{ltb, eqb, if◌then◌else◌, Bool-cases}
use codery.Base.Chars.{Text}
use codery.Base.Lists.{retain, any, All, In}
use codery.Base.Lists.Membership.{All-append}
use mathlib.Core.Bool.{Bool, true, false, ◌&&◌, ◌||◌}
use mathlib.Core.List.{List, [], ◌∷◌, ◌++◌, map}
use mathlib.Core.Logic.{◌≢◌, ◌↔◌, ◌⊎◌, inl, inr}
use mathlib.Core.Path.{◌≡◌, sym, ◌∙◌}
use native.Mathlib.Omega.{arith}

-- The order of texts by code point, which is that of their UTF-8 bytes.
unfoldable pub text_le : Text → Text → Bool
text_le [] t = true
text_le (c ∷ s) [] = false
text_le (c ∷ s) (d ∷ t) = ltb c d || (eqb c d && text_le s t)

module _ {A : Type 0} (key : A → Text) where
  unfoldable pub slot : A → List A → List A
  slot x [] = x ∷ []
  slot x (y ∷ ys) =
      let later = y ∷ slot x ys in if text_le (key x) (key y) then x ∷ y ∷ ys else later

  unfoldable pub sort_by : List A → List A
  unfolding slot
  sort_by [] = []
  sort_by (x ∷ xs) = slot x (sort_by xs)

  -- No two entries have one key.
  abbrev pub Distinct : List A → Type 0
  Distinct [] = Unit
  Distinct (x ∷ xs) = All (λ y. key y ≢ key x) xs × Distinct xs

  In-slot : (a x : A) (xs : List A) → In a (slot x xs) ↔ ((x ≡ a) ⊎ In a xs)
  unfolding slot
  In-slot a x [] = (λ m. m, λ m. m)
  In-slot a x (y ∷ ys) = elim (Bool-cases (text_le (key x) (key y))) [
    | inl e ↦ rw e (λ m. m, λ m. m)
    | inr e ↦ rw e (
      λ m. elim m [
        | inl q ↦ inr (inl q)
        | inr k ↦ elim ((In-slot a x ys).0 k) [ inl q ↦ inl q | inr i ↦ inr (inr i) ]
      ],
      λ m. elim m [
        | inl q ↦ inr ((In-slot a x ys).1 (inl q))
        | inr k ↦ elim k [ inl q ↦ inl q | inr i ↦ inr ((In-slot a x ys).1 (inr i)) ]
      ],
    )
  ]

  -- Sorting keeps the members.
  pub In-sort_by : (a : A) (xs : List A) → In a (sort_by xs) ↔ In a xs
  unfolding sort_by
  In-sort_by a [] = (λ m. m, λ m. m)
  In-sort_by a (x ∷ xs) = (
    λ m. elim ((In-slot a x (sort_by xs)).0 m) [
      | inl q ↦ inl q
      | inr i ↦ inr ((In-sort_by a xs).0 i)
    ],
    λ m.
        (In-slot a x (sort_by xs)).1
          (elim m [ inl q ↦ inl q | inr i ↦ inr ((In-sort_by a xs).1 i) ]),
  )

pub any-All :
    {A : Type 0} (p : A → Bool) (xs : List A) → any p xs ≡ false → All (λ x. p x ≡ false) xs
any-All p [] h = tt
any-All p (x ∷ xs) h = (ground arith, any-All p xs (ground arith))

pub All-map :
    {A B : Type 0} (P : A → Type 0) (Q : B → Type 0) (f : A → B) (xs : List A)
    → ((x : A) → P x → Q (f x))
    → All P xs
    → All Q (map f xs)
All-map P Q f [] h k = tt
All-map P Q f (x ∷ xs) h k = (h x k.0, All-map P Q f xs h k.1)

pub All-weaken :
    {A : Type 0} (P Q : A → Type 0) (xs : List A) → ((x : A) → P x → Q x) → All P xs → All Q xs
All-weaken P Q [] h k = tt
All-weaken P Q (x ∷ xs) h k = (h x k.0, All-weaken P Q xs h k.1)

pub All-retain :
    {A : Type 0} (P : A → Type 0) (p : A → Bool) (xs : List A) → All P xs → All P (retain p xs)
All-retain P p [] h = tt
All-retain P p (x ∷ xs) h = elim (Bool-cases (p x)) [
  | inl e ↦ rw e (h.0, All-retain P p xs h.1)
  | inr e ↦ rw e (All-retain P p xs h.1)
]

module _ {A : Type 0} (key : A → Text) where
  pub Distinct-retain : (p : A → Bool) (xs : List A) → Distinct key xs → Distinct key (retain p xs)
  Distinct-retain p [] h = tt
  Distinct-retain p (x ∷ xs) h = elim (Bool-cases (p x)) [
    | inl e ↦ rw e (All-retain _ p xs h.0, Distinct-retain p xs h.1)
    | inr e ↦ rw e (Distinct-retain p xs h.1)
  ]

  pub Distinct-append :
      (xs : List A) (a : A)
      → Distinct key xs
      → All (λ y. key y ≢ key a) xs
      → Distinct key (xs ++ a ∷ [])
  Distinct-append [] a h k = (tt, tt)
  Distinct-append (x ∷ xs) a h k =
      (All-append _ xs (a ∷ []) h.0 ((λ e. k.0 (sym e)), tt), Distinct-append xs a h.1 k.1)

  -- A change that keeps every key keeps keys distinct.
  pub Distinct-map :
      (f : A → A) (xs : List A)
      → ((x : A) → key (f x) ≡ key x)
      → Distinct key xs
      → Distinct key (map f xs)
  Distinct-map f [] k h = tt
  Distinct-map f (x ∷ xs) k h = (
    All-map (λ y. key y ≢ key x) (λ y. key y ≢ key (f x)) f xs (λ y ne e. ne (sym (k y) ∙ e ∙ k x))
        h.0,
    Distinct-map f xs k h.1,
  )

module _ {A : Type 0} (key : A → Text) where
  slot-All : (P : A → Type 0) (x : A) (ys : List A) → P x → All P ys → All P (slot key x ys)
  unfolding slot
  slot-All P x [] p h = (p, tt)
  slot-All P x (y ∷ ys) p h = elim (Bool-cases (text_le (key x) (key y))) [
    | inl e ↦ rw e (p, h)
    | inr e ↦ rw e (h.0, slot-All P x ys p h.1)
  ]

  pub sort_by-All : (P : A → Type 0) (xs : List A) → All P xs → All P (sort_by key xs)
  unfolding sort_by
  sort_by-All P [] h = tt
  sort_by-All P (x ∷ xs) h = slot-All P x (sort_by key xs) h.0 (sort_by-All P xs h.1)

  slot-Distinct :
      (x : A) (ys : List A)
      → All (λ y. key y ≢ key x) ys
      → Distinct key ys
      → Distinct key (slot key x ys)
  unfolding slot
  slot-Distinct x [] h d = (tt, tt)
  slot-Distinct x (y ∷ ys) h d = elim (Bool-cases (text_le (key x) (key y))) [
    | inl e ↦ rw e (h, d)
    | inr e ↦
        rw e (slot-All (λ z. key z ≢ key y) x ys (λ q. h.0 (sym q)) d.0, slot-Distinct x ys h.1 d.1)
  ]

  -- Sorting keeps the keys distinct.
  pub sort_by-Distinct : (xs : List A) → Distinct key xs → Distinct key (sort_by key xs)
  unfolding sort_by
  sort_by-Distinct [] d = tt
  sort_by-Distinct (x ∷ xs) d =
      slot-Distinct x (sort_by key xs) (sort_by-All (λ y. key y ≢ key x) xs d.0)
        (sort_by-Distinct xs d.1)
