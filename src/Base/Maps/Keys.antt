-- ===== src/Base/Maps/Keys.antt =====
-- Maps with distinct keys, and what insertion does to their entries.
use codery.Base.Bools.{Bool-cases}
use codery.Base.Chars.{Text, ◌==◌, ==_iff, ==_refl, ==_ne}
use codery.Base.Lists.{All, In}
use codery.Base.Lists.Membership.{All-In}
use codery.Base.Lists.Sorted.{Distinct}
use codery.Base.Maps.{Assoc, lookup, insert, or_insert, lookup-insert}
use mathlib.Core.Bool.{false≢true}
use mathlib.Core.List.{[], ◌∷◌}
use mathlib.Core.Logic.{◌≢◌, ◌⊎◌, inl, inr}
use mathlib.Core.Option.{some}
use mathlib.Core.Path.{◌≡◌, refl, sym, ap, ◌∙◌}

module _ {V : Type 0} where
  abbrev pub key_of : Text × V → Text
  key_of e = e.0

  pub insert-All :
      (P : Text × V → Type 0) (k : Text) (v : V) (m : Assoc V)
      → ((j : Text) → j ≡ k → P (j, v))
      → All P m
      → All P (insert k v m)
  unfolding insert
  insert-All P k v [] h a = (h k refl, tt)
  insert-All P k v (e ∷ m) h a = elim (Bool-cases (e.0 == k)) [
    | inl q ↦ rw q (h e.0 ((==_iff e.0 k).0 q), a.1)
    | inr q ↦ rw q (a.0, insert-All P k v m h a.1)
  ]

  pub or_insert-All :
      (P : Text × V → Type 0) (k : Text) (v : V) (m : Assoc V)
      → P (k, v)
      → All P m
      → All P (or_insert k v m)
  unfolding or_insert
  or_insert-All P k v [] h a = (h, tt)
  or_insert-All P k v (e ∷ m) h a = elim (Bool-cases (e.0 == k)) [
    | inl q ↦ rw q a
    | inr q ↦ rw q (a.0, or_insert-All P k v m h a.1)
  ]

  pub insert-Distinct :
      (k : Text) (v : V) (m : Assoc V) → Distinct key_of m → Distinct key_of (insert k v m)
  unfolding insert
  insert-Distinct k v [] d = (tt, tt)
  insert-Distinct k v (e ∷ m) d = elim (Bool-cases (e.0 == k)) [
    | inl q ↦ rw q d
    | inr q ↦ rw q (
      insert-All (λ x. x.0 ≢ e.0) k v m (λ j h g. false≢true (sym q ∙ (==_iff e.0 k).1 (sym g ∙ h)))
          d.0,
      insert-Distinct k v m d.1,
    )
  ]

  pub or_insert-Distinct :
      (k : Text) (v : V) (m : Assoc V) → Distinct key_of m → Distinct key_of (or_insert k v m)
  unfolding or_insert
  or_insert-Distinct k v [] d = (tt, tt)
  or_insert-Distinct k v (e ∷ m) d = elim (Bool-cases (e.0 == k)) [
    | inl q ↦ rw q d
    | inr q ↦ rw q (
      or_insert-All (λ x. x.0 ≢ e.0) k v m (λ g. false≢true (sym q ∙ (==_iff e.0 k).1 (sym g))) d.0,
      or_insert-Distinct k v m d.1,
    )
  ]

  pub lookup-In : (k : Text) (v : V) (m : Assoc V) → lookup k m ≡ some v → In (k, v) m
  unfolding lookup
  lookup-In k v [] h = cc
  lookup-In k v (e ∷ m) h = elim (Bool-cases (e.0 == k)) [
    | inl q ↦
        let a : e.0 ≡ k = (==_iff e.0 k).0 q in
        let found : some e.1 ≡ some v = rw q at h in let b : e.1 ≡ v = cc in inl (λ i. (a i, b i))
    | inr q ↦ inr (lookup-In k v m (rw q at h))
  ]

  pub In-lookup :
      (k : Text) (v : V) (m : Assoc V) → Distinct key_of m → In (k, v) m → lookup k m ≡ some v
  unfolding lookup
  In-lookup k v [] d i = absurd i
  In-lookup k v (e ∷ m) d (inl q) =
      rw ((==_iff e.0 k).1 (ap key_of q)) (ap (λ (x : Text × V). some x.1) q)
  In-lookup k v (e ∷ m) d (inr i) = elim (Bool-cases (e.0 == k)) [
    | inl q ↦ absurd (All-In (λ x. x.0 ≢ e.0) m (k, v) d.0 i (sym ((==_iff e.0 k).0 q)))
    | inr q ↦ rw q (In-lookup k v m d.1 i)
  ]

  pub lookup-insert_ne :
      (k q : Text) (v : V) (m : Assoc V) → k ≢ q → lookup q (insert k v m) ≡ lookup q m
  lookup-insert_ne k q v m ne = lookup-insert k q v m ∙ rw (==_ne k q ne) refl

  pub lookup-insert_self : (k : Text) (v : V) (m : Assoc V) → lookup k (insert k v m) ≡ some v
  lookup-insert_self k v m = lookup-insert k k v m ∙ rw (==_refl k) refl

  -- An entry after an insertion is the new one or an old one.
  pub lookup-insert-cases :
      (k q : Text) (v e : V) (m : Assoc V)
      → lookup q (insert k v m) ≡ some e
      → ((q ≡ k) × (e ≡ v)) ⊎ ((k ≢ q) × (lookup q m ≡ some e))
  lookup-insert-cases k q v e m h = elim (Bool-cases (k == q)) [
    | inl b ↦
        let same : some v ≡ some e = sym (lookup-insert k q v m ∙ rw b refl) ∙ h in
        inl (sym ((==_iff k q).0 b), cc)
    | inr b ↦
        let ne : k ≢ q = λ g. false≢true (sym b ∙ (==_iff k q).1 g) in
        inr (ne, sym (lookup-insert_ne k q v m ne) ∙ h)
  ]
