-- ===== src/Db/Previews.antt =====
-- A preview that was recorded is the one that is found, until it is deleted.
use codery.Base.{
  ◌≡◌, refl, sym, ◌∙◌, subst, inl, inr, Bool, true, false, false≢true, not, ◌&&◌, none, some, List,
  [], ◌∷◌, ◌++◌, map, arith, Bool-cases, is_some, Text, ◌==◌, ==_iff, ==_refl, any, In, ok,
}
use codery.Base.Lists.Membership.{
  All-In, In-append, In-retain, In-map, find_first-In, find_first-none, any-In,
}
use codery.Base.Lists.Sorted.{sort_by, In-sort_by, any-All}
use codery.Db.{PreviewRecord, Tables, upsert_preview, delete_preview, find_preview, overwrite}

-- What a row holds beside the time of its insertion.
abbrev pub Holds : PreviewRecord → PreviewRecord → Type 0
Holds p q =
    (q.service ≡ p.service)
    × (q.subdomain ≡ p.subdomain)
    × (q.host_port ≡ p.host_port)
    × (q.sha ≡ p.sha)
    × (q.color ≡ p.color)

overwrite-Holds :
    (p q : PreviewRecord) → ((overwrite p q).service == p.service) ≡ true → Holds p (overwrite p q)
unfolding overwrite
overwrite-Holds p q h = ground (arith, ==_iff q.service p.service, ==_refl p.service)

-- Every row of the service is `p`, and there is one.
record Recorded (p : PreviewRecord) (rows : List PreviewRecord) : Type 0 where
  row : PreviewRecord
  stands : In row rows
  mine : (row.service == p.service) ≡ true
  all_p : (q : PreviewRecord) → In q rows → (q.service == p.service) ≡ true → Holds p q

Recorded-map :
    (p : PreviewRecord) (rows : List PreviewRecord)
    → any (λ q. q.service == p.service) rows ≡ true
    → Recorded p (map (overwrite p) rows)
Recorded-map p rows h =
    let (q, m, e) = any-In (λ (r : PreviewRecord). r.service == p.service) rows h in
    record {
      row = overwrite p q;
      stands = (In-map (overwrite p) (overwrite p q) rows).1 (q, m, refl);
      mine = unfold overwrite in ground (arith, ==_refl p.service);
      all_p = λ r i k.
          let (s, n, f) = (In-map (overwrite p) r rows).0 i in
          subst (Holds p) f (
            overwrite-Holds p s
              (subst (λ (x : PreviewRecord). (x.service == p.service) ≡ true) (sym f) k));
    }

Recorded-append :
    (now : Text) (p : PreviewRecord) (rows : List PreviewRecord)
    → any (λ q. q.service == p.service) rows ≡ false
    → Recorded p (rows ++ record p { created_at = now } ∷ [])
Recorded-append now p rows h = record {
  row = record p { created_at = now };
  stands = (In-append _ rows _).1 (inr (inl refl));
  mine = ==_refl p.service;
  all_p = λ r i k. elim ((In-append r rows _).0 i) [
    | inl old ↦ absurd (
        false≢true (
          sym (
            All-In (λ (q : PreviewRecord). (q.service == p.service) ≡ false) rows r
              (any-All (λ (q : PreviewRecord). q.service == p.service) rows h) old)
          ∙ k))
    | inr new ↦ elim new [
      | inl e ↦ subst (Holds p) e (refl, refl, refl, refl, refl)
      | inr none_left ↦ absurd none_left
    ]
  ];
}

found-Recorded :
    (p : PreviewRecord) (t : Tables)
    → Recorded p t.previews
    → (q : PreviewRecord) × (find_preview t p.service ≡ some q) × Holds p q
unfolding find_preview
found-Recorded p t r =
    let (q, f, g, i) =
      find_first-In (λ (x : PreviewRecord). x.service == p.service)
        (sort_by (λ x. x.service) t.previews) r.row
        ((In-sort_by (λ (x : PreviewRecord). x.service) r.row t.previews).1 r.stands) r.mine in
    (q, f, r.all_p q ((In-sort_by (λ (x : PreviewRecord). x.service) q t.previews).0 i) g)

upsert-Recorded :
    (now : Text) (p : PreviewRecord) (t : Tables)
    → (upsert_preview now p t).0 ≡ ok tt
    → Recorded p (upsert_preview now p t).1.previews
unfolding upsert_preview
upsert-Recorded now p t h =
    elim (Bool-cases
      (any (λ q. q.subdomain == p.subdomain && not (q.service == p.service)) t.previews)) [
        | inl e ↦ absurd (ground arith)
        | inr e ↦ elim (Bool-cases (any (λ q. q.service == p.service) t.previews)) [
          | inl f ↦ rw (e, f) (Recorded-map p t.previews f)
          | inr f ↦ rw (e, f) (Recorded-append now p t.previews f)
        ]
      ]

-- After an upsert that succeeds, the preview found for its service is the one that was written,
-- whether or not there was one before.
pub find-upsert :
    (now : Text) (p : PreviewRecord) (t : Tables)
    → (upsert_preview now p t).0 ≡ ok tt
    → (q : PreviewRecord) × (find_preview (upsert_preview now p t).1 p.service ≡ some q) × Holds p q
find-upsert now p t h = found-Recorded p _ (upsert-Recorded now p t h)

-- After a delete there is no preview of the service, and the result says whether there was one.
pub find-delete :
    (service : Text) (t : Tables)
    → (find_preview (delete_preview service t).1 service ≡ none)
      × ((delete_preview service t).0 ≡ ok (is_some (find_preview t service)))
unfolding find_preview delete_preview
find-delete service t = (
  find_first-none mine _ (λ a m.
      kept a ((In-retain (λ p. not (mine p)) a t.previews).0 ((In-sort_by row_key a _).0 m)).1),
  elim (Bool-cases (any mine t.previews)) [
    | inl e ↦
        let (a, m, k) = any-In mine t.previews e in
        let (b, f, g, i) =
          find_first-In mine (sort_by row_key t.previews) a ((In-sort_by row_key a t.previews).1 m)
            k in
        rw (e, f)
    | inr e ↦ rw (
      e,
      find_first-none mine (sort_by row_key t.previews) (λ a m.
          All-In (λ p. mine p ≡ false) t.previews a (any-All mine t.previews e)
            ((In-sort_by row_key a t.previews).0 m)),
    )
  ],
)
  where
    mine : PreviewRecord → Bool
    mine p = p.service == service

    row_key : PreviewRecord → Text
    row_key p = p.service

    kept : (a : PreviewRecord) → not (mine a) ≡ true → mine a ≡ false
    kept a h = ground arith
