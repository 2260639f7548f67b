-- ===== src/Deploy/Plan/Laws.antt =====
-- The plan of a cutover, read backwards.
use codery.Base.{
  ◌≡◌, refl, ◌≢◌, ◌↔◌, ◌⊎◌, inl, inr, Bool, true, false, Option, none, some, arith, Text, ==_iff,
}
use codery.Deploy.Plan.{promote, stale, plan_cutover}
use codery.Images.{LocalImage}

-- A plan promotes an image as already staged exactly if no SHA was given and the preview was seen
-- running; it reports a stale preview exactly if no SHA was given and the preview was not.
pub plan_cutover_preview :
    (sha_opt preview : Option Text) (staged : Bool) (newest : Option LocalImage) (tag sha : Text)
    → ((plan_cutover sha_opt preview staged newest tag ≡ promote sha true)
        ↔ ((sha_opt ≡ none) × (preview ≡ some sha) × (staged ≡ true)))
      × ((plan_cutover sha_opt preview staged newest tag ≡ stale sha)
          ↔ ((sha_opt ≡ none) × (preview ≡ some sha) × (staged ≡ false)))
unfolding plan_cutover
plan_cutover_preview (some x) preview staged newest tag sha = (ground arith, ground arith)
plan_cutover_preview none (some p) staged newest tag sha = (ground arith, ground arith)
plan_cutover_preview none none staged none tag sha = (ground arith, ground arith)
plan_cutover_preview none none staged (some x) tag sha = (ground arith, ground arith)

-- A plan promotes an image that has not been staged exactly if its SHA was given, or if neither a
-- SHA nor a preview was and it is the newest local image, with another tag than the active one.
pub plan_cutover_unstaged :
    (sha_opt preview : Option Text) (staged : Bool) (newest : Option LocalImage) (tag sha : Text)
    → (plan_cutover sha_opt preview staged newest tag ≡ promote sha false) ↔ (
        (sha_opt ≡ some sha)
        ⊎ ((image : LocalImage) × (sha_opt ≡ none)
            × (preview ≡ none)
            × (newest ≡ some image)
            × (image.sha ≡ sha)
            × (image.tag ≢ tag)))
unfolding plan_cutover
plan_cutover_unstaged (some x) preview staged newest tag sha =
    (λ e. inl (ground arith), λ h. elim h [ inl e ↦ ground arith | inr k ↦ absurd (ground arith) ])
plan_cutover_unstaged none (some p) staged newest tag sha = (
  λ e. absurd (ground arith),
  λ h. elim h [ inl e ↦ absurd (ground arith) | inr k ↦ absurd (ground arith) ],
)
plan_cutover_unstaged none none staged none tag sha = (
  λ e. absurd (ground arith),
  λ h. elim h [ inl e ↦ absurd (ground arith) | inr k ↦ absurd (ground arith) ],
)
plan_cutover_unstaged none none staged (some x) tag sha = (
  λ e. inr (
    x,
    refl,
    refl,
    refl,
    ground (arith, ==_iff x.tag tag),
    λ q. ground (arith, ==_iff x.tag tag),
  ),
  λ h. elim h [
    | inl e ↦ absurd (ground arith)
    | inr (image, a, b, c, d, ne) ↦ ground (arith, ==_iff x.tag tag)
  ],
)
