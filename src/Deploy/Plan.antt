-- ===== src/Deploy/Plan.antt =====
-- `plan_cutover`: which image a cutover promotes.
pub mod Laws
use codery.Base.{Bool, true, false, Option, none, some, if◌then◌else◌, Text, ◌==◌}
use codery.Images.{LocalImage}

pub data CutoverPlan : Type 0 where
  -- The SHA, and whether the inactive container was seen running it.
  promote : Text → Bool → CutoverPlan
  -- The active tag and the newest one.
  nothing_newer : Text → Text → CutoverPlan
  no_images : CutoverPlan
  stale : Text → CutoverPlan

plan_newest : Option LocalImage → Text → CutoverPlan
plan_newest none active_image_tag = no_images
plan_newest (some newest) active_image_tag =
    if newest.tag == active_image_tag
    then nothing_newer active_image_tag newest.tag
    else promote newest.sha false

unfoldable pub plan_cutover :
    Option Text → Option Text → Bool → Option LocalImage → Text → CutoverPlan
unfolding plan_newest
plan_cutover (some sha) preview preview_staged newest_local active_image_tag = promote sha false
plan_cutover none (some p) preview_staged newest_local active_image_tag =
    if preview_staged then promote p true else stale p
plan_cutover none none preview_staged newest_local active_image_tag =
    plan_newest newest_local active_image_tag
