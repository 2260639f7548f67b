-- ===== src/Tests/Names.antt =====
-- Names and images.
use codery.Base.{ℕ, ◌≤◌, refl, inl, List, [], ◌∷◌, number_text, take, In}
use codery.Images.{ImageSummary, place, newest_first, prunable}
use codery.Images.Laws.{prunable_oldest}

abbrev image : ℕ → ImageSummary
image n = record { id = number_text n; repo_tags = []; created = n }

abbrev three : List ImageSummary
three = image 5 ∷ image 3 ∷ image 9 ∷ []

kept_image : In (image 9) (take 2 (newest_first (λ i. i.created) three))
unfolding newest_first place
kept_image = inl refl

removed_image : In (image 3) (prunable three)
unfolding prunable newest_first place
removed_image = inl refl

prunable_oldest_example : 3 ≤ 9
prunable_oldest_example = prunable_oldest three (image 9) (image 3) kept_image removed_image
