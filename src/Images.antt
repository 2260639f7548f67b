-- ===== src/Images.antt =====
-- system/orchestrator/src/images.rs: image references, credentials, and the local images of a
-- service. What Docker lists, and the text of the `.env` file, are arguments.
pub mod Laws
pub mod Pull
use codery.Base.{
  ℕ, not, ◌||◌, Option, none, some, List, [], ◌∷◌, ◌++◌, ltb, if◌then◌else◌, map_option, and_then,
  Text, codes, ◌==◌, strip_prefix, contains_char, split, lines, drop, first, filter_map, flat_map,
}
use codery.Config.{registry, ghcr_host}

unfoldable pub registry_of : Text → Option Text
registry_of image =
    if not (contains_char b'/' image)
    then none
    else and_then (first (split b'/' image)) λ host.
      if contains_char b'.' host || contains_char b':' host || host == codes "localhost"
      then some host
      else none

pub record Credentials : Type 0 where
  pub username : Text
  pub password : Text
  pub server : Text

-- The last line with a key wins.
setting_in : Text → Option Text → List Text → Option Text
setting_in key found [] = found
setting_in key found (l ∷ ls) =
    setting_in key (elim (strip_prefix key l) [ none ↦ found | some v ↦ some v ]) ls

unfoldable pub ghcr_credentials : Option Text → Option Credentials
unfolding setting_in
ghcr_credentials none = none
ghcr_credentials (some text) = and_then (setting_in (codes "GHCR_USERNAME=") none (lines text)) λ u.
    and_then (setting_in (codes "GHCR_TOKEN=") none (lines text))
      λ p. some (record { username = u; password = p; server = ghcr_host })

unfoldable pub credentials_for : Option Text → Text → Option Credentials
unfolding registry_of
credentials_for env image = elim (registry_of image) [
  | none ↦ none
  | some host ↦ if host == ghcr_host then ghcr_credentials env else none
]

-- An image as Docker lists it.
pub record ImageSummary : Type 0 where
  pub id : Text
  pub repo_tags : List Text
  pub created : ℕ

pub record LocalImage : Type 0 where
  pub sha : Text
  pub tag : Text
  pub created : ℕ

module _ {A : Type 0} (age : A → ℕ) where
  unfoldable pub place : A → List A → List A
  place x [] = x ∷ []
  place x (y ∷ ys) = if ltb (age x) (age y) then y ∷ place x ys else x ∷ y ∷ ys

  -- `sort_by_key(Reverse(created))`: stable, newest first.
  unfoldable pub newest_first : List A → List A
  unfolding place
  newest_first [] = []
  newest_first (x ∷ xs) = place x (newest_first xs)

-- The images that `prune` removes: all but the two newest.
unfoldable pub prunable : List ImageSummary → List ImageSummary
prunable images = drop 2 (newest_first (λ i. i.created) images)

-- The images of one summary that carry a tag of the service.
local_of : Text → ImageSummary → List LocalImage
local_of prefix img =
    filter_map
      (λ tag.
        map_option (λ sha. record { sha = sha; tag = tag; created = img.created })
          (strip_prefix prefix tag))
      img.repo_tags

unfoldable pub list_local : Text → List ImageSummary → List LocalImage
unfolding local_of
list_local service images =
    newest_first (λ i. i.created)
      (flat_map (local_of (registry ++ (codes ":" ++ (service ++ codes "-")))) images)
