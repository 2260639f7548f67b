-- ===== src/Images/Pull.antt =====
-- images.rs: the requests to Docker about images: pulling one, listing and pruning those of a service.
use codery.Base.{
  Bool, not, Option, List, [], ◌∷◌, ◌++◌, if◌then◌else◌, Text, codes, is_empty, Result, ok,
  bind_result, Exec, pure, query, ◌>>=◌,
}
use codery.Config.{registry}
use codery.Docker.{Reply, Engine, to_result}
use codery.Images.{credentials_for, ImageSummary, LocalImage, prunable, list_local}

unfoldable pub service_pattern : Text → Text
service_pattern service = registry ++ (codes ":" ++ (service ++ codes "-*"))

module _ {D : Type 0} (eng : Engine D) where
  open eng use {list_images, remove_image, create_image}

  unfoldable pub image_exists_locally : Text → D → Result Bool
  image_exists_locally image d =
      bind_result (to_result (list_images image d)) λ images. ok (not (is_empty images))

  -- The messages of the stream, up to the first error.
  follow : List (Reply (Unit {0})) → Result (Unit {0})
  follow [] = ok tt
  follow (m ∷ ms) = bind_result (to_result m) λ _. follow ms

  -- The stream is read to its first error; what Docker does in the meantime is done.
  unfoldable pub pull : Option Text → Text → Exec D (Unit {0})
  unfolding follow
  pull env image d =
      let (messages, after) = create_image image (credentials_for env image) d in
      (follow messages, after)

  unfoldable pub pull_if_missing : Option Text → Text → Exec D (Unit {0})
  unfolding image_exists_locally pull
  pull_if_missing env image = do
    present ← query (image_exists_locally image)
    if present then pure tt else pull env image

  -- A removal that fails is only logged.
  unfoldable pub remove_images : List ImageSummary → D → D
  remove_images [] d = d
  remove_images (i ∷ is) d = remove_images is (remove_image i.id d).1

  unfoldable pub prune : Text → Exec D (Unit {0})
  unfolding remove_images service_pattern
  prune service = do
    images ← query (λ d. to_result (list_images (service_pattern service) d))
    λ d. (ok tt, remove_images (prunable images) d)

  unfoldable pub local_images : Text → D → Result (List LocalImage)
  unfolding service_pattern
  local_images service d =
      bind_result (to_result (list_images (service_pattern service) d))
        λ images. ok (list_local service images)
