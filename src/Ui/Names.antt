-- ===== src/Ui/Names.antt =====
-- The service and the color of a container's name.
use codery.Base.{
  ◌≡◌, refl, ap, ◌∙◌, subst, none, some, [], ◌∷◌, ◌++◌, reverse, append_assoc, reverse-append,
  reverse-reverse, eqb_refl, and_then, Text, codes, strip_prefix,
}
use codery.Config.{registry, Color, blue, green, as_str, container_name, image_ref}
use codery.Ui.{parse_service_container, sha_from_image_tag, strip_suffix, with_color}

strip_prefix-append : (p s : Text) → strip_prefix p (p ++ s) ≡ some s
unfolding strip_prefix
strip_prefix-append [] s = refl
strip_prefix-append (c ∷ p) s = rw (eqb_refl c) (strip_prefix-append p s)

strip_suffix-append : (s suffix : Text) → strip_suffix suffix (s ++ suffix) ≡ some s
unfolding strip_suffix
strip_suffix-append s suffix =
    rw
      (reverse-append s suffix, strip_prefix-append (reverse suffix) (reverse s), reverse-reverse s)
      refl

green_no_blue : (s : Text) → strip_suffix (codes "-blue") (s ++ codes "-green") ≡ none
unfolding strip_suffix strip_prefix
green_no_blue s = rw (reverse-append s (codes "-green")) refl

with_color-append :
    (service : Text) (color : Color)
    → with_color (service ++ (codes "-" ++ as_str color)) ≡ some (service, color)
unfolding as_str with_color
with_color-append service blue = rw (with_color, strip_suffix-append service (codes "-blue")) refl
with_color-append service green =
    rw (with_color, green_no_blue service, strip_suffix-append service (codes "-green")) refl

-- The name of a service's container is read back as this service and its color.
pub parse_service_container-container_name :
    (service : Text) (color : Color)
    → parse_service_container (container_name service color) ≡ some (service, color)
unfolding parse_service_container container_name
parse_service_container-container_name service color =
    ap (λ o. and_then o with_color)
      (strip_prefix-append (codes "codery-") (service ++ (codes "-" ++ as_str color)))
    ∙ with_color-append service color

-- The SHA of an image made for a service is read back from its tag.
pub sha_from_image_tag-image_ref :
    (service sha : Text) → sha_from_image_tag service (image_ref service sha) ≡ some sha
unfolding sha_from_image_tag image_ref
sha_from_image_tag-image_ref service sha =
    subst
      (λ t.
        strip_prefix (registry ++ (codes ":" ++ (service ++ codes "-")))
          (registry ++ (codes ":" ++ t))
        ≡ some sha)
      (append_assoc service (codes "-") sha)
      (strip_prefix-append (registry ++ (codes ":" ++ (service ++ codes "-"))) sha)
