-- ===== src/Config/Laws.antt =====
-- config.rs: the names that a service and a color determine.
use codery.Base.{
  ℕ, ◌≡◌, refl, sym, ap, ◌∙◌, ◌≢◌, ◌↔◌, ◌⊎◌, inl, inr, true, some, [], ◌∷◌, ◌++◌, reverse,
  append_assoc, reverse-append, append_cancel_left, append_cancel_right, arith, Text, codes, ==_iff,
}
use codery.Config.{parse, Color, blue, green, as_str, color_eq, flip, container_name}

-- Texts with one last character each are equal only if that character is.
pub last_char : (s t : Text) (c d : ℕ) → s ++ c ∷ [] ≡ t ++ d ∷ [] → c ≡ d
last_char s t c d h =
    ground (arith, sym (reverse-append s (c ∷ [])) ∙ ap reverse h ∙ reverse-append t (d ∷ []))

-- A text is parsed as a color exactly if it is the text of that color.
pub parse-as_str : (s : Text) (c : Color) → (parse s ≡ some c) ↔ (s ≡ as_str c)
unfolding parse as_str
parse-as_str s blue = ground (arith, ==_iff s (codes "blue"), ==_iff s (codes "green"))
parse-as_str s green = ground (arith, ==_iff s (codes "blue"), ==_iff s (codes "green"))

pub color_eq_iff : (c d : Color) → (color_eq c d ≡ true) ↔ (c ≡ d)
unfolding color_eq
color_eq_iff blue blue = ground arith
color_eq_iff blue green = ground arith
color_eq_iff green blue = ground arith
color_eq_iff green green = ground arith

pub flip-ne : (c : Color) → flip c ≢ c
unfolding flip
flip-ne blue = λ e. cc
flip-ne green = λ e. cc

pub flip-flip : (c : Color) → flip (flip c) ≡ c
unfolding flip
flip-flip blue = refl
flip-flip green = refl

-- A color of the pair is the given one or its opposite.
pub flip-cases : (c d : Color) → (d ≡ c) ⊎ (d ≡ flip c)
unfolding flip
flip-cases blue blue = inl refl
flip-cases blue green = inr refl
flip-cases green blue = inr refl
flip-cases green green = inl refl

blue-ne-green :
    (s t : Text)
    → s ++ (codes "-" ++ as_str blue) ≡ t ++ (codes "-" ++ as_str green)
    → ◌≡◌ {A = ℕ} b'e' b'n'
unfolding as_str
blue-ne-green s t h =
    last_char (s ++ codes "-blu") (t ++ codes "-gree") b'e' b'n'
      (append_assoc s _ _ ∙ h ∙ sym (append_assoc t _ _))

suffix_inj :
    (s t : Text) (c d : Color)
    → s ++ (codes "-" ++ as_str c) ≡ t ++ (codes "-" ++ as_str d)
    → (s ≡ t) × (c ≡ d)
unfolding as_str
suffix_inj s t blue blue h = (append_cancel_right s t _ h, refl)
suffix_inj s t green green h = (append_cancel_right s t _ h, refl)
suffix_inj s t blue green h = absurd (omega (arith, blue-ne-green s t h))
suffix_inj s t green blue h = absurd (omega (arith, blue-ne-green t s (sym h)))

-- Two containers have the same name only if they are of one service and one color.
pub container_name_inj :
    (s t : Text) (c d : Color) → container_name s c ≡ container_name t d → (s ≡ t) × (c ≡ d)
unfolding container_name
container_name_inj s t c d h = suffix_inj s t c d (append_cancel_left (codes "codery-") _ _ h)
