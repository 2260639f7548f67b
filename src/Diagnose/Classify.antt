-- ===== src/Diagnose/Classify.antt =====
-- What the severity of a service says of its containers: system/orchestrator/src/diagnose.rs.
use codery.Base.{
  ◌≡◌, refl, Bool, true, false, Option, none, some, List, [], ◌∷◌, ◌++◌, if◌then◌else◌, Text, ◌==◌,
  any,
}
use codery.Config.{Color, blue, green, color_eq, flip, container_name}
use codery.Db.{PreviewRecord}
use codery.Diagnose.{
  Severity, healthy, mismatch, dead, pending, both_up, ContainerState, classify_service,
  severity_of, service_issue, running_of,
}

unfoldable pub runs : Option ContainerState → Bool
runs none = false
runs (some s) = s.running

-- The container of a color runs.
abbrev pub container_runs : (Text → Option ContainerState) → Text → Color → Bool
container_runs inspect service c = runs (inspect (container_name service c))

-- The severity of a service by whether a preview of it is recorded, whether the container of the
-- recorded color runs, and whether that of the other color does.
unfoldable pub expected : Bool → Bool → Bool → Severity
expected true recorded_up other_up = pending
expected false true true = both_up
expected false true false = healthy
expected false false true = mismatch
expected false false false = dead

running_of_lem :
    (c : Color) (o : Option ContainerState) → running_of c o ≡ (if runs o then c ∷ [] else [])
unfolding running_of runs
running_of_lem c none = refl
running_of_lem c (some s) = refl

severity_of_lem :
    (staged : Bool) (c : Color) (b g : Bool)
    → severity_of staged c ((if b then blue ∷ [] else []) ++ (if g then green ∷ [] else []))
      ≡ expected staged (elim c [ blue ↦ b | green ↦ g ]) (elim c [ blue ↦ g | green ↦ b ])
unfolding severity_of classify_service expected color_eq
severity_of_lem true c b g = refl
severity_of_lem false blue true true = refl
severity_of_lem false blue true false = refl
severity_of_lem false blue false true = refl
severity_of_lem false blue false false = refl
severity_of_lem false green true true = refl
severity_of_lem false green true false = refl
severity_of_lem false green false true = refl
severity_of_lem false green false false = refl

severity_of-runs :
    (staged : Bool) (c : Color) (b g : Option ContainerState)
    → severity_of staged c (running_of blue b ++ running_of green g)
      ≡ expected staged
          (elim c [ blue ↦ runs b | green ↦ runs g ])
          (elim c [ blue ↦ runs g | green ↦ runs b ])
severity_of-runs staged c b g =
    rw (running_of_lem blue b, running_of_lem green g) (severity_of_lem staged c (runs b) (runs g))

-- The severity of a service is pending where a preview of it is recorded, and otherwise healthy,
-- mismatch, both_up or dead as the container of the recorded color, of the other one, of both or
-- of none runs.
pub severity-expected :
    (inspect : Text → Option ContainerState) (previews : List PreviewRecord) (c : Color)
    (service : Text)
    → (service_issue inspect previews c service).severity
      ≡ expected
          (any (λ p. p.service == service) previews)
          (container_runs inspect service c)
          (container_runs inspect service (flip c))
unfolding service_issue flip
severity-expected inspect previews blue service =
    severity_of-runs (any (λ p. p.service == service) previews) blue
      (inspect (container_name service blue)) (inspect (container_name service green))
severity-expected inspect previews green service =
    severity_of-runs (any (λ p. p.service == service) previews) green
      (inspect (container_name service blue)) (inspect (container_name service green))
