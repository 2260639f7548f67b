-- ===== src/Diagnose.antt =====
-- system/orchestrator/src/diagnose.rs: the state files, the containers, the previews and the
-- listening ports compared. What Docker and `ss` report is an argument.
pub mod Health
pub mod Classify
use codery.Base.{
  ℕ, ◌+◌, ◌-◌, ◌%◌, Bool, true, false, not, ◌&&◌, Option, none, some, List, [], ◌∷◌, ◌++◌, map, eqb,
  if◌then◌else◌, unwrap_or, and_then, Text, codes, ◌==◌, lines, split_whitespace, parse_unsigned,
  u16_mod, length, drop, retain, any, first, is_empty, filter_map, flat_map, Assoc, lookup,
}
use codery.Caddy.{fqdn}
use codery.Config.{Color, blue, green, color_eq, container_name}
use codery.Db.{PreviewRecord, Tables, list_previews}
use codery.Routes.{UnifiedRoute}
use codery.ServiceDef.{ServiceDef}
use codery.ServiceDef.Ports.{host_port}

pub data Severity : Type 0 where
  healthy mismatch dead pending both_up : Severity

pub record ContainerState : Type 0 where
  pub running : Bool
  pub image : Option Text

pub record ServiceIssue : Type 0 where
  pub service : Text
  pub severity : Severity
  pub state_color : Color
  pub running_color : Option Color
  pub running_container : Option Text
  pub image : Option Text
  pub fix : List Text

pub record RouteIssue : Type 0 where
  pub subdomain : Text
  pub host_port : ℕ
  pub listening : Bool
  pub fix : List Text

pub record PreviewIssue : Type 0 where
  pub service : Text
  pub sha : Text
  pub color : Text
  pub fix : List Text

pub record DiagnoseReport : Type 0 where
  pub services : List ServiceIssue
  pub routes : List RouteIssue
  pub previews : List PreviewIssue
  pub all_healthy : Bool
  pub issue_count : ℕ

unfoldable pub classify_service : Color → List Color → Severity
classify_service state_color [] = dead
classify_service state_color (c ∷ []) = if color_eq c state_color then healthy else mismatch
classify_service state_color (c ∷ d ∷ more) = both_up

unfoldable pub service_fix : Text → Severity → List Text
service_fix service healthy = []
service_fix service both_up = []
service_fix service mismatch = (codes "codery-ci cutover " ++ service) ∷ []
service_fix service dead =
    (codes "restart_service service='" ++ (service ++ codes "'  # via MCP"))
    ∷ (codes "codery-ci deploy " ++ (service ++ codes " <sha>      # full deploy"))
    ∷ []
service_fix service pending =
    (codes "codery-ci cutover " ++ service) ∷ (codes "codery-ci cancel-preview " ++ service) ∷ []

unfoldable pub route_fix : Text → Text → List Text
route_fix subdomain service =
    if service == codes "host"
    then (codes "# host-layer route "
        ++ (subdomain ++ codes " — check supervisord (run_preflight)"))
      ∷ []
    else (codes "codery-ci cutover " ++ service) ∷ []

-- What follows the last colon of a field.
after_colon : Text → Option Text
after_colon [] = none
after_colon (c ∷ s) = elim (after_colon s) [
  | some t ↦ some t
  | none ↦ if eqb c b':' then some s else none
]

unfoldable pub field_port : Text → Option ℕ
unfolding after_colon
field_port field = and_then (after_colon field) (parse_unsigned (u16_mod - 1))

-- The ports as a list instead of a set; the first line is the heading.
unfoldable pub parse_listening_ports : Text → List ℕ
unfolding field_port
parse_listening_ports ss_output =
    flat_map (λ l. filter_map field_port (split_whitespace l)) (drop 1 (lines ss_output))

-- The offset of `paseo`, which is built in here too.
unfoldable pub paseo_offset : Color → ℕ
paseo_offset blue = 10000
paseo_offset green = 20000

-- `load` gives the definition of a service that can be read.
unfoldable pub route_host_port : (Text → Option ServiceDef) → Text → ℕ → Color → ℕ
unfolding paseo_offset
route_host_port load_def target container_port state_color =
    if target == codes "host"
    then container_port
    else if target == codes "paseo"
    then (container_port + paseo_offset state_color) % u16_mod
    else elim (load_def target) [
      | some def ↦ host_port def.port_scheme state_color container_port
      | none ↦ container_port
    ]

running_of : Color → Option ContainerState → List Color
running_of c none = []
running_of c (some s) = if s.running then c ∷ [] else []

image_of : Option ContainerState → Option Text
image_of none = none
image_of (some s) = s.image

-- The container and the image of the one color that runs.
running_image :
    Text
    → Option ContainerState
    → Option ContainerState
    → Severity
    → List Color
    → Option Text × Option Text
unfolding image_of
running_image service blue_state green_state healthy (c ∷ cs) = (
  some (container_name service c),
  if color_eq c blue then image_of blue_state else image_of green_state,
)
running_image service blue_state green_state mismatch (c ∷ cs) = (
  some (container_name service c),
  if color_eq c blue then image_of blue_state else image_of green_state,
)
running_image service blue_state green_state _ _ = (none, none)

unfoldable pub severity_of : Bool → Color → List Color → Severity
severity_of has_preview state_color running =
    if has_preview then pending else classify_service state_color running

unfoldable pub service_issue :
    (Text → Option ContainerState) → List PreviewRecord → Color → Text → ServiceIssue
unfolding running_of running_image
service_issue inspect previews state_color service =
    let blue_state = inspect (container_name service blue) in
    let green_state = inspect (container_name service green) in
    let running = running_of blue blue_state ++ running_of green green_state in
    let severity = severity_of (any (λ p. p.service == service) previews) state_color running in
    let shown = running_image service blue_state green_state severity running in
    record {
      service = service;
      severity = severity;
      state_color = state_color;
      running_color = first running;
      running_container = shown.0;
      image = shown.1;
      fix = service_fix service severity;
    }

unfoldable pub route_issue :
    (Text → Option ServiceDef) → Assoc Color → List ℕ → Text → UnifiedRoute → Option RouteIssue
route_issue load_def colors listening domain r =
    let port = route_host_port load_def r.target r.port (unwrap_or (lookup r.target colors) blue) in
    if any (λ p. eqb p port) listening
    then none
    else some (record {
      subdomain = fqdn domain r.subdomain;
      host_port = port;
      listening = false;
      fix = route_fix r.subdomain r.target;
    })

unfoldable pub preview_issue : PreviewRecord → PreviewIssue
preview_issue p = record {
  service = p.service;
  sha = p.sha;
  color = p.color;
  fix =
      (codes "codery-ci cutover " ++ p.service)
      ∷ (codes "codery-ci cancel-preview " ++ p.service)
      ∷ [];
}

unfoldable pub is_unhealthy : Severity → Bool
is_unhealthy mismatch = true
is_unhealthy dead = true
is_unhealthy pending = true
is_unhealthy healthy = false
is_unhealthy both_up = false

unfoldable pub aggregate : List ServiceIssue → List RouteIssue → List PreviewIssue → DiagnoseReport
aggregate services routes previews = record {
  services = services;
  routes = routes;
  previews = previews;
  all_healthy =
      not (any (λ s. is_unhealthy s.severity) services) && (is_empty routes && is_empty previews);
  issue_count =
      length (retain (λ s. is_unhealthy s.severity) services) + length routes + length previews;
}

-- `state_color` reads a state file, with blue for one that cannot be read.
unfoldable pub run :
    (Text → Option ServiceDef)
    → (Text → Color)
    → (Text → Option ContainerState)
    → List ServiceDef
    → Tables
    → List UnifiedRoute
    → Text
    → Text
    → DiagnoseReport
unfolding aggregate
run load_def state_color inspect defs tables unified domain ss_output =
    let previews = list_previews tables in
    let colors = map (λ def. (def.service, state_color def.service)) defs in
    aggregate
      (map (λ def. service_issue inspect previews (state_color def.service) def.service) defs)
      (filter_map (route_issue load_def colors (parse_listening_ports ss_output) domain) unified)
      (map preview_issue previews)
