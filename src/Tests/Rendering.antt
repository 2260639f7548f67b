-- ===== src/Tests/Rendering.antt =====
-- Routes as Caddy has them, and as `diagnose` sees them.
use Prim.Native.String.{String}
use codery.Base.{
  ◌≡◌, refl, sym, ◌∙◌, ◌≢◌, ◌↔◌, true, false, false≢true, Option, none, some, [], ◌∷◌, arith,
  if◌then◌else◌, Text, codes, ◌==◌, ==_iff, any, Assoc, lookup,
}
use codery.Caddy.{color_for, route_port}
use codery.Caddy.Ports.{diagnose_mirrors, built_in_offset, diagnose_mirrors_apps_iff}
use codery.Config.{Color, blue, green, flip, container_name}
use codery.Db.{PreviewRecord}
use codery.Diagnose.{ContainerState, route_host_port, service_issue}
use codery.Diagnose.Classify.{container_runs, expected, severity-expected}
use codery.Routes.{UnifiedRoute}
use codery.ServiceDef.{ServiceDef}
use codery.Tests.Mock.{paseo}

abbrev route : String → String → UnifiedRoute
route sub target = record {
  subdomain = codes sub;
  port = 3000;
  target = codes target;
  internal_port = none;
  no_cache = false;
  auth_env = some (codes "AUTH");
}

abbrev apps_def : ServiceDef
apps_def = record paseo {
  service = codes "apps";
  port_scheme = record { blue_offset = 0; green_offset = 10000 };
}

-- A definition with another offset of green than the one that Caddy has built in.
abbrev far_apps : ServiceDef
far_apps = record apps_def { port_scheme = record { blue_offset = 0; green_offset = 20000 } }

abbrev greens : Assoc Color
greens = (codes "apps", green) ∷ []

text_ne : (s t : Text) → (s == t) ≡ false → s ≢ t
text_ne s t h e = false≢true (sym h ∙ (==_iff s t).1 e)

paseo-ne-apps : codes "paseo" ≢ codes "apps"
unfolding ◌==◌
paseo-ne-apps = text_ne (codes "paseo") (codes "apps") refl

diagnose_mirrors_example :
    route_host_port (λ t. some paseo) (codes "paseo") 3000 (color_for greens (codes "paseo"))
    ≡ route_port (λ t. some paseo) greens (route "opencode" "paseo")
diagnose_mirrors_example =
    diagnose_mirrors (λ t. some paseo) greens (route "opencode" "paseo") paseo-ne-apps

apps_green : color_for greens (codes "apps") ≡ green
unfolding color_for lookup ◌==◌
apps_green = refl

abbrev up_blue : Text → Option ContainerState
up_blue name =
    if name == container_name (codes "paseo") blue
    then some (record { running = true; image = none })
    else none

severity-expected_example :
    (service_issue up_blue [] green (codes "paseo")).severity
    ≡ expected
        (any (λ (p : PreviewRecord). p.service == codes "paseo") [])
        (container_runs up_blue (codes "paseo") green)
        (container_runs up_blue (codes "paseo") (flip green))
severity-expected_example = severity-expected up_blue [] green (codes "paseo")

diagnose_mirrors_apps_iff_example :
    (route_host_port (λ t. some far_apps) (codes "apps") 3000 (color_for greens (codes "apps"))
      ≡ route_port (λ t. some far_apps) greens (route "wiki" "apps"))
    ↔ (20000 ≡ built_in_offset (color_for greens (codes "apps")))
unfolding color_for lookup ◌==◌ codery.ServiceDef.Ports.color_offset
diagnose_mirrors_apps_iff_example =
    diagnose_mirrors_apps_iff (λ t. some far_apps) greens (route "wiki" "apps") far_apps refl refl
      (omega arith) (omega arith)
