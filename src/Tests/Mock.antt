-- ===== src/Tests/Mock.antt =====
-- An implementation of `DeployDeps` like `MockDeps` of the tests in deploy.rs: the color and the SHA
-- on record, the containers that run, and switches that make a step fail.
use Prim.Native.String.{String}
use codery.Base.{
  ℕ, refl, sym, Bool, true, false, Option, none, some, [], ◌∷◌, if◌then◌else◌, Text, codes, ◌==◌,
  ==_ne, trim, is_empty, health_timeout, ok, err,
}
use codery.Config.{Color, blue, container_name}
use codery.Deploy.Deps.{DeployDeps, Unchanged, Only, IsLawful}
use codery.ServiceDef.{any_interface, tcp, NamedPort, tcp_check, ServiceDef}

pub record Mock : Type 0 where
  pub active_color : Color
  pub active_sha : Option Text
  pub up : Text → Bool

pub set_up : Text → Bool → Mock → Mock
set_up name b s = record s { up = λ j. if name == j then b else s.up j }

-- `health_ok`: whether health checks pass; a failing one removes the container.
unfoldable pub mock : Bool → DeployDeps Mock
unfolding set_up
mock health_ok = record {
  preflight = λ s. (ok tt, s);
  read_active = λ service s. ok s.active_color;
  read_active_sha = λ service s. s.active_sha;
  write_active = λ service c s. (ok tt, record s { active_color = c });
  write_active_sha = λ service sha s.
      (ok tt, record s { active_sha = if is_empty (trim sha) then none else some (trim sha) });
  apply_caddy = λ s. (ok tt, s);
  ensure_network = λ n s. (ok tt, s);
  validate = λ def sha c s. (ok tt, s);
  start_container = λ def sha c s. (ok tt, set_up (container_name def.service c) true s);
  remove_container_if_exists = λ name s. (ok tt, set_up name false s);
  stop_container = λ name s. (ok tt, set_up name false s);
  health_check = λ def c s.
      if health_ok
      then (ok tt, s)
      else (err health_timeout, set_up (container_name def.service c) false s);
  prune_images = λ service s. (ok tt, s);
  ensure_nginx_config = λ s. (ok tt, s);
  container_running = λ name s. ok (s.up name);
}

unchanged : (b : Bool) (s : Mock) → Unchanged (mock b) s s
unchanged b s = record { color = λ _. refl; sha = λ _. refl; running = λ _. refl }

set_up-Only : (b v : Bool) (name : Text) (s : Mock) → Only (mock b) name s (set_up name v s)
unfolding mock
set_up-Only b v name s = record {
  color = λ _. refl;
  sha = λ _. refl;
  others = λ other ne. rw (==_ne name other (λ e. ne (sym e)));
}

Only-refl : (b : Bool) (name : Text) (s : Mock) → Only (mock b) name s s
Only-refl b name s = record { color = λ _. refl; sha = λ _. refl; others = λ _ _. refl }

health-Only :
    (b : Bool) (def : ServiceDef) (c : Color) (s : Mock)
    → Only (mock b) (container_name def.service c) s ((mock b).health_check def c s).1
unfolding mock
health-Only true def c s = Only-refl true _ s
health-Only false def c s = set_up-Only false false _ s

pub mock-IsLawful : (health_ok : Bool) → IsLawful (mock health_ok)
unfolding mock
mock-IsLawful b = record {
  preflight_law = unchanged b;
  caddy_law = unchanged b;
  network_law = λ n s. unchanged b s;
  validate_law = λ def sha c s. unchanged b s;
  prune_law = λ service s. unchanged b s;
  nginx_law = unchanged b;
  start_law = λ def sha c s. set_up-Only b true _ s;
  health_law = health-Only b;
  remove_law = λ name s. set_up-Only b false name s;
  stop_law = λ name s. set_up-Only b false name s;
  write_running = λ service c s name. refl;
  write_done = λ service c s e. refl;
  write_undone = λ service c s x e. cc;
  write_sha_running = λ service sha s name. refl;
  write_sha_color = λ service sha s. refl;
  write_sha_done = λ service sha s e. refl;
}

-- The service `paseo` of the tests, with its three ports.
abbrev pub port_of : String → ℕ → NamedPort
port_of name n = record {
  name = codes name;
  container_port = n;
  subdomain = some (codes name);
  fixed_port = none;
  protocol = tcp;
  bind = any_interface;
  auth = none;
}

abbrev pub paseo : ServiceDef
paseo = record {
  service = codes "paseo";
  image = codes "ghcr.io/coderyoss/codery:paseo-{sha}";
  port_scheme = record { blue_offset = 10000; green_offset = 20000 };
  ports = port_of "opencode" 3000 ∷ port_of "vscode" 7000 ∷ port_of "ttyd" 7681 ∷ [];
  port_range = none;
  volumes = [];
  required_env = [];
  env_overrides = some ((codes "MODE", codes "prod") ∷ []);
  health_check = tcp_check (codes "opencode") 60 2;
  network = codes "codery-net";
  extra_hosts = [];
  network_aliases = [];
  allow_privilege_escalation = false;
  command = none;
  entrypoint = none;
  user = none;
  workdir = none;
  with_init = false;
  ipc = none;
}

-- The blue container of `paseo` runs the SHA `abc`.
abbrev pub blue_up : Mock
blue_up = record {
  active_color = blue;
  active_sha = some (codes "abc");
  up = λ name. name == container_name (codes "paseo") blue;
}
