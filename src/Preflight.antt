-- ===== src/Preflight.antt =====
-- system/orchestrator/src/preflight.rs: the checks at the start of a deploy. What the programs print
-- and whether Caddy's port answers are arguments.
use codery.Base.{
  Bool, Option, none, some, if◌then◌else◌, is_some, unwrap_or, Text, codes, ◌==◌, cut, lines, any,
  io_error, parse_error, preflight_failed, Result, ok, err, bind_result,
}
use codery.World.{System}

unfoldable pub contains : Text → Text → Bool
contains part text = is_some (cut part text)

unfoldable pub check_supervisord : Option Text → Result (Unit {0})
unfolding contains
check_supervisord none = err io_error
check_supervisord (some stdout) =
    if any (contains (codes "RUNNING")) (lines stdout) then ok tt else err preflight_failed

-- The outer `none`: no JSON could be read. A state that is no text is `unknown`.
unfoldable pub check_tailscale : Option (Option Text) → Result (Unit {0})
check_tailscale none = err parse_error
check_tailscale (some state) =
    if unwrap_or state (codes "unknown") == codes "Running" then ok tt else err preflight_failed

unfoldable pub check_caddy : Bool → Result (Unit {0})
check_caddy reachable = if reachable then ok tt else err io_error

unfoldable pub run_checks : {D : Type 0} → System D → Result (Unit {0})
unfolding check_supervisord check_tailscale check_caddy
run_checks sys = bind_result (check_supervisord sys.supervisorctl) λ _.
    bind_result (check_tailscale sys.backend_state)
      λ _. bind_result (check_caddy sys.caddy_reachable) λ _. ok tt
