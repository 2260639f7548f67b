-- ===== src/Lib.antt =====
-- The orchestrator `codery-ci`: blue/green deployment of services in Docker containers behind Caddy.
--
-- The program is system/orchestrator/src. A service is declared in a YAML file (service_def.rs) and
-- has two containers, blue and green. A state file names the active color and another one the SHA
-- that it runs (state.rs). A deploy (deploy.rs) checks its inputs (validate.rs), starts the inactive
-- container, waits for it, records its color, and stops the other one. The database (db.rs) holds
-- apps and previews; with the services and the static routes they give the table of routes, from
-- which the Caddyfile is made (caddy.rs). Fixed ports are led to the active container by a TCP proxy
-- and a UDP relay (tcp_proxy.rs, udp_proxy.rs). `diagnose` compares what is recorded with what runs.
--
-- The commands (main.rs), the tools of the MCP server (mcp.rs) and the user interface (ui.rs) call
-- these parts, most of them under the lock of the service (deploy_lock.rs). The apps of one container
-- are supervised by s6 (s6.rs, db.rs) and served by Nginx (nginx.rs).
--
-- Base: integers, lists, texts, maps, results, and rules for computations that change a state and
--   may fail.
-- Config: config.rs, colors and names. Files, State: a file system, and state.rs over it.
-- ServiceDef: service_def.rs. ServiceDef/Ports is port_binding_specs and its relatives, ServiceDef/Env
--   resolved_env and resolved_binds, ServiceDef/Load load and load_all.
-- Images: images.rs, credentials, local images, and which images a prune removes; Images/Pull the
--   calls of Docker.
-- Docker, World: the methods of bollard that are called, over any state of Docker, with their laws;
--   and the state of the whole program, which is files, Docker, tables, bundles and locks.
-- Db, Routes: db.rs, the statements on the tables, and build_route_map.
-- Caddy, Diagnose: caddy.rs and diagnose.rs, generate_from_routes, apply_all (Caddy/Apply) and run.
-- Nginx: nginx.rs, the configuration for the apps and the reload in the active container.
-- S6: the bundles of the apps (db.rs, sync_s6) and s6.rs (S6/Svstat).
-- Deploy: deploy.rs. Deploy/Plan is plan_cutover, Deploy/Deps the trait DeployDeps as an interface
--   with its laws, Deploy/Flow the procedures over any implementation of the trait, Deploy/Container
--   and Deploy/Health start_container and its relatives and the health checks, Deploy/Real the
--   implementation RealDeps and the procedures over it.
-- Lock: deploy_lock.rs, the lock of a deploy.
-- Validate, Preflight: validate.rs, check_deploy and its calls of Docker (Validate/Run); preflight.rs.
-- Targets, Relay: tcp_proxy.rs and udp_proxy.rs, the fixed ports that they serve, and the relay as a
--   state with the steps datagram, sweep and end of a forwarder.
-- Jobs: mcp_exec.rs, the registry of background jobs as a state with its steps.
-- Command: main.rs, the commands that change something. Ui: ui.rs, the list of services, the map of
--   operations as a state with steps, and the rollback. Mcp: mcp.rs, the tools that change services
--   (Mcp) and apps (Mcp/Apps).
-- HostMetrics: host_metrics.rs, the readers of /proc, the rating of the host, and its samples.
-- Tests: concrete inputs, and the theorems at them.
--
-- A text is the list of its code points. A `u16` is a natural number, and its addition wraps around
-- as in a release build. An `f64` is a parameter with its operations. A fallible function gives a
-- Result; the wording of errors is left out, its kind is kept. A procedure over a state gives its
-- result and the state that it leaves, also on failure. Docker, SQLite's own errors, the YAML and
-- JSON readers and writers, `bind`, the outcome of host commands and clocks are arguments. The
-- laws of DeployDeps
-- (Deploy/Deps) say which method changes what; they say nothing of success, except that a write that
-- succeeds is what is read afterwards, and that a failed write changes nothing. Deploy/Real/Laws
-- derives them for RealDeps from the laws IsEngine of Docker (Docker): a call that creates, starts,
-- stops or removes a container leaves whether any other one runs as it is, and a command in a
-- container, networks, volumes, images and waiting leave it for all, so no container ends by itself.
-- IsTruthful says besides that a container runs in which a command has just succeeded, or that is
-- reported as healthy.
--
-- Loops are recursion on their list or on the attempts that are left. The loop of substitute_env need
-- not end and runs on fuel, one for each round: more than the number of `$` in the text is enough
-- where no value has a `$`. The `rounds` of World are that fuel for a deploy. `replace_all` has the
-- length of the text as fuel, of which each round takes a character, and twenty digits are enough for
-- a `u64`. Times are natural numbers of nanoseconds.
--
-- Not modelled: what only shows something (tools of mcp.rs, commands of main.rs and pages of ui.rs
-- that print), the servers themselves, HTTP, event streams and the copying of bytes (daemon.rs,
-- mcp.rs, ui.rs, tcp_proxy.rs), the timer of the host metrics, and messages and logs.
mod Base
pub mod Config
pub mod Files
pub mod State
pub mod ServiceDef
pub mod Images
pub mod Db
pub mod Routes
pub mod Caddy
pub mod Diagnose
pub mod Deploy
pub mod Lock
pub mod Validate
pub mod Targets
pub mod Relay
pub mod Jobs
pub mod HostMetrics
pub mod Tests
pub mod Docker
pub mod World
pub mod Nginx
pub mod S6
pub mod Command
pub mod Ui
pub mod Mcp
pub mod Preflight
