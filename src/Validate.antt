-- ===== src/Validate.antt =====
-- system/orchestrator/src/validate.rs: the checks before a deploy. What the file system, Docker, the
-- registry and `bind` answer are arguments, and so is what `read_active` gives.
pub mod Parts
pub mod Verdicts
pub mod Occupied
pub mod Run
use codery.ServiceDef.Env.{image_ref as service_image}
use codery.Base.{
  ℕ, Bool, not, ◌&&◌, ◌||◌, Option, none, some, List, [], ◌∷◌, ◌++◌, eqb, if◌then◌else◌, is_some,
  map_option, and_then, Text, codes, trim, starts_with, split_once, lines, retain, any, is_empty,
  flat_map, Assoc, lookup, insert, Error, Result, ok, err, unwrap_or_else,
}
use codery.Config.{Color, blue}
use codery.ServiceDef.{udp, NamedPort, VolumeMount, named, bind_mount, ServiceDef, protocol_eq}
use codery.ServiceDef.Env.{substitute_loop}
use codery.ServiceDef.Ports.{port_mappings}

pub data Problem : Type 0 where
  no_variable : Text → Problem
  no_substitution : Error → Problem
  no_path : Text → Problem
  no_volume : Text → Error → Problem
  no_image : Error → Problem
  port_in_use : ℕ → Problem
  no_fixed_port : Text → Problem
  has_subdomain : Text → Problem

pub data Verdict : Type 0 where
  passed : Verdict
  failed : List Problem → Verdict

-- The lines of `.env` in their order; a later one takes the place of an earlier one.
unfoldable pub env_map : List Text → Assoc Text → Assoc Text
env_map [] env = env
env_map (l ∷ ls) env = elim (split_once b'=' l) [
  | none ↦ env_map ls env
  | some p ↦ env_map ls (insert p.0 p.1 env)
]

unfoldable pub load_env_map : Option Text → Assoc Text
unfolding env_map
load_env_map none = []
load_env_map (some text) =
    env_map (retain (λ l. not (is_empty (trim l)) && not (starts_with (codes "#") l)) (lines text))
      []

unfoldable pub variable_problems : Assoc Text → List Text → List Problem
variable_problems env [] = []
variable_problems env (k ∷ ks) = elim (lookup k env) [
  | none ↦ no_variable k ∷ variable_problems env ks
  | some v ↦ variable_problems env ks
]

unfoldable pub path_problems : (Text → Bool) → Result Text → List Problem
path_problems path_exists (err e) = no_substitution e ∷ []
path_problems path_exists (ok path) = if path_exists path then [] else no_path path ∷ []

-- `none`: the substitution of a path is not done after the given number of rounds.
unfoldable pub bind_problems :
    ℕ → Assoc Text → (Text → Bool) → List VolumeMount → Option (List Problem)
unfolding path_problems
bind_problems fuel env path_exists [] = some []
bind_problems fuel env path_exists (named name container ∷ vs) =
    bind_problems fuel env path_exists vs
bind_problems fuel env path_exists (bind_mount host container readonly ∷ vs) =
    let later = bind_problems fuel env path_exists vs in
    and_then (substitute_loop fuel env host)
      λ r. map_option (λ rest. path_problems path_exists r ++ rest) later

unfoldable pub volume_problems : (Text → Result (Unit {0})) → List VolumeMount → List Problem
volume_problems ensure [] = []
volume_problems ensure (named name container ∷ vs) = elim (ensure name) [
  | ok u ↦ volume_problems ensure vs
  | err e ↦ no_volume name e ∷ volume_problems ensure vs
]
volume_problems ensure (bind_mount host container readonly ∷ vs) = volume_problems ensure vs

unfoldable pub image_problems : Result (Unit {0}) → List Problem
image_problems (ok u) = []
image_problems (err e) = no_image e ∷ []

-- The ports of the active color are left out: the cutover frees them.
unfoldable pub port_problems : (ℕ → Bool) → List (ℕ × ℕ) → List (ℕ × ℕ) → List Problem
port_problems can_bind active [] = []
port_problems can_bind active (m ∷ ms) =
    let rest = port_problems can_bind active ms in
    if any (λ a. eqb a.0 m.0) active || can_bind m.0 then rest else port_in_use m.0 ∷ rest

unfoldable pub udp_problem : NamedPort → List Problem
unfolding protocol_eq
udp_problem p =
    if not (protocol_eq p.protocol udp)
    then []
    else (if is_some p.fixed_port then [] else no_fixed_port p.name ∷ [])
      ++ (if is_some p.subdomain then has_subdomain p.name ∷ [] else [])

unfoldable pub verdict : List Problem → Verdict
verdict [] = passed
verdict (p ∷ ps) = failed (p ∷ ps)

-- What the checks ask of the system.
pub record Host : Type 0 where
  pub env : Assoc Text
  pub path_exists : Text → Bool
  pub ensure_volume : Text → Result (Unit {0})
  pub pull_if_missing : Text → Result (Unit {0})
  pub active : Result Color
  pub can_bind : ℕ → Bool

unfoldable pub check_deploy : ℕ → Host → ServiceDef → Text → Color → Option Verdict
unfolding variable_problems bind_problems volume_problems image_problems port_problems udp_problem
    verdict
check_deploy fuel host def sha inactive =
    map_option
      (λ paths. verdict (
        variable_problems host.env def.required_env
        ++ (paths
            ++ (volume_problems host.ensure_volume def.volumes
                ++ (image_problems (host.pull_if_missing (service_image def sha))
                    ++ (port_problems host.can_bind
                          (port_mappings def (unwrap_or_else host.active blue))
                          (port_mappings def inactive)
                        ++ flat_map udp_problem def.ports))))))
      (bind_problems fuel host.env host.path_exists def.volumes)
