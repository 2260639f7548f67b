-- ===== src/ServiceDef/Env.antt =====
-- service_def.rs: the environment and the volume binds of a container, and the image reference.
pub mod Substitution
pub mod Overrides
use codery.Base.{
  ℕ, zero, suc, not, Option, none, some, List, [], ◌∷◌, ◌++◌, if◌then◌else◌, unwrap_or, map_option,
  and_then, Text, codes, strip_prefix, starts_with, cut, length, drop, retain, Assoc, lookup, Error,
  missing_env, unclosed_placeholder, Result, ok, err, bind_result,
}
use codery.ServiceDef.{VolumeMount, named, bind_mount, ServiceDef}

-- `str::replace` of the placeholder by a text. The fuel is the length: each round takes a character.
replace_all : ℕ → Text → Text → Text → Text
replace_all zero from to s = s
replace_all (suc f) from to [] = []
replace_all (suc f) from to (c ∷ s) =
    let past = to ++ replace_all f from to (unwrap_or (strip_prefix from (c ∷ s)) []) in
    let next = c ∷ replace_all f from to s in if starts_with from (c ∷ s) then past else next

-- `ServiceDef::image_ref`.
unfoldable pub image_ref : ServiceDef → Text → Text
unfolding replace_all
image_ref def sha = replace_all (length def.image) (codes "{sha}") sha def.image

-- One round of the loop of `substitute_env`: finished, refused, or the text with its first
-- placeholder replaced.
pub data Round : Type 0 where
  closed : Round
  refused : Error → Round
  replaced : Text → Round

unfoldable pub substitute_first : Assoc Text → Text → Round
substitute_first env result = elim (cut (codes "${") result) [
  | none ↦ closed
  | some (before, found) ↦ elim (cut (codes "}") found) [
    | none ↦ refused unclosed_placeholder
    | some (opened, rest) ↦ elim (lookup (drop 2 opened) env) [
      | none ↦ refused missing_env
      | some value ↦ replaced (before ++ (value ++ drop 1 rest))
    ]
  ]
]

-- The loop of `substitute_env`, for at most the given number of rounds; `none`: it still runs.
unfoldable pub substitute_loop : ℕ → Assoc Text → Text → Option (Result Text)
substitute_loop zero env result = none
substitute_loop (suc f) env result = elim (substitute_first env result) [
  | closed ↦ some (ok result)
  | refused e ↦ some (err e)
  | replaced next ↦ substitute_loop f env next
]

-- `resolved_binds` needs every substitution to end; the fuel is that of each.
unfoldable pub resolved_binds : ℕ → Assoc Text → List VolumeMount → Option (Result (List Text))
resolved_binds fuel env [] = some (ok [])
resolved_binds fuel env (named name container ∷ vs) =
    map_option (λ r. bind_result r (λ binds. ok ((name ++ (codes ":" ++ container)) ∷ binds)))
      (resolved_binds fuel env vs)
resolved_binds fuel env (bind_mount host container readonly ∷ vs) =
    let later = resolved_binds fuel env vs in
    and_then (substitute_loop fuel env host) λ r. elim r [
      | err e ↦ some (err e)
      | ok resolved ↦
          map_option
            (λ rest. bind_result rest λ binds. ok (
              (resolved ++ (codes ":" ++ (container ++ (if readonly then codes ":ro" else []))))
              ∷ binds))
            later
    ]

-- Remove the lines of a key, then append its override.
unfoldable pub override : Text → Text → List Text → List Text
override k v env =
    retain (λ line. not (starts_with (k ++ codes "=") line)) env ++ (k ++ (codes "=" ++ v)) ∷ []

overridden : Assoc Text → List Text → List Text
unfolding override
overridden [] env = env
overridden ((k, v) ∷ overrides) env = overridden overrides (override k v env)

unfoldable pub resolved_env : ServiceDef → List Text → List Text
unfolding overridden
resolved_env def raw_env = elim def.env_overrides [
  | none ↦ raw_env
  | some overrides ↦ overridden overrides raw_env
]
