-- ===== src/Validate/Parts.antt =====
-- When each of the checks before a deploy finds no problem: validate.rs, check_deploy.
use codery.Base.{
  ℕ, ◌≡◌, refl, sym, ◌∙◌, ◌≢◌, ◌↔◌, inl, inr, Bool, true, false, false≢true, not, ◌||◌, Option,
  none, some, List, [], ◌∷◌, ◌++◌, eqb, if◌then◌else◌, Bool-cases, Option-cases, is_some,
  map_option, and_then, Text, any, flat_map, All, Assoc, lookup, Result, ok, err,
}
use codery.ServiceDef.{
  PortProtocol, tcp, udp, NamedPort, VolumeMount, named, bind_mount, protocol_eq,
}
use codery.ServiceDef.Env.{substitute_loop}
use codery.Validate.{
  Problem, no_substitution, no_path, no_fixed_port, has_subdomain, passed, variable_problems,
  path_problems, bind_problems, volume_problems, image_problems, port_problems, udp_problem,
  verdict, Host,
}

-- A volume is there, or can be made.
abbrev pub VolumeReady : ℕ → Host → VolumeMount → Type 0
VolumeReady fuel host (named name container) = host.ensure_volume name ≡ ok tt
VolumeReady fuel host (bind_mount path container readonly) =
    (t : Text) × (substitute_loop fuel host.env path ≡ some (ok t)) × (host.path_exists t ≡ true)

-- A UDP port is one that the relay serves and Caddy does not.
abbrev pub PortSane : NamedPort → Type 0
PortSane p = (p.protocol ≡ udp) → ((is_some p.fixed_port ≡ true) × (is_some p.subdomain ≡ false))

pub append-empty : {A : Type 0} (xs ys : List A) → (xs ++ ys ≡ []) ↔ ((xs ≡ []) × (ys ≡ []))
append-empty [] ys = (λ h. (refl, h), λ h. h.1)
append-empty (x ∷ xs) ys = (λ h. cc, λ h. cc)

pub verdict-passed : (ps : List Problem) → (verdict ps ≡ passed) ↔ (ps ≡ [])
unfolding verdict
verdict-passed [] = (λ h. refl, λ h. refl)
verdict-passed (p ∷ ps) = (λ h. cc, λ h. cc)

pub variables_iff :
    (env : Assoc Text) (ks : List Text)
    → (variable_problems env ks ≡ []) ↔ All (λ k. is_some (lookup k env) ≡ true) ks
unfolding variable_problems
variables_iff env [] = (λ h. tt, λ h. refl)
variables_iff env (k ∷ ks) = elim (Option-cases (lookup k env)) [
  | inl e ↦ rw (e, variable_problems) (λ h. cc, λ h. absurd (false≢true h.0))
  | inr (v, e) ↦
      rw (e, variable_problems)
        (λ h. (refl, (variables_iff env ks).0 h), λ h. (variables_iff env ks).1 h.1)
]

pub image_iff : (r : Result (Unit {0})) → (image_problems r ≡ []) ↔ (r ≡ ok tt)
unfolding image_problems
image_iff (ok tt) = (λ h. refl, λ h. refl)
image_iff (err e) = (λ h. cc, λ h. cc)

pub ports_iff :
    (can_bind : ℕ → Bool) (active ms : List (ℕ × ℕ))
    → (port_problems can_bind active ms ≡ [])
      ↔ All (λ m. (any (λ a. eqb a.0 m.0) active || can_bind m.0) ≡ true) ms
unfolding port_problems
ports_iff can_bind active [] = (λ h. tt, λ h. refl)
ports_iff can_bind active (m ∷ ms) =
    elim (Bool-cases (any (λ a. eqb a.0 m.0) active || can_bind m.0)) [
      | inl e ↦ rw e (
        λ h. (refl, (ports_iff can_bind active ms).0 h),
        λ h. (ports_iff can_bind active ms).1 h.1,
      )
      | inr e ↦ rw e (λ h. cc, λ h. absurd (false≢true h.0))
    ]

udp_problem_iff : (p : NamedPort) → (udp_problem p ≡ []) ↔ PortSane p
unfolding udp_problem protocol_eq
udp_problem_iff p = by_protocol p.protocol p.fixed_port p.subdomain
  where
    by_protocol :
        (r : PortProtocol) (f : Option ℕ) (d : Option Text)
        → ((if not (protocol_eq r udp)
              then []
              else (if is_some f then [] else no_fixed_port p.name ∷ [])
                ++ (if is_some d then has_subdomain p.name ∷ [] else []))
            ≡ [])
          ↔ ((r ≡ udp) → ((is_some f ≡ true) × (is_some d ≡ false)))
    by_protocol tcp f d = (λ h e. absurd cc, λ h. refl)
    by_protocol udp none none = (λ h e. absurd cc, λ h. absurd (false≢true (h refl).0))
    by_protocol udp none (some x) = (λ h e. absurd cc, λ h. absurd (false≢true (h refl).0))
    by_protocol udp (some n) none = (λ h e. (refl, refl), λ h. refl)
    by_protocol udp (some n) (some x) =
        (λ h e. absurd cc, λ h. absurd (false≢true (sym (h refl).1)))

pub udp_iff : (ps : List NamedPort) → (flat_map udp_problem ps ≡ []) ↔ All PortSane ps
udp_iff [] = (λ h. tt, λ h. refl)
udp_iff (p ∷ ps) = (
  λ h.
      let (a, b) = (append-empty (udp_problem p) (flat_map udp_problem ps)).0 h in
      ((udp_problem_iff p).0 a, (udp_iff ps).0 b),
  λ h.
      (append-empty (udp_problem p) (flat_map udp_problem ps)).1
        ((udp_problem_iff p).1 h.0, (udp_iff ps).1 h.1),
)

unfold_cons : {A : Type 0} (x : A) (o : Option (List A)) → map_option (λ r. x ∷ r) o ≢ some []
unfold_cons x none h = cc
unfold_cons x (some r) h = cc

map_option_id : {A : Type 0} (o : Option A) → map_option (λ r. r) o ≡ o
map_option_id none = refl
map_option_id (some a) = refl

-- One bind mount: its path is resolved, the path is there, and the later volumes have no problem.
bind_iff :
    (path_exists : Text → Bool) (o : Option (Result Text)) (later : Option (List Problem))
    → (and_then o (λ r. map_option (λ rest. path_problems path_exists r ++ rest) later) ≡ some [])
      ↔ (((t : Text) × (o ≡ some (ok t)) × (path_exists t ≡ true)) × (later ≡ some []))
unfolding path_problems
bind_iff path_exists none later = (λ h. absurd cc, λ h. let (t, e, x) = h.0 in absurd cc)
bind_iff path_exists (some (err x)) later =
    (λ h. absurd (unfold_cons (no_substitution x) later h), λ h. let (t, e, y) = h.0 in absurd cc)
bind_iff path_exists (some (ok t)) later = elim (Bool-cases (path_exists t)) [
  | inl e ↦ (
    λ h. ((t, refl, e), sym (map_option_id later) ∙ rw e at h),
    λ h. rw e (map_option_id later ∙ h.1),
  )
  | inr e ↦ (
    λ h. absurd (unfold_cons (no_path t) later (rw e at h)),
    λ h. let (u, a, b) = h.0 in let same : t ≡ u = cc in absurd (false≢true (sym e ∙ rw same b)),
  )
]

ensured_iff :
    (host : Host) (name container : Text) (vs : List VolumeMount)
    → (volume_problems host.ensure_volume (named name container ∷ vs) ≡ [])
      ↔ ((host.ensure_volume name ≡ ok tt) × (volume_problems host.ensure_volume vs ≡ []))
unfolding volume_problems
ensured_iff host name container vs = by_answer (host.ensure_volume name) refl
  where
    by_answer :
        (r : Result (Unit {0}))
        → host.ensure_volume name ≡ r
        → (volume_problems host.ensure_volume (named name container ∷ vs) ≡ [])
          ↔ ((host.ensure_volume name ≡ ok tt) × (volume_problems host.ensure_volume vs ≡ []))
    by_answer (ok tt) e = rw (e, volume_problems) (λ h. (refl, h), λ h. h.1)
    by_answer (err x) e = rw (e, volume_problems) (λ h. absurd cc, λ h. let k = h.0 in absurd cc)

pub volumes_iff :
    (fuel : ℕ) (host : Host) (vs : List VolumeMount)
    → ((bind_problems fuel host.env host.path_exists vs ≡ some [])
        × (volume_problems host.ensure_volume vs ≡ []))
      ↔ All (VolumeReady fuel host) vs
unfolding bind_problems volume_problems
volumes_iff fuel host [] = (λ h. tt, λ h. (refl, refl))
volumes_iff fuel host (named name container ∷ vs) =
    let here = ensured_iff host name container vs in
    (
      λ h. ((here.0 h.1).0, (volumes_iff fuel host vs).0 (h.0, (here.0 h.1).1)),
      λ h. let (a, b) = (volumes_iff fuel host vs).1 h.1 in (a, here.1 (h.0, b)),
    )
volumes_iff fuel host (bind_mount path container readonly ∷ vs) =
    let here =
      bind_iff host.path_exists (substitute_loop fuel host.env path)
        (bind_problems fuel host.env host.path_exists vs) in
    (
      λ h. let (a, b) = here.0 h.0 in (a, (volumes_iff fuel host vs).0 (b, h.1)),
      λ h. let (a, b) = (volumes_iff fuel host vs).1 h.1 in (here.1 (h.0, a), b),
    )
