-- ===== src/Deploy/Real/Laws.antt =====
-- RealDeps keeps the laws of the trait, given how Docker treats containers.
use codery.Base.{
  ℕ, ◌≡◌, refl, sym, ap, ◌∙◌, ◌≢◌, inl, inr, List, [], ◌∷◌, ◌++◌, arith, Bool-cases, Text, codes,
  Result, ok, Exec, query, ◌>>=◌,
}
use codery.Base.Outcome.Triple.{bind_within}
use codery.Caddy.Apply.{apply_all}
use codery.Config.{caddy_config, nginx_config, Color, container_name}
use codery.Config.Laws.{last_char}
use codery.Deploy.Container.{start_container}
use codery.Deploy.Deps.{DeployDeps, Unchanged, Only, IsLawful}
use codery.Deploy.Real.{ensure_nginx_config, container_running, real_deps}
use codery.Deploy.Real.Isolation.{
  Spares, IsSparing, Every, Beside, remove-IsSparing, stop-IsSparing, network-IsSparing,
  create-IsSparing, health-IsSparing, prune-IsSparing, pull-IsSparing, ensure_volume-IsSparing,
}
use codery.Docker.{IsEngine}
use codery.Files.{exists, write}
use codery.Files.Laws.{write_failed, entry-write_ne}
use codery.Preflight.{run_checks}
use codery.ServiceDef.{VolumeMount, named, bind_mount, ServiceDef}
use codery.State.{state_path, sha_path, read_active, write_active, write_active_sha}
use codery.State.Laws.{
  state_path_end, sha_path_end, read_active_lem, read_active_sha_lem, read-write_active,
  read-write_active_sha, write_active_sha_frame,
}
use codery.Validate.Run.{ensure_volumes, run_check_deploy}
use codery.World.{World, System, on_docker, on_files}

-- A path that holds no color and no SHA.
pub record IsApart (path : Text) : Type 0 where
  pub color : (service : Text) → path ≢ state_path service
  pub sha : (service : Text) → path ≢ sha_path service

IsApart-from : (path p : Text) (c : ℕ) → path ≡ p ++ c ∷ [] → c ≢ b'r' → c ≢ b'a' → IsApart path
IsApart-from path p c e nr na = record {
  color =
      λ service h. let (q, g) = state_path_end service in nr (last_char p q c b'r' (sym e ∙ h ∙ g));
  sha = λ service h. let (q, g) = sha_path_end service in na (last_char p q c b'a' (sym e ∙ h ∙ g));
}

caddy_config-IsApart : IsApart caddy_config
caddy_config-IsApart =
    IsApart-from caddy_config (codes "/etc/caddy/Caddyfil") b'e' refl (λ h. omega (arith, h))
      (λ h. omega (arith, h))

pub nginx_config-IsApart : IsApart nginx_config
nginx_config-IsApart =
    IsApart-from nginx_config (codes "/opt/codery/proxy/apps-nginx.con") b'f' refl
      (λ h. omega (arith, h)) (λ h. omega (arith, h))

module _ {D : Type 0} (sys : System D) (law : IsEngine sys.engine) where
  abbrev deps : DeployDeps (World D)
  deps = real_deps sys

  abbrev pub Idle : World D → World D → Type 0
  Idle = Unchanged deps

  pub Idle-refl : (w : World D) → Idle w w
  Idle-refl w = record { color = λ _. refl; sha = λ _. refl; running = λ _. refl }

  pub Idle-trans : (u v w : World D) → Idle u v → Idle v w → Idle u w
  Idle-trans u v w h k = record {
    color = λ s. k.color s ∙ h.color s;
    sha = λ s. k.sha s ∙ h.sha s;
    running = λ s. k.running s ∙ h.running s;
  }

  pub unchanged_docker :
      {A : Type 0} (m : Exec D A)
      → IsSparing sys.engine (Every sys.engine) m
      → (w : World D) → Idle w (on_docker m w).1
  unfolding real_deps on_docker container_running
  unchanged_docker m k w = record {
    color = λ _. refl;
    sha = λ _. refl;
    running = λ name. ap (λ b. ok b) (k w.docker name tt);
  }

  pub Only-docker :
      {A : Type 0} (name : Text) (m : Exec D A)
      → IsSparing sys.engine (Beside sys.engine name) m
      → (w : World D) → Only deps name w (on_docker m w).1
  unfolding real_deps on_docker container_running
  Only-docker name m k w = record {
    color = λ _. refl;
    sha = λ _. refl;
    others = λ other ne. ap (λ b. ok b) (k w.docker other ne);
  }

  pub unchanged_file :
      (path text : Text) → IsApart path → (w : World D) → Idle w (on_files (write path text) w).1
  unfolding real_deps on_files container_running
  unchanged_file path text a w = record {
    color = λ service. rw (
      read_active_lem service _,
      read_active_lem service w.files,
      entry-write_ne path text w.files _ _ (state_path service) refl (a.color service),
    );
    sha = λ service. rw (
      read_active_sha_lem service _,
      read_active_sha_lem service w.files,
      entry-write_ne path text w.files _ _ (sha_path service) refl (a.sha service),
    );
    running = λ _. refl;
  }

  pub query-Idle : {A : Type 0} (f : World D → Result A) (w : World D) → Idle w (query f w).1
  unfolding ◌>>=◌
  query-Idle f w = Idle-refl w

  pub apply_all-Idle : (w : World D) → Idle w (apply_all sys w).1
  unfolding apply_all
  apply_all-Idle = bind_within Idle Idle-refl Idle-trans _ _ (query-Idle _) (λ text.
      bind_within Idle Idle-refl Idle-trans _ _
        (unchanged_file caddy_config text caddy_config-IsApart) (λ u. query-Idle _))

  ensure_volumes-Spares :
      (vs : List VolumeMount) (d : D)
      → Spares sys.engine (Every sys.engine) d (ensure_volumes sys vs d).1
  unfolding ensure_volumes
  ensure_volumes-Spares [] d other u = refl
  ensure_volumes-Spares (bind_mount host container readonly ∷ vs) d other u =
      ensure_volumes-Spares vs d other u
  ensure_volumes-Spares (named name container ∷ vs) d other u =
      ensure_volumes-Spares vs _ other u ∙ ensure_volume-IsSparing sys.engine law name d other tt

  check_deploy-Idle :
      (def : ServiceDef) (sha : Text) (c : Color) (w : World D)
      → Idle w (run_check_deploy sys def sha c w).1
  unfolding real_deps run_check_deploy container_running
  check_deploy-Idle def sha c w = record {
    color = λ _. refl;
    sha = λ _. refl;
    running = λ name.
        ap (λ b. ok b)
          (pull-IsSparing sys.engine law _ _ _ name tt
            ∙ ensure_volumes-Spares def.volumes w.docker name tt);
  }

  nginx-Idle : (w : World D) → Idle w (on_files (ensure_nginx_config sys) w).1
  unfolding ensure_nginx_config on_files real_deps
  nginx-Idle w = elim (Bool-cases (exists w.files nginx_config)) [
    | inl e ↦ rw e (Idle-refl w)
    | inr e ↦ rw e (unchanged_file nginx_config [] nginx_config-IsApart w)
  ]

  start-Only :
      (def : ServiceDef) (sha : Text) (c : Color) (w : World D)
      → Only deps
          (container_name def.service c)
          w
          (start_container sys.engine sys.rounds def sha c w).1
  unfolding start_container
  start-Only def sha c =
      bind_within (Only deps _)
        (λ w. record { color = λ _. refl; sha = λ _. refl; others = λ _ _. refl })
        (λ u v w h k. record {
          color = λ s. k.color s ∙ h.color s;
          sha = λ s. k.sha s ∙ h.sha s;
          others = λ other ne. k.others other ne ∙ h.others other ne;
        })
        _ _
        (unfold ◌>>=◌ in λ w. record { color = λ _. refl; sha = λ _. refl; others = λ _ _. refl })
        (λ config. Only-docker _ _ (create-IsSparing sys.engine law _ config))

-- Given that Docker treats containers apart from each other: every law of the trait on which the
-- procedures of a deploy rely holds of its implementation.
pub real-IsLawful : {D : Type 0} (sys : System D) → IsEngine sys.engine → IsLawful (real_deps sys)
unfolding real_deps on_files write_active
real-IsLawful sys law = record {
  preflight_law = λ w. query-Idle sys law (λ v. run_checks sys) w;
  caddy_law = apply_all-Idle sys law;
  network_law = λ n w. unchanged_docker sys law _ (network-IsSparing sys.engine law n) w;
  validate_law = λ def sha c w. check_deploy-Idle sys law def sha c w;
  prune_law = λ service w. unchanged_docker sys law _ (prune-IsSparing sys.engine law service) w;
  nginx_law = nginx-Idle sys law;
  start_law = λ def sha c w. start-Only sys law def sha c w;
  health_law = λ def c w. Only-docker sys law _ _ (health-IsSparing sys.engine law def c) w;
  remove_law = λ name w. Only-docker sys law name _ (remove-IsSparing sys.engine law name) w;
  stop_law = λ name w. Only-docker sys law name _ (stop-IsSparing sys.engine law name) w;
  write_running = λ service c w name. refl;
  write_done = λ service c w h.
      read-write_active service c w.files _ (λ i. (h i, (write_active service c w.files).1));
  write_undone = λ service c w e h.
      ap (read_active service)
        (write_failed _ _ w.files _ e (λ i. (h i, (write_active service c w.files).1)));
  write_sha_running = λ service sha w name. refl;
  write_sha_color = λ service sha w. write_active_sha_frame service service sha w.files _ _ refl;
  write_sha_done = λ service sha w h.
      read-write_active_sha service sha w.files _
        (λ i. (h i, (write_active_sha service sha w.files).1));
}
