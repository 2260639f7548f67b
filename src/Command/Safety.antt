-- ===== src/Command/Safety.antt =====
-- The commands keep the recorded container of a service running.
use codery.Base.{
  ℕ, ◌≡◌, refl, ap, ◌∙◌, inl, inr, Bool, true, false, some, List, if◌then◌else◌, Bool-cases, Text,
  codes, get_elem?, missing_argument, Result, ok, err, ok_or, Exec, pure, ◌>>=◌,
}
use codery.Base.Outcome.Triple.{after_query, after_known, after_bind, bind_within}
use codery.Command.{
  flag_value, locked, deploy_command, preview_under_lock, deploy_preview, drop_preview,
  cutover_under_lock, cutover_command, cancel_under_lock, cancel_preview, Locking, deploying,
  previewing, cutting_over, cancelling, perform, argument, refresh,
}
use codery.Config.{nginx_config, Color, container_name}
use codery.Db.{Tables, upsert_preview, delete_preview}
use codery.Deploy.Flow.Live.{Live}
use codery.Deploy.Flow.Safety.{
  Procedure, deploys, stages, cuts_over, cancels, after_procedure, after_procedure-Live,
}
use codery.Deploy.Real.{
  container_running, real_deps, real_inspection, load_definition, run_deploy, run_preview,
  run_promotion, run_cancel,
}
use codery.Deploy.Real.Laws.{
  nginx_config-IsApart, Idle, Idle-refl, Idle-trans, unchanged_file, query-Idle, apply_all-Idle,
  real-IsLawful,
}
use codery.Docker.{is_running, IsEngine}
use codery.Lock.{try_acquire}
use codery.Nginx.{reload_in, reload_for, reload_in_active_container, generate_and_reload}
use codery.ServiceDef.{ServiceDef}
use codery.World.{World, System, on_tables}

module _ {D : Type 0} (sys : System D) (law : IsEngine sys.engine) (service : Text) where
  -- The container of the recorded color of a service runs.
  abbrev Up : Text → World D → Type 0
  Up s w = Live (real_deps sys) s w

  Idle-Up : (s : Text) (u w : World D) → Idle sys law u w → Up s u → Up s w
  Idle-Up s u w i (c, h) = (
    c,
    record { color = i.color s ∙ h.color; running = i.running (container_name s c) ∙ h.running },
  )

  reload-Idle : (r : Result Color) (w : World D) → Idle sys law w (reload_for sys r w).1
  unfolding reload_for reload_in real_deps container_running
  reload-Idle (err e) w = Idle-refl sys law w
  reload-Idle (ok color) w =
      elim (Bool-cases (is_running sys.engine (container_name (codes "apps") color) w.docker)) [
        | inl e ↦ rw e (record {
          color = λ _. refl;
          sha = λ _. refl;
          running = λ name. ap (λ b. ok b) (law.run_exec_law _ name _ w.docker);
        })
        | inr e ↦ rw e (Idle-refl sys law w)
      ]

  nginx-Idle : (w : World D) → Idle sys law w (generate_and_reload sys w).1
  unfolding generate_and_reload reload_in_active_container
  nginx-Idle =
      bind_within (Idle sys law) (Idle-refl sys law) (Idle-trans sys law) _ _ (query-Idle sys law _)
        (λ routes.
          bind_within (Idle sys law) (Idle-refl sys law) (Idle-trans sys law) _ _
            (query-Idle sys law _)
            (λ domain.
              bind_within (Idle sys law) (Idle-refl sys law) (Idle-trans sys law) _ _
                (unchanged_file sys law nginx_config _ nginx_config-IsApart)
                (λ u w. reload-Idle _ w)))

  refresh-Idle : (w : World D) → Idle sys law w (refresh sys w).1
  unfolding refresh
  refresh-Idle =
      bind_within (Idle sys law) (Idle-refl sys law) (Idle-trans sys law) _ _
        (apply_all-Idle sys law) (λ u. nginx-Idle)

  on_tables-Idle : {A : Type 0} (m : Exec Tables A) (w : World D) → Idle sys law w (on_tables m w).1
  unfolding on_tables real_deps container_running
  on_tables-Idle m w = record { color = λ _. refl; sha = λ _. refl; running = λ _. refl }

  pure-Idle : (w : World D) → Idle sys law w (pure {A = Unit {0}} tt w).1
  unfolding ◌>>=◌
  pure-Idle w = Idle-refl sys law w

  drop_preview-Idle : (w : World D) → Idle sys law w (drop_preview sys service w).1
  unfolding drop_preview
  drop_preview-Idle =
      bind_within (Idle sys law) (Idle-refl sys law) (Idle-trans sys law) _ _
        (on_tables-Idle (delete_preview service)) (λ found. if_idle found)
    where
      if_idle : (b : Bool) (w : World D) → Idle sys law w ((if b then refresh sys else pure tt) w).1
      if_idle true w = refresh-Idle w
      if_idle false w = pure-Idle w

  -- Another set of locks changes nothing of it.
  held-Up : (s : Text) (w : World D) (held : List Text) → Up s w → Up s (record w { held = held })
  unfolding real_deps container_running
  held-Up s w held (c, h) = (c, record { color = h.color; running = h.running })

  locked-Up :
      {A : Type 0} (s : Text) (m : Exec (World D) A) (w : World D)
      → Up s w
      → ((held : List Text) → Up s (m (record w { held = held })).1)
      → Up s (locked sys service m w).1
  unfolding locked
  locked-Up s m w h k = by (try_acquire sys.is_alphanumeric sys.can_open service w.held).0 refl
    where
      by :
          (r : Result Text)
          → (try_acquire sys.is_alphanumeric sys.can_open service w.held).0 ≡ r
          → Up s (locked sys service m w).1
      by (ok path) e = rw (locked, e) (held-Up s _ _ (k _))
      by (err x) e = rw (locked, e) h

  module _ (def : ServiceDef) where
    -- The file of the service gives the definition.
    abbrev Loads : World D → Type 0
    Loads w = load_definition sys service w ≡ ok def

    procedure-Up :
        (p : Procedure) (w : World D)
        → Up def.service w
        → Up def.service (after_procedure (real_deps sys) (real_inspection sys) def p w)
    procedure-Up p w h =
        after_procedure-Live (real_deps sys) (real-IsLawful sys law) def (real_inspection sys) p w h

    held-Loads : (w : World D) (held : List Text) → Loads w → Loads (record w { held = held })
    unfolding load_definition
    held-Loads w held l = l

    run_deploy-Up :
        (sha : Text) (w : World D)
        → Loads w
        → Up def.service w
        → Up def.service (run_deploy sys service sha w).1
    unfolding run_deploy after_procedure
    run_deploy-Up sha w l h =
        after_known (Up def.service) _ _ w def l (procedure-Up (deploys sha) w h)

    preview-Up :
        (args : List Text) (sha : Text) (w : World D)
        → Loads w
        → Up def.service w
        → Up def.service (preview_under_lock sys args service sha w).1
    unfolding preview_under_lock run_preview after_procedure
    preview-Up args sha w l h = after_known (Up def.service) _ _ w def l (
        after_query (Up def.service) _ _ w h (λ port q.
          after_bind (Up def.service) _ _ w
            (after_known (Up def.service) _ _ w def l (procedure-Up (stages sha) w h))
            (λ inactive u k. after_query (Up def.service) _ _ u k (λ x r.
              after_bind (Up def.service) _ _ u
                (Idle-Up def.service u _ (on_tables-Idle (upsert_preview sys.now _) u) k)
                (λ y v. Idle-Up def.service v _ (refresh-Idle v))))))

    cutover-Up :
        (args : List Text) (w : World D)
        → Loads w
        → Up def.service w
        → Up def.service (cutover_under_lock sys args service w).1
    unfolding cutover_under_lock run_promotion after_procedure
    cutover-Up args w l h = after_query (Up def.service) _ _ w h (λ x r.
        after_query (Up def.service) _ _ w h (λ preview q.
          after_bind (Up def.service) _ _ w
            (after_known (Up def.service) _ _ w def l
              (procedure-Up (cuts_over (flag_value args (codes "--sha")) preview) w h))
            (λ y v. Idle-Up def.service v _ (drop_preview-Idle v))))

    cancel-Up :
        (w : World D)
        → Loads w
        → Up def.service w
        → Up def.service (cancel_under_lock sys service w).1
    unfolding cancel_under_lock run_cancel after_procedure
    cancel-Up w l h =
        after_bind (Up def.service) _ _ w
          (after_known (Up def.service) _ _ w def l (procedure-Up cancels w h))
          (λ y v k.
            after_query (Up def.service) _ _ v k
              (λ x r. Idle-Up def.service v _ (drop_preview-Idle v) k))

found : (args : List Text) (i : ℕ) (a : Text) → get_elem? args i ≡ some a → argument args i ≡ ok a
unfolding argument
found args i a h = ap (λ o. ok_or o missing_argument) h

-- Given that Docker treats containers apart from each other, and that the file of the service named
-- by the arguments gives a definition: if the container of the recorded color of this definition's
-- service runs, then after a `deploy`, `deploy-preview`, `cutover` or `cancel-preview`, whatever its
-- other arguments are and wherever it fails, the container of the color that is recorded then runs.
pub perform-Live :
    {D : Type 0} (sys : System D) (command : Locking) (args : List Text) (service : Text)
    (def : ServiceDef) (w : World D)
    → IsEngine sys.engine
    → get_elem? args 2 ≡ some service
    → load_definition sys service w ≡ ok def
    → Live (real_deps sys) def.service w
    → Live (real_deps sys) def.service (perform sys command args w).1
unfolding perform deploy_command deploy_preview cutover_command cancel_preview
perform-Live sys deploying args service def w law a l h =
    after_known (Live (real_deps sys) def.service) _ _ w service (found args 2 service a) (
      after_query (Live (real_deps sys) def.service) _ _ w h λ sha q.
        locked-Up sys law service def.service (run_deploy sys service sha) w h λ held.
          run_deploy-Up sys law service def sha _ (held-Loads sys law service def w held l)
            (held-Up sys law service def.service w held h))
perform-Live sys previewing args service def w law a l h =
    after_known (Live (real_deps sys) def.service) _ _ w service (found args 2 service a) (
      after_query (Live (real_deps sys) def.service) _ _ w h λ sha q.
        locked-Up sys law service def.service (preview_under_lock sys args service sha) w h λ held.
          preview-Up sys law service def args sha _ (held-Loads sys law service def w held l)
            (held-Up sys law service def.service w held h))
perform-Live sys cutting_over args service def w law a l h =
    after_known (Live (real_deps sys) def.service) _ _ w service (found args 2 service a) (
      locked-Up sys law service def.service (cutover_under_lock sys args service) w h λ held.
        cutover-Up sys law service def args _ (held-Loads sys law service def w held l)
          (held-Up sys law service def.service w held h))
perform-Live sys cancelling args service def w law a l h =
    after_known (Live (real_deps sys) def.service) _ _ w service (found args 2 service a) (
      locked-Up sys law service def.service (cancel_under_lock sys service) w h λ held.
        cancel-Up sys law service def _ (held-Loads sys law service def w held l)
          (held-Up sys law service def.service w held h))
