-- ===== src/Deploy/Real/Isolation.antt =====
-- Which containers the requests of a deploy touch.
use Prim.Native.Char.{code}
use codery.Base.{
  ℕ, zero, suc, ◌*◌, ◌≡◌, refl, ap, ◌∙◌, ◌≢◌, inl, inr, Bool, true, false, Option, List, [], ◌∷◌,
  eqb, if◌then◌else◌, Bool-cases, Option-cases, Text, Error, health_timeout, Result, Exec, pure,
  fail, query, ◌>>=◌,
}
use codery.Base.Outcome.Triple.{bind_within}
use codery.Config.{Color, container_name}
use codery.Deploy.Container.{
  remove_container_if_exists, stop_container, ensure_network, create_and_start,
}
use codery.Deploy.Health.{
  health_verdict, tcp_loop, wait_for_tcp_in_container, wait_for_docker_healthy, check_by,
  becomes_healthy, poll_health, health_check,
}
use codery.Docker.{
  Reply, answer, server_error, other_error, ContainerConfig, Engine, settle, is_running, IsEngine,
}
use codery.Images.{ImageSummary, prunable}
use codery.Images.Pull.{pull, pull_if_missing, remove_images, prune}
use codery.Relay.{seconds}
use codery.ServiceDef.{HealthCheck, tcp_check, docker_check, ServiceDef}
use codery.Validate.Run.{ensure_named_volume}

settle-state : {D : Type 0} (fine : ℕ → Bool) (o : Reply (Unit {0}) × D) → (settle fine o).1 ≡ o.1
unfolding settle
settle-state fine (answer u, d) = refl
settle-state fine (server_error code, d) = refl
settle-state fine (other_error, d) = refl

module _ {D : Type 0} (eng : Engine D) where
  -- The containers of some names run at the end exactly if they ran before.
  abbrev pub Spares : (Text → Type 0) → D → D → Type 0
  Spares P d after = (other : Text) → P other → is_running eng other after ≡ is_running eng other d

  abbrev pub IsSparing : {A : Type 0} → (Text → Type 0) → Exec D A → Type 0
  IsSparing P m = (d : D) → Spares P d (m d).1

  -- All containers, and all but one.
  abbrev pub Every : Text → Type 0
  Every other = Unit

  abbrev pub Beside : Text → Text → Type 0
  Beside name other = other ≢ name

  module _ (P : Text → Type 0) where
    pub bind-IsSparing :
        {A B : Type 0} (m : Exec D A) (f : A → Exec D B)
        → IsSparing P m
        → ((a : A) → IsSparing P (f a))
        → IsSparing P (m >>= f)
    bind-IsSparing =
        bind_within (Spares P) (λ d other p. refl) (λ d e f k l other p. l other p ∙ k other p)

    pub if-IsSparing :
        {A : Type 0} (b : Bool) (m n : Exec D A)
        → IsSparing P m
        → IsSparing P n
        → IsSparing P (if b then m else n)
    if-IsSparing true m n k l = k
    if-IsSparing false m n k l = l

    pub query-IsSparing : {A : Type 0} (f : D → Result A) → IsSparing P (query f)
    unfolding ◌>>=◌
    query-IsSparing f d other p = refl

    pub pure-IsSparing : {A : Type 0} (a : A) → IsSparing P (pure a)
    unfolding ◌>>=◌
    pure-IsSparing a d other p = refl

    pub fail-IsSparing : (A : Type 0) (e : Error) → IsSparing P (fail {A = A} e)
    unfolding ◌>>=◌
    fail-IsSparing A e d other p = refl

    pub settle-IsSparing :
        (fine : ℕ → Bool) (m : D → Reply (Unit {0}) × D)
        → ((d : D) → Spares P d (m d).1)
        → IsSparing P (λ d. settle fine (m d))
    settle-IsSparing fine m k d other p =
        ap (is_running eng other) (settle-state fine (m d)) ∙ k d other p

module _ {D : Type 0} (eng : Engine D) (law : IsEngine eng) where
  pub remove-IsSparing :
      (name : Text) → IsSparing eng (Beside eng name) (remove_container_if_exists eng name)
  unfolding remove_container_if_exists
  remove-IsSparing name =
      settle-IsSparing eng (Beside eng name) _ _ (λ d other ne. law.remove_law name other d ne)

  pub stop-IsSparing : (name : Text) → IsSparing eng (Beside eng name) (stop_container eng name)
  unfolding stop_container
  stop-IsSparing name =
      settle-IsSparing eng (Beside eng name) _ _ (λ d other ne. law.stop_law name other d ne)

  pub network-IsSparing : (network : Text) → IsSparing eng (Every eng) (ensure_network eng network)
  unfolding ensure_network
  network-IsSparing network =
      settle-IsSparing eng (Every eng) _ _ (λ d other u. law.network_law network other d)

  pub create-IsSparing :
      (name : Text) (config : ContainerConfig)
      → IsSparing eng (Beside eng name) (create_and_start eng name config)
  unfolding create_and_start
  create-IsSparing name config =
      bind-IsSparing eng (Beside eng name) _ _
        (settle-IsSparing eng (Beside eng name) _ _
          (λ d other ne. law.create_law name other config d ne))
        (λ a.
          settle-IsSparing eng (Beside eng name) _ _ (λ d other ne. law.start_law name other d ne))

  -- Waiting for a container leaves the others alone.
  pub tcp_loop-Spares :
      (n : ℕ) (name command : Text) (interval : ℕ) (d : D)
      → Spares eng (Beside eng name) d (tcp_loop eng n name command interval d).1
  unfolding tcp_loop
  tcp_loop-Spares zero name command interval d other ne = refl
  tcp_loop-Spares (suc n) name command interval d other ne =
      elim (Bool-cases (eng.exec_bash name command d).0) [
        | inl e ↦ rw (tcp_loop, e) (law.exec_law name other command d)
        | inr e ↦
            rw (tcp_loop, e)
              (tcp_loop-Spares n name command interval _ other ne
                ∙ law.sleep_law (interval * 1000) other _
                ∙ law.exec_law name other command d)
      ]

  pub wait-IsSparing :
      (name : Text) (n : ℕ) → IsSparing eng (Every eng) (wait_for_docker_healthy eng name n)
  unfolding wait_for_docker_healthy
  wait-IsSparing name zero d other u = refl
  wait-IsSparing name (suc n) d other u =
      elim (Option-cases (health_verdict (eng.inspect_container name d))) [
        | inl e ↦
            rw (wait_for_docker_healthy, e)
              (wait-IsSparing name n _ other u ∙ law.sleep_law 1000 other d)
        | inr (r, e) ↦ rw (wait_for_docker_healthy, e) refl
      ]

  weaken :
      {A : Type 0} (P : Text → Type 0) (m : Exec D A)
      → IsSparing eng (Every eng) m
      → IsSparing eng P m
  weaken P m k d other p = k d other tt

  check_by-IsSparing :
      (r : Result ℕ) (name : Text) (h : HealthCheck)
      → IsSparing eng (Beside eng name) (check_by eng r name h)
  unfolding check_by wait_for_tcp_in_container
  check_by-IsSparing r name (tcp_check port seconds interval) =
      bind-IsSparing eng (Beside eng name) _ _ (query-IsSparing eng (Beside eng name) _)
        (λ a d. tcp_loop-Spares _ name _ interval d)
  check_by-IsSparing r name (docker_check seconds) =
      weaken (Beside eng name) (wait_for_docker_healthy eng name seconds)
        (wait-IsSparing name seconds)

  pub health-IsSparing :
      (def : ServiceDef) (color : Color)
      → IsSparing eng (Beside eng (container_name def.service color)) (health_check eng def color)
  unfolding health_check becomes_healthy
  health-IsSparing def color =
      bind-IsSparing eng (Beside eng _) _ _ (check_by-IsSparing _ _ def.health_check) (λ good.
        if-IsSparing eng (Beside eng _) good _ _ (pure-IsSparing eng (Beside eng _) tt) (
          bind-IsSparing eng (Beside eng _) _ _ (remove-IsSparing _)
            (λ a. fail-IsSparing eng (Beside eng _) _ health_timeout)))

  pub poll-IsSparing :
      (def : ServiceDef) (color : Color)
      → IsSparing eng (Beside eng (container_name def.service color)) (poll_health eng def color)
  unfolding poll_health becomes_healthy
  poll-IsSparing def color =
      bind-IsSparing eng (Beside eng _) _ _ (check_by-IsSparing _ _ def.health_check) (λ good.
        if-IsSparing eng (Beside eng _) good _ _ (pure-IsSparing eng (Beside eng _) tt)
          (fail-IsSparing eng (Beside eng _) _ health_timeout))

  remove_images-Spares :
      (is : List ImageSummary) (d : D) → Spares eng (Every eng) d (remove_images eng is d)
  unfolding remove_images
  remove_images-Spares [] d other u = refl
  remove_images-Spares (i ∷ is) d other u =
      remove_images-Spares is _ other u ∙ law.remove_image_law i.id other d

  pub prune-IsSparing : (service : Text) → IsSparing eng (Every eng) (prune eng service)
  unfolding prune
  prune-IsSparing service =
      bind-IsSparing eng (Every eng) _ _ (query-IsSparing eng (Every eng) _)
        (λ images d. remove_images-Spares (prunable images) d)

  pub pull-IsSparing :
      (env : Option Text) (image : Text) → IsSparing eng (Every eng) (pull_if_missing eng env image)
  unfolding pull_if_missing pull
  pull-IsSparing env image =
      bind-IsSparing eng (Every eng) _ _ (query-IsSparing eng (Every eng) _) (λ present.
        if-IsSparing eng (Every eng) present _ _ (pure-IsSparing eng (Every eng) tt)
          (λ d other u. law.pull_law image other _ d))

  pub ensure_volume-IsSparing :
      (name : Text) → IsSparing eng (Every eng) (ensure_named_volume eng name)
  unfolding ensure_named_volume
  ensure_volume-IsSparing name d other u = by (eng.inspect_volume name d) refl
    where
      by :
          (r : Reply (Unit {0}))
          → eng.inspect_volume name d ≡ r
          → is_running eng other (ensure_named_volume eng name d).1 ≡ is_running eng other d
      by (answer v) e = rw (ensure_named_volume, e) refl
      by (server_error code) e = elim (Bool-cases (eqb code 404)) [
        | inl g ↦ rw (ensure_named_volume, e, g) (law.volume_law name other d)
        | inr g ↦ rw (ensure_named_volume, e, g) refl
      ]
      by other_error e = rw (ensure_named_volume, e) refl
