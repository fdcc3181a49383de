-- ===== src/Deploy/Execution/Keeps.antt =====
-- What no step of a deployment before its verdict touches: a predicate that changes of the host, of
-- the rows and the announcement of a status keep is kept by `try_deploy` up to its end, and by the
-- rollback.
use nudo.Prelude.{
  Bool, not, Option, none, some, Text, Bool-cases, Option-cases, inl, inr, is_empty, text_eq,
}
use nudo.Text.Trim.{trim}
use nudo.Systemd.Service.{Service, ArtifactSource, from_url, from_git, direct_upload}
use nudo.Deploy.Status.{Status, uploading, activating, health_checking, building}
use nudo.Deploy.World.{World, Host, Db, Env, Artifact, Event, status_event, Failure, Step, Check}
use nudo.Deploy.World as World
use nudo.Deploy.Rows.{mark_release_pruned}
use nudo.Deploy.Action.{Action, ◌>>=◌, on_host, on_db, when, perform, look, require}
use nudo.Deploy.Action.Triple.{
  Triple, Triple-bind, Triple-pure, Triple-bail, Triple-modify, Triple-perform, Triple-ignore,
  Triple-when, Triple-gets, Triple-require, Triple-look,
}
use nudo.Deploy.Lifecycle.{check_cancelled, transition, publish}
use nudo.Deploy.Lifecycle.Rules.{Triple-check_cancelled, Triple-transition}
use nudo.Deploy.Artifact.{
  DeployOptions, obtain_artifact, artifact_of_service, fetched, download_artifact, uploaded,
}
use nudo.Deploy.Releases.{
  remove_dir, systemctl_restart, rollback_after_failure, activate_release, make_live,
}
use nudo.Deploy.Releases.Rules.{Triple-restart, Triple-prune_releases}
use nudo.Deploy.Execution.{ship, configure, activate, verify, commit_release}

pub record IsStable (P : World → Type 0) : Type 0 where
  pub host_keeps : (f : Host → Host) (w : World) → P w → P (on_host f w)
  pub db_keeps : (f : Db → Db) (w : World) → P w → P (on_db f w)
  pub status_keeps : (s : Status) (w : World) → P w → P (publish (status_event s) w)

abbrev pub Keeps : {A : Type 0} → (World → Type 0) → Action A → Type 0
Keeps P m = Triple P m (λ _. P) P

module _ {P : World → Type 0} where
  infixr 5 ◌then_keeps◌
  ◌then_keeps◌ :
      {A B : Type 0} {m : Action A} {f : A → Action B}
      → Keeps P m
      → ((a : A) → Keeps P (f a))
      → Keeps P (m >>= f)
  km then_keeps kf = Triple-bind {Q = λ _. P} km kf

  keep_perform :
      (env : Env) (s : Step) (effect : World → World)
      → ((w : World) → P w → P (effect w))
      → Triple P (perform env s effect) (λ _. P) P
  keep_perform env s effect h = Triple-perform env s (λ w p. p) h h

  keep_look :
      {A : Type 0} (env : Env) (s : Step) (f : World → Option A)
      → Triple P (look env s f) (λ _. P) P
  keep_look env s f = Triple-look env s (λ w p. p) λ w a e p. p

  keep_require : (b : Bool) (e : Failure) → Triple P (require b e) (λ _. P) P
  keep_require b e = Triple-require e (λ _ w p. p) λ _ w p. p

  keep_when :
      (b : Bool) {m : Action (Unit {0})} → Triple P m (λ _. P) P → Triple P (when b m) (λ _. P) P
  keep_when b k = Triple-when (λ _. k) λ _ w p. p

module _ (env : Env) {P : World → Type 0} (st : IsStable P) where
  keep_check : (check : Check) → Keeps P (check_cancelled env check)
  keep_check check = Triple-check_cancelled env check (st.db_keeps _) (λ w p. p)

  keep_transition : (s : Status) → Keeps P (transition env s)
  keep_transition s = Triple-transition env s (st.db_keeps _) (st.status_keeps s)

  on_host_keeps : (s : Step) (f : Host → Host) → Triple P (perform env s (on_host f)) (λ _. P) P
  on_host_keeps s f = keep_perform env s _ (st.host_keeps f)

  on_db_keeps : (s : Step) (f : Db → Db) → Triple P (perform env s (on_db f)) (λ _. P) P
  on_db_keeps s f = keep_perform env s _ (st.db_keeps f)

  keep_fetched : (o : Option Artifact) → Keeps P (fetched o)
  keep_fetched none = Triple-bail (λ w p. p)
  keep_fetched (some a) = Triple-pure (λ w p. p)

  keep_source :
      (o : Option ArtifactSource) (git_ref : Text) → Keeps P (artifact_of_service env o git_ref)
  unfolding artifact_of_service
  keep_source (some (from_url url)) git_ref = elim (Bool-cases (not (is_empty (trim url)))) [
    | inl e ↦ simp e (keep_fetched (download_artifact env (trim url)))
    | inr e ↦ simp e (Triple-bail (λ w p. p))
  ]
  keep_source (some (from_git source)) git_ref =
      keep_transition building then_keeps λ _. keep_fetched (env.build source git_ref)
  keep_source (some (direct_upload _)) git_ref = Triple-bail (λ w p. p)
  keep_source none git_ref = Triple-bail (λ w p. p)

  pub Keeps-obtain_artifact :
      (service : Service) (options : DeployOptions) → Keeps P (obtain_artifact env service options)
  unfolding obtain_artifact
  Keeps-obtain_artifact service options =
      elim (Bool-cases (not (is_empty (trim options.artifact_url)))) [
        | inl e ↦ simp e (keep_fetched (download_artifact env (trim options.artifact_url)))
        | inr e ↦ elim (Option-cases options.uploaded_artifact) [
          | inl none_up ↦ simp (e, none_up) (keep_source service.artifact options.git_ref)
          | inr (path, some_up) ↦ simp (e, some_up) (keep_fetched (uploaded (env.read_file path)))
        ]
      ]

  pub Keeps-ship : (service : Service) (artifact : Artifact) → Keeps P (ship env service artifact)
  unfolding ship
  Keeps-ship service artifact = keep_check World.before_connect then_keeps λ _.
      keep_transition uploading then_keeps λ _.
      keep_perform env World.connect _ (λ w p. p) then_keeps λ _.
      on_host_keeps World.prepare _ then_keeps λ _. Triple-modify (st.host_keeps _) then_keeps λ _.
      on_host_keeps World.upload _ then_keeps λ _. on_host_keeps World.place _ then_keeps λ _.
      on_db_keeps World.record_release _ then_keeps λ _. on_db_keeps World.bind_release _

  pub Keeps-configure : (service : Service) → Keeps P (configure env service)
  unfolding configure
  Keeps-configure service = keep_check World.before_secrets then_keeps λ _.
      keep_when _ (
        keep_perform env World.resolve_secrets _ (λ w p. p) then_keeps λ _.
        on_host_keeps World.write_env _ then_keeps λ _.
        keep_when _ (keep_perform env World.chown_env _ (λ w p. p)))
      then_keeps λ _. on_host_keeps World.write_unit _

  keep_restart : (s : Step) → Keeps P (systemctl_restart env s)
  keep_restart s = Triple-restart env s (λ w p. p) (st.host_keeps _) (st.host_keeps _)

  pub Keeps-activate : Keeps P (activate env)
  unfolding activate
  Keeps-activate = keep_check World.before_activate then_keeps λ _.
      keep_transition activating then_keeps λ _. on_host_keeps World.swap _ then_keeps λ _.
      keep_perform env World.daemon_reload _ (λ w p. p) then_keeps λ _.
      on_host_keeps World.enable _ then_keeps λ _. keep_restart World.restart

  pub Keeps-verify : (service : Service) (skip : Bool) → Keeps P (verify env service skip)
  unfolding verify
  Keeps-verify service skip = keep_when _ (
      keep_check World.before_health then_keeps λ _.
      keep_transition health_checking then_keeps λ _. keep_require _ World.unhealthy)

  pub Keeps-commit_release : (service : Service) → Keeps P (commit_release env service)
  unfolding commit_release
  Keeps-commit_release service = on_db_keeps World.commit _ then_keeps λ _. Triple-ignore (
      Triple-prune_releases env service env.new_release_id
        (λ id w ne. st.host_keeps (remove_dir id) w) λ id w. st.db_keeps (mark_release_pruned id) w)

  pub Keeps-rollback_after_failure : Keeps P (rollback_after_failure env)
  unfolding rollback_after_failure activate_release make_live
  Keeps-rollback_after_failure = keep_look env World.back_deployment _ then_keeps λ row.
      keep_require _ World.first_release then_keeps λ _.
      keep_look env World.back_service _ then_keeps λ _.
      keep_look env World.back_target _ then_keeps λ _.
      keep_look env World.back_release _ then_keeps λ _.
      keep_require _ World.foreign_release then_keeps λ _.
      keep_perform env World.back_connect _ (λ w p. p) then_keeps λ _.
      keep_perform env World.back_probe _ (λ w p. p) then_keeps λ _.
      Triple-gets {Q = λ _. P} (λ w p. p) then_keeps λ _.
      keep_require _ World.not_on_target then_keeps λ _.
      on_host_keeps World.back_swap _ then_keeps λ _.
      keep_perform env World.back_reload _ (λ w p. p) then_keeps λ _.
      keep_restart World.back_restart then_keeps λ _. on_db_keeps World.back_commit _
