-- ===== src/Deploy/Execution/Fetch.antt =====
-- Whatever the artifact comes from, obtaining it keeps the host as it was.
use nudo.Prelude.{
  not, Option, none, some, Text, Bool-cases, inl, inr, text_eq, is_empty, Option-cases,
}
use nudo.Text.Trim.{trim}
use nudo.Systemd.Service.{Service, ArtifactSource, from_url, from_git, direct_upload}
use nudo.Deploy.Status.{building}
use nudo.Deploy.World.{Env, Artifact}
use nudo.Deploy.Rows.{set_deployment_status}
use nudo.Deploy.Action.Triple.{Triple, Triple-bind, Triple-pure, Triple-bail}
use nudo.Deploy.Lifecycle.Rules.{Triple-transition}
use nudo.Deploy.Artifact.{
  DeployOptions, obtain_artifact, artifact_of_service, fetched, download_artifact, uploaded,
}
use nudo.Deploy.Execution.Phases.{Stopped, Ready}

module _ (env : Env) (link started_before : Option Text) (kept : Text → Option Text) where
  module _ (service : Service) where
    Triple-fetched :
        (o : Option Artifact)
        → Triple
            (Ready env link started_before kept service)
            (fetched o)
            (λ _. Ready env link started_before kept service)
            (Stopped env link started_before kept)
    Triple-fetched none = Triple-bail λ w h. inl h.0
    Triple-fetched (some a) = Triple-pure λ w h. h

    Triple-artifact_of_service :
        (o : Option ArtifactSource) (git_ref : Text)
        → Triple
            (Ready env link started_before kept service)
            (artifact_of_service env o git_ref)
            (λ _. Ready env link started_before kept service)
            (Stopped env link started_before kept)
    unfolding artifact_of_service set_deployment_status
    Triple-artifact_of_service (some (from_url url)) git_ref =
        elim (Bool-cases (not (is_empty (trim url)))) [
          | inl e ↦ simp e (Triple-fetched (download_artifact env (trim url)))
          | inr e ↦ simp e (Triple-bail λ w h. inl h.0)
        ]
    Triple-artifact_of_service (some (from_git source)) git_ref =
        Triple-bind {Q = λ _. Ready env link started_before kept service}
          (Triple-transition env building (λ w h. h) λ w h. h)
          λ _. Triple-fetched (env.build source git_ref)
    Triple-artifact_of_service (some (direct_upload _)) git_ref = Triple-bail λ w h. inl h.0
    Triple-artifact_of_service none git_ref = Triple-bail λ w h. inl h.0

    pub Triple-obtain_artifact :
        (options : DeployOptions)
        → Triple
            (Ready env link started_before kept service)
            (obtain_artifact env service options)
            (λ _. Ready env link started_before kept service)
            (Stopped env link started_before kept)
    unfolding obtain_artifact
    Triple-obtain_artifact options =
        elim (Bool-cases (not (is_empty (trim options.artifact_url)))) [
          | inl e ↦ simp e (Triple-fetched (download_artifact env (trim options.artifact_url)))
          | inr e ↦ elim (Option-cases options.uploaded_artifact) [
            | inl none_up ↦
                simp (e, none_up) (Triple-artifact_of_service service.artifact options.git_ref)
            | inr (path, some_up) ↦
                simp (e, some_up) (Triple-fetched (uploaded (env.read_file path)))
          ]
        ]
