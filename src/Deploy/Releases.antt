-- ===== src/Deploy/Releases.antt =====
-- crates/server/src/deploy/releases.rs: making a release live, the rollback after a failure, and
-- the removal of old releases.
pub mod Rules
pub mod Live
use nudo.Prelude.{
  ℕ, Bool, true, false, List, [], ◌∷◌, map, Option, none, some, Text, if◌then◌else◌, is_empty, ◌==◌,
  text_eq, not,
}
use nudo.Text.Trim.{trim}
use nudo.BootGuard.Dir.{Fault, fine, early, late}
use nudo.Systemd.Service.{Service}
use nudo.Systemd.Retention.{releases_to_prune}
use nudo.Deploy.World.{
  World, Host, Db, Env, DeploymentRow, ReleaseRow, Failure, put, first_release, foreign_release,
  not_on_target, Step, back_deployment, back_service, back_target, back_release, back_connect,
  back_probe, back_swap, back_reload, back_restart, back_commit, list_old,
}
use nudo.Deploy.Rows.{get_release, list_releases, mark_release_pruned, set_current_release}
use nudo.Deploy.Action.{
  Action, pure, bail, ◌>>=◌, ◌>>◌, modify, gets, perform, look, on_host, on_db, with_fault, ignore,
  require,
}

-- `get_service`, `get_target` and `get_release`.
abbrev pub service_row : Text → World → Option Service
service_row id w = elim w.db.service [ none ↦ none | some s ↦ if s.id == id then some s else none ]

abbrev pub target_row : World → Option (Unit {0})
target_row w = if w.db.has_target then some tt else none

abbrev pub release_row : Text → World → Option ReleaseRow
release_row id w = get_release id w.db

abbrev pub deployment_row : World → Option DeploymentRow
deployment_row w = w.db.deployment

-- The new link is made under another name and renamed over `current`.
abbrev pub link_to : Text → Host → Host
link_to id h = record h { current = some id }

-- What `current` names is started.
abbrev pub started : Host → Host
started h = record h { running = h.current }

-- `systemctl restart` that reports a failure: the service has stopped, or it has come up and only the
-- answer was lost.
abbrev pub cut_off : Env → Step → Host → Host
cut_off env s h = record h { running = if env.comes_up s then h.current else none }

-- `systemctl restart`: a command that does not get through changes nothing.
unfoldable pub systemctl_restart : Env → Step → Action (Unit {0})
systemctl_restart env s w = elim (env.fault s) [
  | fine ↦ with_fault fine s w (on_host started w)
  | early ↦ with_fault early s w w
  | late ↦ with_fault late s w (on_host (cut_off env s) w)
]

-- `test -x` on the binary of a release.
abbrev pub has_binary : Text → World → Bool
has_binary id w = elim (w.host.releases id) [ none ↦ false | some _ ↦ true ]

-- The release's row has been found to be this service's, and its target to be there.
unfoldable pub make_live : Env → Text → Text → Action (Unit {0})
make_live env service_id release_id = do
  perform env back_connect (λ w. w)
  perform env back_probe (λ w. w)
  exists ← gets (has_binary release_id)
  require exists not_on_target
  perform env back_swap (on_host (link_to release_id))
  perform env back_reload (λ w. w)
  systemctl_restart env back_restart
  perform env back_commit (on_db (set_current_release service_id release_id))

unfoldable pub activate_release : Env → Text → Text → Action (Unit {0})
activate_release env service_id release_id = do
  service ← look env back_service (service_row service_id)
  look env back_target target_row
  release ← look env back_release (release_row release_id)
  require (release.service_id == service_id) foreign_release
  make_live env service_id release_id

unfoldable pub rollback_after_failure : Env → Action (Unit {0})
rollback_after_failure env = do
  deployment ← look env back_deployment deployment_row
  require (not (is_empty (trim deployment.previous_release_id))) first_release
  activate_release env deployment.service_id deployment.previous_release_id

-- One release after the other, up to the first that fails.
abbrev pub remove_dir : Text → Host → Host
remove_dir id h = record h { releases = put id none h.releases }

unfoldable pub prune_all : Env → List Text → Action (Unit {0})
prune_all env [] = pure tt
prune_all env (id ∷ ids) = do
  (λ w. with_fault (env.remove id) list_old w (on_host (remove_dir id) w))
  (λ w. with_fault (env.mark id) list_old w (on_db (mark_release_pruned id) w))
  prune_all env ids

abbrev pub release_ids : Text → World → List Text
release_ids service_id w = map (λ r. r.id) (list_releases service_id w.db)

unfoldable pub prune_releases : Env → Service → Text → Action (Unit {0})
prune_releases env service current_release_id = do
  perform env list_old (λ w. w)
  ids ← gets (release_ids service.id)
  prune_all env (releases_to_prune ids service.keep_releases current_release_id)
