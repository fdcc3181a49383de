-- ===== src/Deploy/Rows.antt =====
-- crates/server/src/store/deployments.rs and `set_current_release` of crates/server/src/store/services.rs:
-- what the statements do to the rows. An `UPDATE` on a row that is not there changes nothing.
use nudo.Prelude.{
  ℕ, Bool, true, false, not, ◌&&◌, List, ◌∷◌, map, filter, find, Option, none, some, Text,
  if◌then◌else◌, ◌==◌, text_eq, is_empty,
}
use nudo.Text.Trim.{trim}
use nudo.Deploy.Status.{Status, is_terminal}
use nudo.Deploy.World.{DeploymentRow, ReleaseRow, Db, Failure}

abbrev pub update {ℓ} : {A : Type ℓ} → (A → A) → Option A → Option A
update f none = none
update f (some a) = some (f a)

abbrev pub on_deployment : (DeploymentRow → DeploymentRow) → Db → Db
on_deployment f db = record db { deployment = update f db.deployment }

-- A terminal status stamps the finish time as well.
unfoldable pub set_deployment_status : Status → ℕ → Db → Db
set_deployment_status status now = on_deployment λ row.
    if is_terminal status
    then record row { status = status; finished_at = some now }
    else record row { status = status }

unfoldable pub set_deployment_error : Failure → Db → Db
set_deployment_error error = on_deployment λ row. record row { error = some error }

unfoldable pub set_deployment_release : Text → Text → Db → Db
set_deployment_release id sha = on_deployment λ row. record row { release_id = id; git_sha = sha }

abbrev is_running : DeploymentRow → Bool
is_running row = elim row.finished_at [ none ↦ true | some _ ↦ false ]

-- The flag is set only while there is no finish time; the caller learns whether a row was changed.
unfoldable pub request_cancel : Db → Db × Bool
request_cancel db = elim db.deployment [
  | none ↦ (db, false)
  | some row ↦
      if is_running row
      then (record db { deployment = some (record row { cancel_requested = true }) }, true)
      else (db, false)
]

unfoldable pub cancel_requested : Db → Bool
cancel_requested db = elim db.deployment [ none ↦ false | some row ↦ row.cancel_requested ]

-- A new row is the newest. `new_id` is the fresh id for a release that comes without one.
unfoldable pub create_release : ReleaseRow → Text → Db → Db
create_release release new_id db = record db {
  releases =
      record release {
        id = if is_empty (trim release.id) then new_id else trim release.id;
        pruned = false;
      }
      ∷ db.releases;
}

unfoldable pub get_release : Text → Db → Option ReleaseRow
get_release id db = find (λ r. r.id == id) db.releases

unfoldable pub list_releases : Text → Db → List ReleaseRow
list_releases service_id db = filter (λ r. r.service_id == service_id && not r.pruned) db.releases

unfoldable pub mark_release_pruned : Text → Db → Db
mark_release_pruned id db = record db {
  releases = map (λ r. if r.id == id then record r { pruned = true } else r) db.releases;
}

unfoldable pub set_current_release : Text → Text → Db → Db
set_current_release service_id release_id db = record db {
  service =
      update (λ s. if s.id == service_id then record s { current_release_id = release_id } else s)
        db.service;
}
