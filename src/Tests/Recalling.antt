-- ===== src/Tests/Recalling.antt =====
-- A rollback of the service of the deployments, to the release before the one that is live.
use nudo.Prelude.{[], ◌∷◌, refl, false, Option, some, Text, text_beq, true, none}
use nudo.BootGuard.Dir.{fine}
use nudo.Systemd.Service.{Service}
use nudo.Deploy.World.{World}
use nudo.Deploy.Recall.{Writes, rollback}
use nudo.Deploy.Recall.Laws.{Means, rollback-Means}
use nudo.Tests.Deployment.{old, fresh, service, old_release, start, smooth}

abbrev upgraded : Service
upgraded = record service { current_release_id = fresh }

abbrev both_files : Text → Option Text
both_files x = elim (text_beq x fresh) [
  | true ↦ some (b'2' ∷ [])
  | false ↦ elim (text_beq x old) [ true ↦ some (b'1' ∷ []) | false ↦ none ]
]

abbrev after_upgrade : World
after_upgrade = record start {
  host = record start.host { releases = both_files; current = some fresh; running = some fresh };
  db = record start.db {
    service = some upgraded;
    releases = record old_release { id = fresh } ∷ old_release ∷ [];
  };
}

abbrev smooth_writes : Writes
smooth_writes = record { creates = fine; binds = fine; notes = fine }

rollback-Means_example :
    Means after_upgrade upgraded
      (rollback smooth smooth_writes (some false) [] upgraded after_upgrade)
unfolding text_beq
rollback-Means_example =
    rollback-Means smooth smooth_writes upgraded after_upgrade (b'2' ∷ [], refl) (some false) []
