-- ===== src/Tests/Units.antt =====
-- The files and names of one service.
use nudo.Prelude.{
  ℕ, ◌≡◌, refl, ◌≢◌, ◌↔◌, ◌≤◌, Bool, List, [], ◌∷◌, Option, none, some, Text, codes, arith, Elem,
  nat_eq,
}
use nudo.Systemd.Service.{Service, HealthCheck}
use nudo.Systemd.Retention.{releases_to_prune}
use nudo.Systemd.Retention.Prune.{Elem-releases_to_prune, Stands, IsBehind}
use nudo.Systemd.Escape.Laws.{render_env_file-inj}
use nudo.Deploy.Health.{from_proto}
use nudo.Deploy.Health.Laws.{from_proto-IsBounded}

abbrev service : Service
service = record {
  id = codes "svc";
  target_id = codes "tgt";
  name = codes "my bot!";
  release_root = codes "/opt/bot/";
  unit = none;
  env = [];
  secret_ids = [];
  artifact = none;
  health_check = none;
  keep_releases = 2;
  current_release_id = [];
}

abbrev ids : List Text
ids = codes "c" ∷ codes "b" ∷ codes "a" ∷ []

Elem-releases_to_prune_example : Elem (codes "a") (releases_to_prune ids 1 (codes "b")) ↔ (
    (codes "a" ≢ codes "b")
    × ((newer : List Text) × Stands (codes "a") newer ids × IsBehind 1 newer))
Elem-releases_to_prune_example = Elem-releases_to_prune ids 1 (codes "b") (codes "a")

-- A value that tries to begin another assignment.
abbrev entries : List (Text × Text)
entries = (codes "KEY", codes "a\"\nB=\"b") ∷ (codes "C", codes "\\n") ∷ []

render_env_file-inj_example : entries ≡ entries
render_env_file-inj_example =
    render_env_file-inj entries entries (ground arith, (ground arith, tt))
      (ground arith, (ground arith, tt)) refl

abbrev check : Option HealthCheck
check = some (record { kind = none; timeout_seconds = 0; retries = 4; initial_delay_seconds = 900 })

abbrev third : ℕ → Bool
third n = nat_eq n 3

from_proto-IsBounded_example :
    (1 ≤ (from_proto check).attempts)
    × ((from_proto check).attempts ≤ 100)
    × (1 ≤ (from_proto check).timeout)
    × ((from_proto check).timeout ≤ 600)
    × ((from_proto check).initial_delay ≤ 600)
from_proto-IsBounded_example = from_proto-IsBounded check
