-- ===== src/Systemd/Service.antt =====
-- The messages of controlplane.proto that a unit is rendered from. A map is the list of its entries.
use nudo.Prelude.{ℕ, List, Text, Option, none, some, [], Bool}

pub record SystemdUnit : Type 0 where
  pub unit_name : Text
  pub description : Text
  pub after : List Text
  pub exec_args : Text
  pub working_directory : Text
  pub user : Text
  pub group : Text
  pub restart : Text
  pub restart_sec : ℕ
  pub cpu_affinity : Text
  pub nice : Text
  pub io_scheduling_class : Text
  pub extra_directives : List (Text × Text)

-- The text fields of `GitSource` that a build is given.
pub record GitSource : Type 0 where
  pub source_id : Text
  pub repo : Text
  pub branch : Text
  pub build_command : Text
  pub artifact_path : Text

pub data ArtifactSource : Type 0 where
  from_url : Text → ArtifactSource
  from_git : GitSource → ArtifactSource
  direct_upload : Bool → ArtifactSource

pub data HealthKind : Type 0 where
  http_url command : Text → HealthKind
  systemd_active : Bool → HealthKind

pub record HealthCheck : Type 0 where
  pub kind : Option HealthKind
  pub timeout_seconds : ℕ
  pub retries : ℕ
  pub initial_delay_seconds : ℕ

pub record Service : Type 0 where
  pub id : Text
  pub target_id : Text
  pub name : Text
  pub release_root : Text
  pub unit : Option SystemdUnit
  pub env : List (Text × Text)
  pub secret_ids : List Text
  pub artifact : Option ArtifactSource
  pub health_check : Option HealthCheck
  pub keep_releases : ℕ
  pub current_release_id : Text

abbrev pub default_unit : SystemdUnit
default_unit = record {
  unit_name = [];
  description = [];
  after = [];
  exec_args = [];
  working_directory = [];
  user = [];
  group = [];
  restart = [];
  restart_sec = 0;
  cpu_affinity = [];
  nice = [];
  io_scheduling_class = [];
  extra_directives = [];
}

-- `service.unit.clone().unwrap_or_default()`
abbrev pub unit_of : Option SystemdUnit → SystemdUnit
unit_of none = default_unit
unit_of (some u) = u
