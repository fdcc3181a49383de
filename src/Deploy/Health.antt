-- ===== src/Deploy/Health.antt =====
-- crates/server/src/health.rs: the parameters of a check, and the loop of attempts.
pub mod Laws
use nudo.Prelude.{
  ℕ, zero, suc, ◌+◌, ◌-◌, ◌≤◌, ◌≡◌, refl, Bool, true, false, Option, none, some, min, if◌then◌else◌,
  ltb, leb, arith, ◌^◌, ◌<◌, Bool-cases, inl, inr, ◌↔◌,
}
use nudo.Systemd.Service.{HealthCheck}

pub record HealthParams : Type 0 where
  pub timeout : ℕ
  pub attempts : ℕ
  pub initial_delay : ℕ

-- `retries.saturating_add(1)` on a `u32`.
abbrev saturating_suc : ℕ → ℕ
saturating_suc n = min (n + 1) (2 ^ 32 - 1)

abbrev positive_or : ℕ → ℕ → ℕ
positive_or fallback t = if ltb 0 t then t else fallback

unfoldable pub from_proto : Option HealthCheck → HealthParams
from_proto none = record { timeout = 10; attempts = 3; initial_delay = 2 }
from_proto (some check) = record {
  timeout = min (positive_or 10 check.timeout_seconds) 600;
  attempts = min (saturating_suc check.retries) 100;
  initial_delay = min check.initial_delay_seconds 600;
}

pub data HealthOutcome : Type 0 where
  healthy : HealthOutcome
  unhealthy : (attempts : ℕ) → HealthOutcome

-- The attempts that are left, from the given one on; `probe` says which of them exit with zero.
unfoldable pub try_from : (ℕ → Bool) → ℕ → ℕ → Bool
try_from probe attempt zero = false
try_from probe attempt (suc left) =
    let rest = try_from probe (attempt + 1) left in if probe attempt then true else rest

unfoldable pub evaluate : (ℕ → Bool) → Option HealthCheck → HealthOutcome
evaluate probe check =
    let params = from_proto check in
    if try_from probe 1 params.attempts then healthy else unhealthy params.attempts
