-- ===== src/Deploy/Health/Laws.antt =====
-- How often a check is tried, and what the verdict means.
use nudo.Prelude.{
  ℕ, zero, suc, ◌+◌, ◌≤◌, ◌<◌, ◌≡◌, refl, Bool, true, false, Option, none, some, arith, Bool-cases,
  inl, inr, ◌↔◌,
}
use nudo.Systemd.Service.{HealthCheck}
use nudo.Deploy.Health.{from_proto, healthy, try_from, evaluate}

-- Between one and a hundred attempts, a timeout between one second and ten minutes, and an initial
-- delay of ten minutes at most, whatever values a check comes with.
pub from_proto-IsBounded :
    (check : Option HealthCheck)
    → (1 ≤ (from_proto check).attempts)
      × ((from_proto check).attempts ≤ 100)
      × (1 ≤ (from_proto check).timeout)
      × ((from_proto check).timeout ≤ 600)
      × ((from_proto check).initial_delay ≤ 600)
unfolding from_proto
from_proto-IsBounded none = ground arith
from_proto-IsBounded (some check) = ground arith

try_from-true :
    (probe : ℕ → Bool) (n left : ℕ)
    → try_from probe n left ≡ true
    → (k : ℕ) × (n ≤ k) × (k < n + left) × (probe k ≡ true)
unfolding try_from
try_from-true probe n zero h = ground arith
try_from-true probe n (suc left) h = elim (Bool-cases (probe n)) [
  | inl e ↦ (n, ground arith, ground arith, e)
  | inr e ↦
      let (k, lower, upper, works) = try_from-true probe (n + 1) left (ground arith) in
      (k, ground arith, ground arith, works)
]

try_from-false :
    (probe : ℕ → Bool) (n left k : ℕ)
    → try_from probe n left ≡ false
    → n ≤ k
    → k < n + left
    → probe k ≡ false
unfolding try_from
try_from-false probe n zero k h lower upper = ground arith
try_from-false probe n (suc left) k h lower upper =
    ground (arith, try_from-false probe (n + 1) left k)

-- A check is healthy exactly if one of the attempts that its parameters allow, numbered from one,
-- succeeds.
pub evaluate-healthy :
    (probe : ℕ → Bool) (check : Option HealthCheck)
    → (evaluate probe check ≡ healthy)
      ↔ ((k : ℕ) × (1 ≤ k) × (k ≤ (from_proto check).attempts) × (probe k ≡ true))
unfolding evaluate
evaluate-healthy probe check = (
  λ h.
      let (k, lower, upper, works) =
        try_from-true probe 1 (from_proto check).attempts (ground arith) in
      (k, lower, ground arith, works),
  λ (k, lower, upper, works). elim (Bool-cases (try_from probe 1 (from_proto check).attempts)) [
    | inl e ↦ rw e refl
    | inr e ↦
        let fails = try_from-false probe 1 (from_proto check).attempts k e lower (ground arith) in
        absurd (ground arith)
  ],
)
