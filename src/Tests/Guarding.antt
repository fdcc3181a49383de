-- ===== src/Tests/Guarding.antt =====
-- An upgrade that never confirms, from its journal on.
use nudo.Prelude.{[], ◌∷◌, ◌≡◌, refl, ◌⊎◌, [], none, some, codes, arith}
use nudo.Text.Split.{strip_cr}
use nudo.BootGuard.Journal.{Journal, swapped, one_line}
use nudo.BootGuard.Journal.RoundTrip.{IsWritable}
use nudo.BootGuard.Dir.{Dir, fine, store, read_attempts, load-store}
use nudo.BootGuard.Guard.{guard}
use nudo.BootGuard.Guard.Laws.{IsDue, guard-IsCautious}
use nudo.BootGuard.Guard.Boots.{working, boots, IsPending, IsReverted, boots-IsReverted}

abbrev upgrade : Journal
upgrade = record {
  state = swapped;
  from_version = codes "1.0.0";
  to_version = codes "1.1.0";
  previous = codes "releases/1.0.0";
  target = codes "releases/1.1.0";
  updated_at = 5;
  error = [];
}

upgrade-IsWritable : IsWritable upgrade
unfolding strip_cr
upgrade-IsWritable = record {
  from_version = ground arith;
  to_version = ground arith;
  previous = ground arith;
  target = ground arith;
  updated_at = omega arith;
}

abbrev empty : Dir
empty = record { journal = none; attempts = none; current = some (codes "releases/1.1.0") }

abbrev begun : Dir
begun = (store upgrade fine empty).0

begun-IsPending : IsPending upgrade 0 (some (codes "releases/1.1.0")) begun
unfolding store read_attempts one_line
begun-IsPending = record {
  loaded = load-store upgrade empty upgrade-IsWritable;
  in_flight = refl;
  counted = refl;
  linked = refl;
}

boots-IsReverted_example :
    ((boots (working 7 ∷ working 8 ∷ []) begun).current ≡ some (codes "releases/1.1.0"))
    × IsReverted upgrade (boots (working 7 ∷ working 8 ∷ working 9 ∷ []) begun)
boots-IsReverted_example =
    boots-IsReverted upgrade (working 7) (working 8) (working 9) begun
      (some (codes "releases/1.1.0")) upgrade-IsWritable refl refl refl (omega arith)
      begun-IsPending

guard-IsCautious_example :
    ((guard (working 9) begun).current ≡ begun.current)
    ⊎ ((j : Journal) × IsDue (working 9) begun j
        × ((guard (working 9) begun).current ≡ some j.previous))
guard-IsCautious_example = guard-IsCautious (working 9) begun
