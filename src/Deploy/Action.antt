-- ===== src/Deploy/Action.antt =====
-- Actions on the world that may fail; what was done before a failure stays done. A step reports one of
-- three outcomes: it worked, it failed before it did anything, or it failed after its effect.
pub mod Triple
use nudo.Prelude.{
  ◌≡◌, refl, Bool, true, false, Option, none, some, Result, ok, err, if◌then◌else◌, arith,
}
use nudo.BootGuard.Dir.{Fault, fine, early, late}
use nudo.Deploy.World.{World, Db, Host, Env, Step, Failure, step_failed, missing}

abbrev pub Action : Type 0 → Type 0
Action A = World → World × Result Failure A

abbrev pub pure : {A : Type 0} → A → Action A
pure a w = (w, ok a)

abbrev pub bail : {A : Type 0} → Failure → Action A
bail e w = (w, err e)

abbrev pub continue :
    {A B : Type 0} → World × Result Failure A → (A → Action B) → World × Result Failure B
continue (w, ok a) f = f a w
continue (w, err e) f = (w, err e)

infixl 5 ◌>>=◌ ◌>>◌
unfoldable pub ◌>>=◌ : {A B : Type 0} → Action A → (A → Action B) → Action B
◌>>=◌ m f w = continue (m w) f

abbrev pub ◌>>◌ : {A B : Type 0} → Action A → Action B → Action B
m >> n = m >>= λ _. n

abbrev pub modify : (World → World) → Action (Unit {0})
modify f w = (f w, ok tt)

abbrev pub gets : {A : Type 0} → (World → A) → Action A
gets f w = (w, ok (f w))

abbrev pub with_fault : Fault → Step → (before after : World) → World × Result Failure (Unit {0})
with_fault fine s before after = (after, ok tt)
with_fault early s before after = (before, err (step_failed s))
with_fault late s before after = (after, err (step_failed s))

-- A command or a statement that is sent: its effect, unless it fails early.
unfoldable pub perform : Env → Step → (World → World) → Action (Unit {0})
perform env s effect w = with_fault (env.fault s) s w (effect w)

abbrev pub on_host : (Host → Host) → World → World
on_host f w = record w { host = f w.host }

abbrev pub on_db : (Db → Db) → World → World
on_db f w = record w { db = f w.db }

abbrev pub found : {A : Type 0} → Fault → Step → Option A → Result Failure A
found fine s (some a) = ok a
found fine s none = err (missing s)
found _ s o = err (step_failed s)

-- `.await?.ok_or_else(…)?` on a row.
unfoldable pub look : {A : Type 0} → Env → Step → (World → Option A) → Action A
look env s f w = (w, found (env.fault s) s (f w))

-- `let _ = …` and `if let Err(error) = …`: the outcome is only logged.
unfoldable pub ignore : {A : Type 0} → Action A → Action (Unit {0})
ignore m w = ((m w).0, ok tt)

-- `if … { bail!(…) }`, by what lets it pass.
unfoldable pub require : Bool → Failure → Action (Unit {0})
require b e = if b then pure tt else bail e

unfoldable pub when : Bool → Action (Unit {0}) → Action (Unit {0})
when b m = if b then m else pure tt
