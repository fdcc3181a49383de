-- ===== src/Deploy/Action/Triple.antt =====
-- Rules for what an action establishes: `Triple P m Q E` says that from `P` the action either returns
-- a value with `Q`, or fails with `E`.
use nudo.Prelude.{◌≡◌, refl, Bool, true, false, Option, none, some, Result, ok, err, if◌then◌else◌}
use nudo.BootGuard.Dir.{Fault, fine, early, late}
use nudo.Deploy.World.{World, Env, Step, Failure}
use nudo.Deploy.Action.{
  Action, pure, bail, ◌>>=◌, ◌>>◌, modify, gets, perform, look, ignore, when, require,
}

abbrev pub Post :
    {A : Type 0} → (A → World → Type 0) → (World → Type 0) → World × Result Failure A → Type 0
Post Q E (w, ok a) = Q a w
Post Q E (w, err e) = E w

pub record Triple {A : Type 0} (P : World → Type 0) (m : Action A) (Q : A → World → Type 0)
    (E : World → Type 0) : Type 0 where
  pub at : (w : World) → P w → Post Q E (m w)

module _ {A B : Type 0} {E : World → Type 0} where
  Post-bind :
      {Q : A → World → Type 0} {R : B → World → Type 0} (f : A → Action B)
      → ((a : A) → Triple (Q a) (f a) R E)
      → (r : World × Result Failure A) → Post Q E r
      → Post R E (nudo.Deploy.Action.continue r f)
  Post-bind f tf (w, ok a) h = (tf a).at w h
  Post-bind f tf (w, err e) h = h

  pub Triple-bind :
      {P : World → Type 0} {Q : A → World → Type 0} {R : B → World → Type 0} {m : Action A}
      {f : A → Action B}
      → Triple P m Q E
      → ((a : A) → Triple (Q a) (f a) R E)
      → Triple P (m >>= f) R E
  unfolding ◌>>=◌
  Triple-bind {m = m} {f = f} tm tf = record { at = λ w h. Post-bind f tf (m w) (tm.at w h) }

module _ {A : Type 0} {P E : World → Type 0} {Q : A → World → Type 0} where
  pub Triple-pure : {a : A} → ((w : World) → P w → Q a w) → Triple P (pure a) Q E
  Triple-pure h = record { at = h }

  pub Triple-bail : {e : Failure} → ((w : World) → P w → E w) → Triple {A = A} P (bail e) Q E
  Triple-bail h = record { at = h }

  pub Triple-gets : {f : World → A} → ((w : World) → P w → Q (f w) w) → Triple P (gets f) Q E
  Triple-gets h = record { at = h }

  -- A row that is there, or a failure that changes nothing.
  pub Triple-look :
      (env : Env) (s : Step) {f : World → Option A}
      → ((w : World) → P w → E w)
      → ((w : World) (a : A) → f w ≡ some a → P w → Q a w)
      → Triple P (look env s f) Q E
  unfolding look
  Triple-look env s {f} he hq = record { at = λ w h. go w h (env.fault s) (f w) refl }
    where
      go :
          (w : World)
          → P w
          → (x : Fault) (o : Option A) → f w ≡ o
          → Post Q E (w, nudo.Deploy.Action.found x s o)
      go w h fine (some a) e = hq w a e h
      go w h fine none e = he w h
      go w h early o e = he w h
      go w h late o e = he w h

  pub Triple-if :
      {b : Bool} {m n : Action A}
      → (b ≡ true → Triple P m Q E)
      → (b ≡ false → Triple P n Q E)
      → Triple P (if b then m else n) Q E
  Triple-if {b = true} tm tn = tm refl
  Triple-if {b = false} tm tn = tn refl

  pub Triple-weaken :
      {P' : World → Type 0} {m : Action A}
      → ((w : World) → P' w → P w)
      → Triple P m Q E
      → Triple P' m Q E
  Triple-weaken h t = record { at = λ w p. t.at w (h w p) }

pub Post-weaken :
    {A : Type 0} (Q Q' : A → World → Type 0) (E E' : World → Type 0) (r : World × Result Failure A)
    → ((a : A) (w : World) → Q a w → Q' a w)
    → ((w : World) → E w → E' w)
    → Post Q E r
    → Post Q' E' r
Post-weaken Q Q' E E' (w, ok a) q e h = q a w h
Post-weaken Q Q' E E' (w, err f) q e h = e w h

module _ {P E : World → Type 0} {Q : World → Type 0} where
  -- An effect, which a late failure leaves behind.
  pub Triple-perform :
      (env : Env) (s : Step) {effect : World → World}
      → ((w : World) → P w → E w)
      → ((w : World) → P w → E (effect w))
      → ((w : World) → P w → Q (effect w))
      → Triple P (perform env s effect) (λ _. Q) E
  unfolding perform
  Triple-perform env s {effect} he hl hq = record { at = λ w h. go w h (env.fault s) }
    where
      go :
          (w : World)
          → P w
          → (x : Fault) → Post (λ _. Q) E (nudo.Deploy.Action.with_fault x s w (effect w))
      go w h fine = hq w h
      go w h early = he w h
      go w h late = hl w h

  pub Triple-modify :
      {f : World → World} → ((w : World) → P w → Q (f w)) → Triple P (modify f) (λ _. Q) E
  Triple-modify h = record { at = h }

  pub Triple-require :
      {b : Bool} (e : Failure)
      → (b ≡ false → (w : World) → P w → E w)
      → (b ≡ true → (w : World) → P w → Q w)
      → Triple P (require b e) (λ _. Q) E
  unfolding require
  Triple-require {b = true} e he hq = record { at = hq refl }
  Triple-require {b = false} e he hq = record { at = he refl }

  pub Triple-when :
      {b : Bool} {m : Action (Unit {0})}
      → (b ≡ true → Triple P m (λ _. Q) E)
      → (b ≡ false → (w : World) → P w → Q w)
      → Triple P (when b m) (λ _. Q) E
  unfolding when
  Triple-when {b = true} tm h = tm refl
  Triple-when {b = false} tm h = record { at = h refl }

module _ {A : Type 0} {P E : World → Type 0} {Q : World → Type 0} where
  pub Triple-ignore : {m : Action A} → Triple P m (λ _. Q) Q → Triple P (ignore m) (λ _. Q) E
  unfolding ignore
  Triple-ignore {m} t = record { at = λ w h. go (m w) (t.at w h) }
    where
      go : (r : World × Result Failure A) → Post (λ _. Q) Q r → Q r.0
      go (w, ok a) q = q
      go (w, err e) q = q
