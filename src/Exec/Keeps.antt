-- ===== src/Exec/Keeps.antt =====
-- Invariants of functions that change the world: `Keeps P m` says that P holds after m wherever it
-- held before, however m ends. One rule for each way to build such a function.
use containerdosstore.Prelude.{Bool, true, false, Option, none, some, if◌then◌else◌}
use containerdosstore.Exec.{
  Error, Outcome, ok, err, panic, exhausted, Exec, Attempt, failed, returned, pure, throw, panics,
  lift, attempted, attempt, continue, ◌>>=◌, deferred, defer, reported, on_error, closed, closing,
}

pub record Keeps {ℓ κ} {W A : Type ℓ} (P : W → Type κ) (m : Exec W A) : Type (ℓ ⊔ κ) where
  pub at : (w : W) → P w → P (m w).1

module _ {ℓ κ} {W A : Type ℓ} where
  attempted-keeps : (P : W → Type κ) (r : Outcome A) (w : W) → P w → P (attempted r w).1
  attempted-keeps P (ok a) w h = h
  attempted-keeps P (err e) w h = h
  attempted-keeps P panic w h = h
  attempted-keeps P exhausted w h = h

module _ {ℓ κ} {W A : Type ℓ} {P : W → Type κ} where
  pub Keeps-panics : Keeps P (panics {W = W} {A = A})
  Keeps-panics = record { at = λ w h. h }

  pub Keeps-lift : (outcome : Outcome A) → Keeps P (lift {W = W} outcome)
  Keeps-lift outcome = record { at = λ w h. h }

  pub Keeps-throw : (error : Error) → Keeps P (throw {W = W} {A = A} error)
  Keeps-throw error = Keeps-lift (err error)

  pub Keeps-pure : (value : A) → Keeps P (pure {W = W} value)
  Keeps-pure value = Keeps-lift (ok value)

  pub Keeps-if :
      (test : Bool) (yes_branch no_branch : Exec W A)
      → Keeps P no_branch
      → Keeps P yes_branch
      → Keeps P (if test then yes_branch else no_branch)
  Keeps-if false _ _ kept _ = kept
  Keeps-if true _ _ _ kept = kept

  pub Keeps-attempt : (m : Exec W A) → Keeps P m → Keeps P (attempt m)
  unfolding attempt
  Keeps-attempt m km = record { at = λ w h. attempted-keeps P (m w).0 (m w).1 (km.at w h) }

module _ {ℓ κ} {W A B : Type ℓ} {P : W → Type κ} where
  continue-keeps :
      (r : Outcome A) (f : A → Exec W B) (w : W)
      → ((a : A) → Keeps P (f a))
      → P w
      → P (continue r f w).1
  continue-keeps (ok a) f w kf h = (kf a).at w h
  continue-keeps (err e) f w kf h = h
  continue-keeps panic f w kf h = h
  continue-keeps exhausted f w kf h = h

  pub Keeps-bind :
      (first : Exec W A) (next : A → Exec W B)
      → ((result : A) → Keeps P (next result))
      → Keeps P first
      → Keeps P (first >>= next)
  unfolding ◌>>=◌
  Keeps-bind first next kept_next kept = record {
    at = λ w h. continue-keeps (first w).0 next (first w).1 kept_next (kept.at w h);
  }

  deferred-keeps :
      (ret : A → Option Error) (r : Outcome A) (cleanup : Option Error → Exec W B) (w : W)
      → ((e : Option Error) → Keeps P (cleanup e))
      → P w
      → P (deferred ret r cleanup w).1
  deferred-keeps ret (ok a) cleanup w k h = (k (ret a)).at w h
  deferred-keeps ret (err e) cleanup w k h = (k (some e)).at w h
  deferred-keeps ret panic cleanup w k h = (k none).at w h
  deferred-keeps ret exhausted cleanup w k h = (k none).at w h

  pub Keeps-defer :
      (ret : A → Option Error) (m : Exec W A) (cleanup : Option Error → Exec W B)
      → Keeps P m
      → ((e : Option Error) → Keeps P (cleanup e))
      → Keeps P (defer ret m cleanup)
  unfolding defer
  Keeps-defer ret m cleanup km k = record {
    at = λ w h. deferred-keeps ret (m w).0 cleanup (m w).1 k (km.at w h);
  }

  reported-keeps :
      (r : Outcome A) (report : Error → Exec W B) (w : W)
      → ((e : Error) → Keeps P (report e))
      → P w
      → P (reported r report w).1
  reported-keeps (ok a) report w k h = h
  reported-keeps (err e) report w k h = (k e).at w h
  reported-keeps panic report w k h = h
  reported-keeps exhausted report w k h = h

  pub Keeps-on_error :
      (m : Exec W A) (report : Error → Exec W B)
      → Keeps P m
      → ((e : Error) → Keeps P (report e))
      → Keeps P (on_error m report)
  unfolding on_error
  Keeps-on_error m report km k = record {
    at = λ w h. reported-keeps (m w).0 report (m w).1 k (km.at w h);
  }

  closed-keeps :
      (r : Outcome (A × Option Error)) (close : Exec W B) (w : W)
      → Keeps P close
      → P w
      → P (closed r close w).1
  closed-keeps (ok (a, e)) close w k h = k.at w h
  closed-keeps (err e) close w k h = k.at w h
  closed-keeps panic close w k h = k.at w h
  closed-keeps exhausted close w k h = k.at w h

  pub Keeps-closing :
      (m : Exec W (A × Option Error)) (close : Exec W B)
      → Keeps P m
      → Keeps P close
      → Keeps P (closing m close)
  unfolding closing
  Keeps-closing m close km k = record {
    at = λ w h. closed-keeps (m w).0 close (m w).1 k (km.at w h);
  }

module _ {ℓ κ} {W A B : Type ℓ} {P : W → Type κ} where
  -- A call whose error is looked at, and what follows in the two cases.
  pub Keeps-try :
      (m : Exec W A) (f : Attempt A → Exec W B)
      → Keeps P m
      → ((a : A) → Keeps P (f (returned a)))
      → ((e : Error) → Keeps P (f (failed e)))
      → Keeps P (attempt m >>= f)
  Keeps-try m f km kr kf =
      Keeps-bind (attempt m) f (elim [ returned a ↦ kr a | failed e ↦ kf e ]) (Keeps-attempt m km)

pub ruleset keeps_rules = (
  Keeps-pure, Keeps-throw, Keeps-panics, Keeps-lift, Keeps-if, Keeps-attempt, Keeps-try, Keeps-bind,
  Keeps-defer, Keeps-on_error, Keeps-closing,
)
