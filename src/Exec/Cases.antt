-- ===== src/Exec/Cases.antt =====
-- Case rules: what holds of a function that calls another one holds if it does so for each outcome of
-- that call. `Q` speaks of the outcome and of the world that is left.
use containerdosstore.Prelude.{◌≡◌, ◌≢◌, refl, Option, none, some, Bool, true, false, if◌then◌else◌}
use containerdosstore.Exec.{
  Error, Outcome, ok, err, panic, exhausted, Exec, failed, returned, Attempt, continue, attempted,
  attempt, ◌>>=◌, on_error, reported, after_defer, deferred, defer,
}

module _ {ℓ} {W A : Type ℓ} where
  -- The outcome of a call decides what `attempt` hands on.
  pub attempt_cases {κ} :
      (Q : Outcome (Attempt A) × W → Type κ) (m : Exec W A) (w : W)
      → ((a : A) → (m w).0 ≡ ok a → Q (ok (returned a), (m w).1))
      → ((e : Error) → (m w).0 ≡ err e → Q (ok (failed e), (m w).1))
      → ((m w).0 ≡ panic → Q (panic, (m w).1))
      → ((m w).0 ≡ exhausted → Q (exhausted, (m w).1))
      → Q (attempt m w)
  unfolding attempt
  attempt_cases Q m w on_ok on_err on_panic on_exhausted = go (m w).0 refl
    where
      go : (r : Outcome A) → (m w).0 ≡ r → Q (attempted r (m w).1)
      go (ok a) e = on_ok a e
      go (err x) e = on_err x e
      go panic e = on_panic e
      go exhausted e = on_exhausted e

module _ {ℓ} {W A : Type ℓ} where
  -- `attempt` hands every error on as a value.
  pub attempt-ne-err : (m : Exec W A) (w : W) (e : Error) → (attempt m w).0 ≢ err e
  attempt-ne-err m w e =
      attempt_cases (λ p. p.0 ≢ err e) m w (λ a _ q. cc) (λ x _ q. cc) (λ _ q. cc) (λ _ q. cc)

  -- Its world is that of the call.
  pub attempt-world : (m : Exec W A) (w : W) → (attempt m w).1 ≡ (m w).1
  attempt-world m w =
      attempt_cases (λ p. p.1 ≡ (m w).1) m w (λ a _. refl) (λ x _. refl) (λ _. refl) (λ _. refl)

module _ {ℓ} {W A B : Type ℓ} where
  pub bind_cases {κ} :
      (Q : Outcome B × W → Type κ) (m : Exec W A) (f : A → Exec W B) (w : W)
      → ((a : A) → (m w).0 ≡ ok a → Q (f a (m w).1))
      → ((e : Error) → (m w).0 ≡ err e → Q (err e, (m w).1))
      → ((m w).0 ≡ panic → Q (panic, (m w).1))
      → ((m w).0 ≡ exhausted → Q (exhausted, (m w).1))
      → Q ((m >>= f) w)
  unfolding ◌>>=◌
  bind_cases Q m f w on_ok on_err on_panic on_exhausted = go (m w).0 refl
    where
      go : (r : Outcome A) → (m w).0 ≡ r → Q (continue r f (m w).1)
      go (ok a) e = on_ok a e
      go (err x) e = on_err x e
      go panic e = on_panic e
      go exhausted e = on_exhausted e

  -- A call whose error is looked at, and what follows.
  pub try_cases {κ} :
      (Q : Outcome B × W → Type κ) (m : Exec W A) (f : Attempt A → Exec W B) (w : W)
      → ((a : A) → (m w).0 ≡ ok a → Q (f (returned a) (m w).1))
      → ((e : Error) → (m w).0 ≡ err e → Q (f (failed e) (m w).1))
      → ((m w).0 ≡ panic → Q (panic, (m w).1))
      → ((m w).0 ≡ exhausted → Q (exhausted, (m w).1))
      → Q ((attempt m >>= f) w)
  unfolding ◌>>=◌ attempt
  try_cases Q m f w on_ok on_err on_panic on_exhausted = go (m w).0 refl
    where
      go :
          (r : Outcome A)
          → (m w).0 ≡ r
          → Q (continue (attempted r (m w).1).0 f (attempted r (m w).1).1)
      go (ok a) e = on_ok a e
      go (err x) e = on_err x e
      go panic e = on_panic e
      go exhausted e = on_exhausted e

module _ {ℓ} {W A : Type ℓ} where
  pub if_cases {κ} :
      (Q : Outcome A × W → Type κ) (b : Bool) (m n : Exec W A) (w : W)
      → (b ≡ true → Q (m w))
      → (b ≡ false → Q (n w))
      → Q ((if b then m else n) w)
  if_cases Q true m n w on_true on_false = on_true refl
  if_cases Q false m n w on_true on_false = on_false refl

module _ {ℓ} {W A B : Type ℓ} where
  pub on_error_cases {κ} :
      (Q : Outcome A × W → Type κ) (m : Exec W A) (report : Error → Exec W B) (w : W)
      → ((a : A) → (m w).0 ≡ ok a → Q (ok a, (m w).1))
      → ((e : Error)
          → (m w).0 ≡ err e
          → Q (after_defer (err e) (report e (m w).1).0, (report e (m w).1).1))
      → ((m w).0 ≡ panic → Q (panic, (m w).1))
      → ((m w).0 ≡ exhausted → Q (exhausted, (m w).1))
      → Q (on_error m report w)
  unfolding on_error
  on_error_cases Q m report w on_ok on_err on_panic on_exhausted = go (m w).0 refl
    where
      go : (r : Outcome A) → (m w).0 ≡ r → Q (reported r report (m w).1)
      go (ok a) e = on_ok a e
      go (err x) e = on_err x e
      go panic e = on_panic e
      go exhausted e = on_exhausted e

  pub defer_cases {κ} :
      (Q : Outcome A × W → Type κ) (ret : A → Option Error) (m : Exec W A)
      (cleanup : Option Error → Exec W B) (w : W)
      → ((a : A)
          → (m w).0 ≡ ok a
          → let q = cleanup (ret a) (m w).1 in Q (after_defer (ok a) q.0, q.1))
      → ((e : Error)
          → (m w).0 ≡ err e
          → let q = cleanup (some e) (m w).1 in Q (after_defer (err e) q.0, q.1))
      → ((m w).0 ≡ panic → let q = cleanup none (m w).1 in Q (after_defer panic q.0, q.1))
      → ((m w).0 ≡ exhausted → let q = cleanup none (m w).1 in Q (after_defer exhausted q.0, q.1))
      → Q (defer ret m cleanup w)
  unfolding defer
  defer_cases Q ret m cleanup w on_ok on_err on_panic on_exhausted = go (m w).0 refl
    where
      go : (r : Outcome A) → (m w).0 ≡ r → Q (deferred ret r cleanup (m w).1)
      go (ok a) e = on_ok a e
      go (err x) e = on_err x e
      go panic e = on_panic e
      go exhausted e = on_exhausted e

  -- The world that a function with a deferred function leaves is one that the latter leaves.
  pub defer_world {κ} :
      (Q : W → Type κ) (ret : A → Option Error) (m : Exec W A) (cleanup : Option Error → Exec W B)
      (w : W)
      → ((e : Option Error) → Q (cleanup e (m w).1).1)
      → Q (defer ret m cleanup w).1
  unfolding defer
  defer_world Q ret m cleanup w h = go (m w).0
    where
      go : (r : Outcome A) → Q (deferred ret r cleanup (m w).1).1
      go (ok a) = h (ret a)
      go (err e) = h (some e)
      go panic = h none
      go exhausted = h none

module _ {ℓ} {W A B : Type ℓ} where
  pub bind_cong :
      (m : Exec W A) (f g : A → Exec W B) (w : W)
      → ((a : A) → f a (m w).1 ≡ g a (m w).1)
      → (m >>= f) w ≡ (m >>= g) w
  unfolding ◌>>=◌
  bind_cong m f g w same = go (m w).0
    where
      go : (r : Outcome A) → continue r f (m w).1 ≡ continue r g (m w).1
      go (ok a) = same a
      go (err e) = refl
      go panic = refl
      go exhausted = refl

module _ {ℓ} {W A B C : Type ℓ} where
  pub bind_assoc :
      (m : Exec W A) (f : A → Exec W B) (g : B → Exec W C) (w : W)
      → ((m >>= f) >>= g) w ≡ (m >>= (λ a. f a >>= g)) w
  unfolding ◌>>=◌
  bind_assoc m f g w = go (m w).0
    where
      go :
          (r : Outcome A)
          → continue (continue r f (m w).1).0 g (continue r f (m w).1).1
            ≡ continue r (λ a v. continue (f a v).0 g (f a v).1) (m w).1
      go (ok a) = refl
      go (err e) = refl
      go panic = refl
      go exhausted = refl
