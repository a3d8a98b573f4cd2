-- ===== src/Exec/Inversion.antt =====
-- Inversion: where a value that a function returns comes from, and the world that it leaves.
use containerdosstore.Prelude.{◌≡◌, ◌≢◌, ◌∙◌, refl, ap, Option, none, some}
use containerdosstore.Exec.{
  Error, Outcome, ok, err, panic, exhausted, Exec, failed, returned, continue, attempt, ◌>>=◌,
  on_error, after_defer, deferred, defer,
}
use containerdosstore.Exec.Cases.{attempt_cases, on_error_cases}

pub ok_injective {ℓ} : {A : Type ℓ} (a b : A) → ok a ≡ ok b → a ≡ b
ok_injective a b e = cc

err-ne-ok {ℓ} : {A : Type ℓ} (e : Error) (a : A) → err e ≢ ok a
err-ne-ok e a q = cc

panic-ne-ok {ℓ} : {A : Type ℓ} (a : A) → panic ≢ ok a
panic-ne-ok a q = cc

exhausted-ne-ok {ℓ} : {A : Type ℓ} (a : A) → exhausted ≢ ok a
exhausted-ne-ok a q = cc

after_defer-ok {ℓ} :
    {A B : Type ℓ} (r : Outcome A) (q : Outcome B) (a : A) → after_defer r q ≡ ok a → r ≡ ok a
after_defer-ok r (ok b) a e = e
after_defer-ok r (err x) a e = e
after_defer-ok r panic a e = cc
after_defer-ok r exhausted a e = cc

module _ {ℓ} {W A B : Type ℓ} where
  -- Inversion: a chain returns a value only if its first call does.
  pub bind-ok :
      (m : Exec W A) (f : A → Exec W B) (w : W) {b : B}
      → ((m >>= f) w).0 ≡ ok b
      → (a : A) × ((m w).0 ≡ ok a) × ((f a (m w).1).0 ≡ ok b)
  unfolding ◌>>=◌
  bind-ok m f w {b} h = go (m w).0 refl h
    where
      go :
          (r : Outcome A)
          → (m w).0 ≡ r
          → (continue r f (m w).1).0 ≡ ok b
          → (a : A) × ((m w).0 ≡ ok a) × ((f a (m w).1).0 ≡ ok b)
      go (ok a) e q = (a, e, q)
      go (err x) e q = cc
      go panic e q = cc
      go exhausted e q = cc

  -- The world that a chain leaves, where its first call returns a value.
  pub bind-world :
      (m : Exec W A) (f : A → Exec W B) (w : W) (a : A)
      → (m w).0 ≡ ok a
      → ((m >>= f) w).1 ≡ (f a (m w).1).1
  unfolding ◌>>=◌
  bind-world m f w a e = ap (λ r. (continue r f (m w).1).1) e

  defer-ok_of :
      (ret : A → Option Error) (cleanup : Option Error → Exec W B) (r : Outcome A) (w : W) (a : A)
      → (deferred ret r cleanup w).0 ≡ ok a
      → (r ≡ ok a) × ((deferred ret r cleanup w).1 ≡ (cleanup (ret a) w).1)
  defer-ok_of ret cleanup (ok x) w a e =
      let same : ok x ≡ ok a = after_defer-ok (ok x) (cleanup (ret x) w).0 a e in
      (same, ap (λ y. (cleanup (ret y) w).1) (ok_injective x a same))
  defer-ok_of ret cleanup (err x) w a e =
      absurd (err-ne-ok x a (after_defer-ok (err x) (cleanup (some x) w).0 a e))
  defer-ok_of ret cleanup panic w a e =
      absurd (panic-ne-ok a (after_defer-ok panic (cleanup none w).0 a e))
  defer-ok_of ret cleanup exhausted w a e =
      absurd (exhausted-ne-ok a (after_defer-ok exhausted (cleanup none w).0 a e))

  -- Inversion: a function with a deferred one returns what it returns without it.
  pub defer-ok :
      (ret : A → Option Error) (m : Exec W A) (cleanup : Option Error → Exec W B) (w : W) (a : A)
      → (defer ret m cleanup w).0 ≡ ok a
      → ((m w).0 ≡ ok a) × ((defer ret m cleanup w).1 ≡ (cleanup (ret a) (m w).1).1)
  unfolding defer
  defer-ok ret m cleanup w a e = defer-ok_of ret cleanup (m w).0 (m w).1 a e

module _ {ℓ} {W A : Type ℓ} where
  pub attempt-failed :
      (m : Exec W A) (w : W) (e : Error) → (attempt m w).0 ≡ ok (failed e) → (m w).0 ≡ err e
  attempt-failed m w e =
      attempt_cases (λ p. p.0 ≡ ok (failed e) → (m w).0 ≡ err e) m w (λ x h q. cc) (λ x h q. cc)
        (λ h q. cc) (λ h q. cc)

  pub attempt-ok :
      (m : Exec W A) (w : W) (a : A) → (attempt m w).0 ≡ ok (returned a) → (m w).0 ≡ ok a
  attempt-ok m w a =
      attempt_cases (λ p. p.0 ≡ ok (returned a) → (m w).0 ≡ ok a) m w (λ x e q. cc) (λ x e q. cc)
        (λ e q. cc) (λ e q. cc)

module _ {ℓ} {W A B : Type ℓ} where
  -- A reported call that returns a value is the call.
  pub on_error-ok :
      (m : Exec W A) (report : Error → Exec W B) (w : W) (a : A)
      → (on_error m report w).0 ≡ ok a
      → ((m w).0 ≡ ok a) × ((on_error m report w).1 ≡ (m w).1)
  on_error-ok m report w a =
      on_error_cases (λ p. p.0 ≡ ok a → ((m w).0 ≡ ok a) × (p.1 ≡ (m w).1)) m report w
        (λ x h q. (h ∙ q, refl)) (λ x h q. absurd (err-ne-ok x a (after_defer-ok (err x) _ a q)))
        (λ _ q. absurd (panic-ne-ok a q)) (λ _ q. absurd (exhausted-ne-ok a q))

module _ {ℓ} {W A B : Type ℓ} where
  -- Both at once: where the value of a chain comes from, and the world that the chain leaves.
  pub bind-returns :
      (m : Exec W A) (f : A → Exec W B) (w : W) (b : B)
      → ((m >>= f) w).0 ≡ ok b
      → (a : A) × ((m w).0 ≡ ok a) × ((f a (m w).1).0 ≡ ok b) × (((m >>= f) w).1 ≡ (f a (m w).1).1)
  bind-returns m f w b e =
      let (a, ran, rest) = bind-ok m f w e in (a, ran, rest, bind-world m f w a ran)
