-- ===== src/Exec.antt =====
-- Go functions that change the world and may fail. An outcome is a value with a nil error, an error,
-- or a panic; what was written before stays written in each case. `exhausted` is no outcome of the
-- program: it says that the fuel of a recursion ran out.
pub mod Cases
pub mod Inversion
pub mod Keeps
use containerdosstore.Prelude.{String, Bool, Option, none, some, true, false, List, [], ◌∷◌}

-- The class of an error of a called library, as errdefs tells them apart.
pub data Class : Type 0 where
  not_found already_exists failed_precondition other : Class

-- `failure` is an error of a called library, `message` one of errors.New or of fmt.Errorf with no
-- %w, `wrapped` one of fmt.Errorf("text: %w", err).
pub data Error : Type 0 where
  failure : Class → String → Error
  message : String → Error
  wrapped : String → Error → Error

-- The class that errors.Is finds down the chain of wrapped errors.
abbrev pub class_of : Error → Class
class_of (failure c text) = c
class_of (message text) = other
class_of (wrapped text e) = class_of e

abbrev is_class_not_found : Class → Bool
is_class_not_found not_found = true
is_class_not_found _ = false

abbrev is_class_already_exists : Class → Bool
is_class_already_exists already_exists = true
is_class_already_exists _ = false

abbrev is_class_failed_precondition : Class → Bool
is_class_failed_precondition failed_precondition = true
is_class_failed_precondition _ = false

abbrev pub is_not_found : Error → Bool
is_not_found e = is_class_not_found (class_of e)

abbrev pub is_already_exists : Error → Bool
is_already_exists e = is_class_already_exists (class_of e)

abbrev pub is_failed_precondition : Error → Bool
is_failed_precondition e = is_class_failed_precondition (class_of e)

pub data Outcome {ℓ} (A : Type ℓ) : Type ℓ where
  ok : A → Outcome A
  err : Error → Outcome A
  panic : Outcome A
  exhausted : Outcome A

abbrev pub Exec {ℓ} : Type ℓ → Type ℓ → Type ℓ
Exec W A = W → Outcome A × W

-- What a caller sees of a call: `x, err := f()`.
pub data Attempt {ℓ} (A : Type ℓ) : Type ℓ where
  failed : Error → Attempt A
  returned : A → Attempt A

module _ {ℓ} {W A : Type ℓ} where
  abbrev pub pure : A → Exec W A
  pure a w = (ok a, w)

  abbrev pub throw : Error → Exec W A
  throw e w = (err e, w)

  abbrev pub panics : Exec W A
  panics w = (panic, w)

  abbrev pub lift : Outcome A → Exec W A
  lift r w = (r, w)

  abbrev pub attempted : Outcome A → W → Outcome (Attempt A) × W
  attempted (ok a) w = (ok (returned a), w)
  attempted (err e) w = (ok (failed e), w)
  attempted panic w = (panic, w)
  attempted exhausted w = (exhausted, w)

  -- Hands an error over as a value.
  unfoldable pub attempt : Exec W A → Exec W (Attempt A)
  attempt m w = let (r, w') = m w in attempted r w'

module _ {ℓ} {A B : Type ℓ} where
  -- The outcome of a function whose deferred function ended in the second outcome.
  abbrev pub after_defer : Outcome A → Outcome B → Outcome A
  after_defer r (ok b) = r
  after_defer r (err e) = r
  after_defer r panic = panic
  after_defer r exhausted = exhausted

module _ {ℓ} {W A B : Type ℓ} where
  abbrev pub continue : Outcome A → (A → Exec W B) → Exec W B
  continue (ok a) f w = f a w
  continue (err e) f w = (err e, w)
  continue panic f w = (panic, w)
  continue exhausted f w = (exhausted, w)

  infixl 5 ◌>>=◌ ◌>>◌
  -- `x, err := m; if err != nil { return ..., err }`
  unfoldable pub ◌>>=◌ : Exec W A → (A → Exec W B) → Exec W B
  ◌>>=◌ m f w = let (r, w') = m w in continue r f w'

  abbrev pub ◌>>◌ : Exec W A → Exec W B → Exec W B
  m >> n = m >>= λ _. n

  abbrev pub deferred :
      (A → Option Error) → Outcome A → (Option Error → Exec W B) → W → Outcome A × W
  deferred ret (ok a) cleanup w = let (q, w') = cleanup (ret a) w in (after_defer (ok a) q, w')
  deferred ret (err e) cleanup w = let (q, w') = cleanup (some e) w in (after_defer (err e) q, w')
  deferred ret panic cleanup w = let (q, w') = cleanup none w in (after_defer panic q, w')
  deferred ret exhausted cleanup w = let (q, w') = cleanup none w in (after_defer exhausted q, w')

  -- `defer func() { ... }()` around the rest of a function: it runs on every return and on a panic.
  -- The deferred function is given the named result `retErr`, which is nil while a panic unwinds;
  -- `ret` reads the error of a function that returns one beside a value.
  unfoldable pub defer : (A → Option Error) → Exec W A → (Option Error → Exec W B) → Exec W A
  defer ret m cleanup w = let (r, w') = m w in deferred ret r cleanup w'

  abbrev pub reported : Outcome A → (Error → Exec W B) → W → Outcome A × W
  reported (ok a) report w = (ok a, w)
  reported (err e) report w = let (q, w') = report e w in (after_defer (err e) q, w')
  reported panic report w = (panic, w)
  reported exhausted report w = (exhausted, w)

  -- `if err != nil { report(err); return ..., err }`
  unfoldable pub on_error : Exec W A → (Error → Exec W B) → Exec W A
  on_error m report w = let (r, w') = m w in reported r report w'

-- The error of the function, or else the error of closing.
abbrev pub or_close_error {ℓ} : {B : Type ℓ} → Option Error → Outcome B → Option Error
or_close_error (some e) r = some e
or_close_error none (err e) = some e
or_close_error none _ = none

module _ {ℓ} {W A B : Type ℓ} where
  abbrev pub closed : Outcome (A × Option Error) → Exec W B → W → Outcome (A × Option Error) × W
  closed (ok (a, e)) close w =
      let (q, w') = close w in (after_defer (ok (a, or_close_error e q)) q, w')
  closed (err e) close w = let (q, w') = close w in (after_defer (err e) q, w')
  closed panic close w = let (q, w') = close w in (after_defer panic q, w')
  closed exhausted close w = let (q, w') = close w in (after_defer exhausted q, w')

  -- `defer func() { err := r.Close(); if err != nil && retErr == nil { retErr = err } }()`
  unfoldable pub closing : Exec W (A × Option Error) → Exec W B → Exec W (A × Option Error)
  closing m close w = let (r, w') = m w in closed r close w'

module _ {ℓ} {O : Type ℓ} where
  -- `for _, o := range opts { err := o(opt); if err != nil { return err } }`: functional options.
  unfoldable pub apply_opts : List (O → Outcome O) → O → Outcome O
  apply_opts [] opt = ok opt
  apply_opts (o ∷ os) opt = elim (o opt) [
    | ok opt' ↦ apply_opts os opt'
    | err e ↦ err e
    | panic ↦ panic
    | exhausted ↦ exhausted
  ]
