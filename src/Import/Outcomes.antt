-- ===== src/Import/Outcomes.antt =====
-- What the importing methods return.
use containerdosstore.Prelude.{
  ℕ, String, Bool, true, false, Option, none, some, List, [], ◌∷◌, ◌≡◌, ◌≢◌, refl, ap, subst,
  if◌then◌else◌,
}
use containerdosstore.Exec.{
  Error, Outcome, ok, err, panic, exhausted, Exec, after_defer, closing, ◌>>=◌, closed, Attempt,
  failed, returned,
}
use containerdosstore.Exec.Cases.{bind_cases, defer_cases, attempt-ne-err}
use containerdosstore.Exec.Inversion.{bind-ok, ok_injective}
use containerdosstore.Services.{Services, LeaseOpt}
use containerdosstore.Services.Types.{Image}
use containerdosstore.World.{World, Level, error, call, log_at}
use containerdosstore.OciStore.{OciStore, guarded, leased, acquire, finish, is_initiated, report}
use containerdosstore.Import.{
  ImportOpt, import_func, import_file_func, import_opened, report_import, import_reader,
  import_file, single_image, keep_first,
}

-- Nothing that a function does ends in an error.
abbrev NeverFails {ℓ} : {W A : Type ℓ} → Exec W A → Type ℓ
NeverFails {W} m = (w : W) (e : Error) → (m w).0 ≢ err e

after_defer_ok {ℓ} :
    {A B : Type ℓ} (a : A) (r : Outcome B) (e : Error) → after_defer (ok a) r ≢ err e
after_defer_ok a (ok b) e q = cc
after_defer_ok a (err x) e q = cc
after_defer_ok a panic e q = cc
after_defer_ok a exhausted e q = cc

after_defer_panic {ℓ} :
    {A B : Type ℓ} (r : Outcome B) (e : Error) → after_defer {A = A} panic r ≢ err e
after_defer_panic (ok b) e q = cc
after_defer_panic (err x) e q = cc
after_defer_panic panic e q = cc
after_defer_panic exhausted e q = cc

after_defer_exhausted {ℓ} :
    {A B : Type ℓ} (r : Outcome B) (e : Error) → after_defer {A = A} exhausted r ≢ err e
after_defer_exhausted (ok b) e q = cc
after_defer_exhausted (err x) e q = cc
after_defer_exhausted panic e q = cc
after_defer_exhausted exhausted e q = cc

module _ {ℓ} {W A B : Type ℓ} where
  bind-NeverFails :
      (m : Exec W A) (f : A → Exec W B)
      → NeverFails m
      → ((a : A) → NeverFails (f a))
      → NeverFails (m >>= f)
  bind-NeverFails m f km kf w e =
      bind_cases (λ p. p.0 ≢ err e) m f w (λ a _. kf a (m w).1 e) (λ x r. absurd (km w x r))
        (λ _ q. cc) (λ _ q. cc)

if_true {ℓ} :
    {W A : Type ℓ} (b : Bool) (m n : Exec W A) (w : W) (r : Outcome A)
    → b ≡ true
    → ((if b then m else n) w).0 ≡ r
    → (m w).0 ≡ r
if_true true m n w r e q = q
if_true false m n w r e q = cc

module _ {S : Services} where
  log_at-NeverFails :
      (level : Level) (format : String) (args : List String)
      → NeverFails (log_at {S = S} level format args)
  unfolding log_at
  log_at-NeverFails level format args w e q = cc

  report_import-NeverFails :
      (x : Option Error) (format : String) (args : List String)
      → NeverFails (report_import {S = S} x format args)
  unfolding report_import
  report_import-NeverFails none format args w e q = cc
  report_import-NeverFails (some x) format args w e q = log_at-NeverFails error format args w e q

  import_func-NeverFails :
      (c : OciStore S) (ctx : Option S.Ctx) (r : S.Reader) (os : List (ImportOpt S))
      → NeverFails (import_func c ctx r os)
  unfolding import_func
  import_func-NeverFails c ctx r os = bind-NeverFails _ _ (attempt-ne-err _) (λ a w e q. cc)

  -- With a lease in hand an error comes from what follows.
  leased-err :
      {A : Type 0} (c : OciStore S) (os : List LeaseOpt)
      (report : Error → Exec (World S) (Unit {0})) (warning : String)
      (body : Option S.Ctx → Exec (World S) A) (w : World S) (e : Error)
      → ((ctx : Option S.Ctx) → NeverFails (body ctx))
      → (leased c os report warning body w).0 ≡ err e
      → (acquire c os report w).0 ≡ err e
  unfolding leased
  leased-err {A} c os rep warning body w e kb =
      let Q = λ (p : Outcome A × World S). p.0 ≡ err e → (acquire c os rep w).0 ≡ err e in
      bind_cases Q (acquire c os rep) _ w
        (λ l _.
          let w1 = (acquire c os rep w).1 in
          defer_cases Q (λ _. none) (body l.ctx) (finish l warning) w1
            (λ a _ q. absurd (after_defer_ok a _ e q)) (λ x r. absurd (kb l.ctx w1 x r))
            (λ _ q. absurd (after_defer_panic _ e q)) (λ _ q. absurd (after_defer_exhausted _ e q)))
        (λ x r q. cc) (λ _ q. cc) (λ _ q. cc)

  closing-NeverFails :
      {A : Type 0} (m : Exec (World S) (A × Option Error)) (close : Exec (World S) (Unit {0}))
      → NeverFails m
      → NeverFails (closing m close)
  unfolding closing
  closing-NeverFails m close km w e = go (m w).0 refl
    where
      go : (r : Outcome _) → (m w).0 ≡ r → (closed r close (m w).1).0 ≢ err e
      go (ok a) q = after_defer_ok _ _ e
      go (err x) q = absurd (km w x q)
      go panic q = after_defer_panic _ e
      go exhausted q = after_defer_exhausted _ e

  opened-NeverFails :
      (c : OciStore S) (ctx : Option S.Ctx) (os : List (ImportOpt S)) (a : Attempt S.Reader)
      → NeverFails (import_opened c ctx os a)
  unfolding import_opened
  opened-NeverFails c ctx os (failed x) w e q = cc
  opened-NeverFails c ctx os (returned r) w e q =
      closing-NeverFails (import_func c ctx r os) (call (S.close_file r))
        (import_func-NeverFails c ctx r os) w e q

  import_file_func-NeverFails :
      (c : OciStore S) (ctx : Option S.Ctx) (file : String) (os : List (ImportOpt S))
      → NeverFails (import_file_func c ctx file os)
  unfolding import_file_func
  import_file_func-NeverFails c ctx file os =
      bind-NeverFails _ _ (attempt-ne-err _) (opened-NeverFails c ctx os)

  -- Import, on a store that is set up, returns an error only where taking the lease returns that
  -- error: whatever fails in importing or unpacking, it returns no error.
  pub import_reader-swallows :
      (c : OciStore S) (reader : S.Reader) (os : List (ImportOpt S)) (w : World S) (e : Error)
      → is_initiated c ≡ true
      → (import_reader c reader os w).0 ≡ err e
      → (acquire c [] (report "failed to create lease to import image: %v") w).0 ≡ err e
  unfolding import_reader guarded
  import_reader-swallows c reader os w e set q =
      leased-err c [] _ _ _ w e
        (λ ctx. bind-NeverFails _ _ (import_func-NeverFails c ctx reader os) λ r.
          bind-NeverFails _ _ (report_import-NeverFails r.1 _ _)
            λ _. bind-NeverFails _ _ (log_at-NeverFails _ _ _) (λ _ v x p. cc))
        (if_true (is_initiated c) _ _ w (err e) set q)

  -- ImportFile, on a store that is set up, returns an error only where taking the lease returns that
  -- error: whatever fails in opening the file, importing or unpacking, it returns no error.
  pub import_file-swallows :
      (c : OciStore S) (file : String) (os : List (ImportOpt S)) (w : World S) (e : Error)
      → is_initiated c ≡ true
      → (import_file c file os w).0 ≡ err e
      → (acquire c [] (report "failed to create lease to import image: %v") w).0 ≡ err e
  unfolding import_file guarded
  import_file-swallows c file os w e set q =
      leased-err c [] _ _ _ w e
        (λ ctx. bind-NeverFails _ _ (import_file_func-NeverFails c ctx file os) λ r.
          bind-NeverFails _ _ (report_import-NeverFails r.1 _ _)
            λ _. bind-NeverFails _ _ (log_at-NeverFails _ _ _) (λ _ v x p. cc))
        (if_true (is_initiated c) _ _ w (err e) set q)

  -- SingleImportFile, where it returns an image, returns the first of the images that were imported.
  pub single_image-first :
      (fuel : ℕ) (c : OciStore S) (ctx : Option S.Ctx) (file : String) (imgs : List Image)
      (w : World S) (img : Image)
      → (single_image fuel c ctx file imgs w).0 ≡ ok img
      → (rest : List Image) × (imgs ≡ img ∷ rest) × ((keep_first fuel c ctx img rest w).0 ≡ ok tt)
  unfolding single_image
  single_image-first fuel c ctx file [] w img e = let (_, _, q) = bind-ok _ _ w e in cc
  single_image-first fuel c ctx file (first ∷ rest) w img e =
      let (_, kept, e1) = bind-ok _ _ w e in
      let (_, _, e2) = bind-ok _ _ _ e1 in
      let same : first ≡ img = ok_injective first img e2 in
      (
        rest,
        ap (λ (i : Image). i ∷ rest) same,
        subst (λ i. (keep_first fuel c ctx i rest w).0 ≡ ok tt) same kept,
      )
