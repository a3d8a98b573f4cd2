-- ===== src/Snapshots/Ending.antt =====
-- Functions that do not run out of fuel on a table of snapshots: rules for those that remove one chain
-- of snapshots among calls that leave the table alone.
use containerdosstore.Prelude.{
  ℕ, ◌<◌, ℤ, String, Option, none, some, List, length, ◌≡◌, ◌≢◌, ◌∙◌, refl, subst, sym,
}
use containerdosstore.Exec.{
  Error, Outcome, ok, err, panic, exhausted, Exec, Attempt, failed, returned, attempt, after_defer,
  defer, on_error, ◌>>=◌,
}
use containerdosstore.Exec.Cases.{bind_cases, attempt_cases, defer_cases, on_error_cases, if_cases}
use containerdosstore.Services.{Services, LeaseOpt, Leased}
use containerdosstore.Services.Frame.{Keeps-shown}
use containerdosstore.Services.Ends.{Answers, CallsAnswer}
use containerdosstore.World.{World, Level, call, log_at}
use containerdosstore.OciStore.{
  OciStore, acquire, leased_ret, leased, finish, guarded, is_initiated, check_error, run_done,
  run_done_of, warn_unless,
}
use containerdosstore.OciStore.Steady.{acquire-Shows}
use containerdosstore.Snapshots.Table.{Table, SnapshotLaws}
use containerdosstore.Snapshots.Chain.{remove_snapshots_chain}
use containerdosstore.Snapshots.Pruning.{TableFrame, Steady}
use containerdosstore.Snapshots.Removal.{remove_snapshots_chain-ends}

after_defer-ne-exhausted :
    {A B : Type 0} (r : Outcome A) (q : Outcome B)
    → r ≢ exhausted
    → q ≢ exhausted
    → after_defer r q ≢ exhausted
after_defer-ne-exhausted r (ok b) h k e = h e
after_defer-ne-exhausted r (err x) h k e = h e
after_defer-ne-exhausted r panic h k e = cc
after_defer-ne-exhausted r exhausted h k e = absurd (k refl)

module _ {S : Services} {A B : Type 0} where
  Answers-bind :
      (m : Exec (World S) A) (f : A → Exec (World S) B)
      → Answers m
      → ((a : A) → Answers (f a))
      → Answers (m >>= f)
  Answers-bind m f km kf w =
      bind_cases (λ p. p.0 ≢ exhausted) m f w (λ a _. kf a (m w).1) (λ e _ q. cc) (λ _ q. cc)
        (λ e _. km w e)

module _ {S : Services} where
  pub Answers-attempt : {A : Type 0} (m : Exec (World S) A) → Answers m → Answers (attempt m)
  Answers-attempt m km w =
      attempt_cases (λ p. p.0 ≢ exhausted) m w (λ a _ q. cc) (λ e _ q. cc) (λ _ q. cc)
        (λ e _. km w e)

  pub Answers-call : {A : Type 0} (m : Exec S.State A) → Answers m → Answers (call {S = S} m)
  unfolding call
  Answers-call m km w = km w.services

  pub Answers-log_at :
      (level : Level) (format : String) (args : List String)
      → Answers (log_at {S = S} level format args)
  unfolding log_at
  Answers-log_at level format args w q = cc

  -- What comes with the lease
  check_error-Answers :
      (l : Leased S.Ctx S.Done) (x : Option Error) → Answers (check_error {S = S} l x)
  check_error-Answers l none w q = cc
  check_error-Answers l (some e) w q = cc

  run_done_of-Answers :
      (C : CallsAnswer S) (d : Option S.Done) (ctx : Option S.Ctx)
      → Answers (run_done_of {S = S} d ctx)
  run_done_of-Answers C none ctx w = λ q. cc
  run_done_of-Answers C (some d) ctx w = Answers-call _ (C.release d ctx) w

  warn_unless-Answers :
      (warning : String) (ret : Option Error) (a : Attempt (Unit {0}))
      → Answers (warn_unless {S = S} warning ret a)
  warn_unless-Answers warning none (failed e) w q = Answers-log_at _ _ _ w q
  warn_unless-Answers warning none (returned x) w q = cc
  warn_unless-Answers warning (some x) (failed e) w q = cc
  warn_unless-Answers warning (some x) (returned y) w q = cc

  finish-Answers :
      (C : CallsAnswer S) (l : Leased S.Ctx S.Done) (warning : String) (ret : Option Error)
      → Answers (finish {S = S} l warning ret)
  unfolding finish run_done
  finish-Answers C l warning ret =
      Answers-bind _ _ (Answers-attempt _ (run_done_of-Answers C l.done l.ctx))
        (λ a. warn_unless-Answers warning ret a)

module _ {S : Services} {A B : Type 0} where
  Answers-on_error :
      (m : Exec (World S) A) (report : Error → Exec (World S) B)
      → Answers m
      → ((e : Error) → Answers (report e))
      → Answers (on_error m report)
  Answers-on_error m report km kr w =
      on_error_cases (λ p. p.0 ≢ exhausted) m report w (λ a _ q. cc)
        (λ e _. after_defer-ne-exhausted (err e) _ (λ q. cc) (kr e (m w).1)) (λ _ q. cc)
        (λ e _. km w e)

module _ {S : Services} {sn : S.Snapshotter} (L : SnapshotLaws S sn) (t : Table) where
  -- Started on the table t, a function does not run out of fuel.
  abbrev pub Ends : {A : Type 0} → Exec (World S) A → Type 0
  Ends m = (w : World S) → L.table w.services ≡ t → (m w).0 ≢ exhausted

  module _ {A B : Type 0} where
    pub Ends-after :
        (m : Exec (World S) A) (f : A → Exec (World S) B)
        → Answers m
        → Steady L m
        → ((a : A) → Ends (f a))
        → Ends (m >>= f)
    Ends-after m f km same kf w h =
        bind_cases (λ p. p.0 ≢ exhausted) m f w
          (λ a _. kf a (m w).1 (Keeps-shown L.table m same w ∙ h)) (λ e _ q. cc) (λ _ q. cc)
          (λ e _. km w e)

    pub Ends-before :
        (m : Exec (World S) A) (f : A → Exec (World S) B)
        → Ends m
        → ((a : A) → Answers (f a))
        → Ends (m >>= f)
    Ends-before m f km kf w h =
        bind_cases (λ p. p.0 ≢ exhausted) m f w (λ a _. kf a (m w).1) (λ e _ q. cc) (λ _ q. cc)
          (λ e _. km w h e)

    pub Ends-on_error :
        (m : Exec (World S) A) (report : Error → Exec (World S) B)
        → Ends m
        → ((e : Error) → Answers (report e))
        → Ends (on_error m report)
    Ends-on_error m report km kr w h =
        on_error_cases (λ p. p.0 ≢ exhausted) m report w (λ a _ q. cc)
          (λ e _. after_defer-ne-exhausted (err e) _ (λ q. cc) (kr e (m w).1)) (λ _ q. cc)
          (λ e _. km w h e)

    Ends-defer :
        (ret : A → Option Error) (m : Exec (World S) A) (cleanup : Option Error → Exec (World S) B)
        → Ends m
        → ((e : Option Error) → Answers (cleanup e))
        → Ends (defer ret m cleanup)
    Ends-defer ret m cleanup km kc w h =
        defer_cases (λ p. p.0 ≢ exhausted) ret m cleanup w
          (λ a _. after_defer-ne-exhausted (ok a) _ (λ q. cc) (kc _ _))
          (λ e _. after_defer-ne-exhausted (err e) _ (λ q. cc) (kc _ _))
          (λ _. after_defer-ne-exhausted panic _ (λ q. cc) (kc _ _)) (λ e _. km w h e)

  pub Ends-chain :
      (ctx : Option S.Ctx) (fuel : ℕ) (key : String) (d : ℤ)
      → length t < fuel
      → Ends (remove_snapshots_chain fuel ctx sn key d)
  Ends-chain ctx fuel key d enough w h =
      remove_snapshots_chain-ends L ctx fuel key d w (subst (λ x. length x < fuel) (sym h) enough)

  module _ (F : TableFrame L) (C : CallsAnswer S) {A : Type 0} where
    pub Ends-leased :
        (c : OciStore S) (os : List LeaseOpt) (report : Error → Exec (World S) (Unit {0}))
        (warning : String) (body : Option S.Ctx → Exec (World S) A)
        → ((e : Error) → Steady L (report e))
        → ((e : Error) → Answers (report e))
        → ((ctx : Option S.Ctx) → Ends (body ctx))
        → Ends (leased c os report warning body)
    unfolding leased leased_ret acquire
    Ends-leased c os report warning body sr kr kb =
        Ends-after (acquire c os report) _
          (λ w.
            Answers-on_error _ report
              (Answers-bind _ _ (Answers-call _ (C.with_lease c.ctx os))
                (λ l. check_error-Answers l l.error))
              kr w)
          (λ b. acquire-Shows F.leases b c os report (λ e. sr e b))
          (λ l. Ends-defer _ (body l.ctx) _ (kb l.ctx) (λ e. finish-Answers C l warning e))

  pub Ends-guarded :
      {A : Type 0} (c : OciStore S) (m : Exec (World S) A) → Ends m → Ends (guarded c m)
  unfolding guarded
  Ends-guarded c m km w h =
      if_cases (λ p. p.0 ≢ exhausted) (is_initiated c) m _ w (λ _. km w h) (λ _ q. cc)
