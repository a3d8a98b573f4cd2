-- ===== src/OciStore/Steady.antt =====
-- The lease around a method, as seen by a view of the services that no lease call changes, and where a
-- method that returns a value comes from.
use containerdosstore.Prelude.{
  String, Bool, true, false, Option, none, some, List, ◌≡◌, ◌∙◌, refl, if◌then◌else◌,
}
use containerdosstore.Exec.{Error, message, ok, Exec, Attempt, failed, throw}
use containerdosstore.Exec.Inversion.{bind-ok, bind-world, defer-ok}
use containerdosstore.Exec.Keeps.{Keeps, Keeps-on_error, Keeps-bind, Keeps-attempt, Keeps-defer}
use containerdosstore.Services.{Services, LeaseOpt, Leased}
use containerdosstore.Services.Frame.{Shows, LeaseFrame, frame_rules, Keeps-call}
use containerdosstore.World.{World}
use containerdosstore.OciStore.{
  OciStore, acquire, leased_ret, leased, finish, run_done, run_done_of, check_error, warn_unless,
  guarded, is_initiated, miss_init_err_msg,
}

module _ {S : Services} {B : Type 0} {f : S.State → B} (F : LeaseFrame S f) (b : B) where
  pub check_error-Shows :
      (l : Leased S.Ctx S.Done) (x : Option Error) → Keeps (Shows {S = S} f b) (check_error l x)
  check_error-Shows l none = search frame_rules
  check_error-Shows l (some e) = search frame_rules

  pub acquire-Shows :
      (c : OciStore S) (os : List LeaseOpt) (report : Error → Exec (World S) (Unit {0}))
      → ((e : Error) → Keeps (Shows f b) (report e))
      → Keeps (Shows f b) (acquire c os report)
  unfolding acquire
  acquire-Shows c os report kr =
      Keeps-on_error _ report
        (Keeps-bind _ _ (λ l. check_error-Shows l l.error) (Keeps-call _ (F.with_lease c.ctx os)))
        kr

  run_done_of-Shows :
      (d : Option S.Done) (ctx : Option S.Ctx) → Keeps (Shows {S = S} f b) (run_done_of d ctx)
  run_done_of-Shows none ctx = search frame_rules
  run_done_of-Shows (some d) ctx = search (frame_rules, F.release)

  warn_unless-Shows :
      (warning : String) (ret : Option Error) (a : Attempt (Unit {0}))
      → Keeps (Shows {S = S} f b) (warn_unless warning ret a)
  warn_unless-Shows warning none (failed e) = search frame_rules
  warn_unless-Shows warning _ _ = search frame_rules

  pub finish-Shows :
      (l : Leased S.Ctx S.Done) (warning : String) (ret : Option Error)
      → Keeps (Shows {S = S} f b) (finish l warning ret)
  unfolding finish run_done
  finish-Shows l warning ret =
      Keeps-bind _ _ (λ a. warn_unless-Shows warning ret a)
        (Keeps-attempt _ (run_done_of-Shows l.done l.ctx))

  pub leased-Shows :
      {A : Type 0} (c : OciStore S) (os : List LeaseOpt)
      (report : Error → Exec (World S) (Unit {0})) (warning : String)
      (body : Option S.Ctx → Exec (World S) A)
      → ((e : Error) → Keeps (Shows f b) (report e))
      → ((ctx : Option S.Ctx) → Keeps (Shows f b) (body ctx))
      → Keeps (Shows f b) (leased c os report warning body)
  unfolding leased leased_ret
  leased-Shows c os report warning body kr kb =
      Keeps-bind _ _ (λ l. Keeps-defer _ _ _ (kb l.ctx) (λ e. finish-Shows l warning e))
        (acquire-Shows c os report kr)

module _ {S : Services} {A : Type 0} where
  -- A method that returns a value returns what its body returned, under a lease, and leaves what the
  -- deferred function left.
  pub leased-ok :
      (c : OciStore S) (os : List LeaseOpt) (report : Error → Exec (World S) (Unit {0}))
      (warning : String) (body : Option S.Ctx → Exec (World S) A) (w : World S) (a : A)
      → (leased c os report warning body w).0 ≡ ok a
      → (l : Leased S.Ctx S.Done) × ((acquire c os report w).0 ≡ ok l)
        × ((body l.ctx (acquire c os report w).1).0 ≡ ok a)
        × ((leased c os report warning body w).1
            ≡ (finish l warning none (body l.ctx (acquire c os report w).1).1).1)
  unfolding leased leased_ret
  leased-ok c os report warning body w a e =
      let (l, taken, left) = bind-ok (acquire c os report) _ w e in
      let (ran, world) = defer-ok (λ _. none) (body l.ctx) (finish l warning) _ a left in
      (l, taken, ran, bind-world (acquire c os report) _ w l taken ∙ world)

  if_ok :
      (b : Bool) (m : Exec (World S) A) (w : World S) (e : Error) (a : A)
      → ((if b then m else throw e) w).0 ≡ ok a
      → (b ≡ true) × ((m w).0 ≡ ok a) × (((if b then m else throw e) w).1 ≡ (m w).1)
  if_ok true m w e a q = (refl, q, refl)
  if_ok false m w e a q = cc

  -- A guarded method that returns a value is on a store that is set up, and is what it guards.
  pub guarded-ok :
      (c : OciStore S) (m : Exec (World S) A) (w : World S) (a : A)
      → (guarded c m w).0 ≡ ok a
      → (is_initiated c ≡ true) × ((m w).0 ≡ ok a) × ((guarded c m w).1 ≡ (m w).1)
  unfolding guarded
  guarded-ok c m w a e = if_ok (is_initiated c) m w (message miss_init_err_msg) a e
