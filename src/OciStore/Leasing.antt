-- ===== src/OciStore/Leasing.antt =====
-- The lease that a method takes, and what is held when the method has ended.
use containerdosstore.Prelude.{String, Option, none, some, List, ◌++◌, ◌≡◌, ◌≢◌, ◌∙◌, refl, ap, sym}
use containerdosstore.Exec.{
  Error, Outcome, ok, err, panic, exhausted, Exec, Attempt, failed, returned, after_defer, ◌>>=◌,
}
use containerdosstore.Exec.Cases.{bind_cases, try_cases, on_error_cases, defer_world}
use containerdosstore.Exec.Inversion.{ok_injective}
use containerdosstore.Exec.Keeps.{Keeps}
use containerdosstore.Services.{Services, LeaseOpt, Leased}
use containerdosstore.Services.Frame.{Shows, frame_rules}
use containerdosstore.Services.Leases.{LeaseLaws}
use containerdosstore.World.{World, call}
use containerdosstore.OciStore.{
  OciStore, acquire, leased_ret, leased, finish, run_done, run_done_of, check_error, check_lease,
  warn_unless, guarded,
}
use mathlib.Core.Option.{some-injective}

after_defer-ne-ok {ℓ} :
    {A B : Type ℓ} (e : Error) (r : Outcome B) (a : A) → after_defer (err e) r ≢ ok a
after_defer-ne-ok e (ok b) a q = cc
after_defer-ne-ok e (err x) a q = cc
after_defer-ne-ok e panic a q = cc
after_defer-ne-ok e exhausted a q = cc

module _ {S : Services} (L : LeaseLaws S) where
  abbrev pub KeepsLeases : {A : Type 0} → Exec (World S) A → Type 0
  KeepsLeases m = (l : List String) → Keeps (Shows {S = S} L.held l) m

  -- What taking a lease from a world with the leases h comes to.
  abbrev pub Acquired : List String → Outcome (Leased S.Ctx S.Done) × World S → Type 0
  Acquired h p =
      ((l : Leased S.Ctx S.Done)
        → p.0 ≡ ok l
        → (d : S.Done) × (l.done ≡ some d) × (L.held p.1.services ≡ L.ids_of d ++ h))
      × (((l : Leased S.Ctx S.Done) → p.0 ≢ ok l) → L.held p.1.services ≡ h)

  not-Acquired :
      (h : List String) (r : Outcome (Leased S.Ctx S.Done)) (w : World S)
      → ((l : Leased S.Ctx S.Done) → r ≢ ok l)
      → L.held w.services ≡ h
      → Acquired h (r, w)
  not-Acquired h r w no_lease same = (λ l e. absurd (no_lease l e), λ _. same)

  check_error-Acquired :
      (h : List String) (l : Leased S.Ctx S.Done) (w : World S) (x : Option Error)
      → l.error ≡ x
      → ((d : S.Done) × (l.done ≡ some d) × (L.held w.services ≡ L.ids_of d ++ h))
      → ((e : Error) → l.error ≡ some e → L.held w.services ≡ h)
      → Acquired h (check_error l x w)
  check_error-Acquired h l w none p (d, done, held) lost = (
    λ m q. (d, ap (λ (k : Leased S.Ctx S.Done). k.done) (ok_injective m l (sym q)) ∙ done, held),
    λ never. absurd (never l refl),
  )
  check_error-Acquired h l w (some y) p took lost = not-Acquired h (err y) w (λ m q. cc) (lost y p)

  pub take-Acquired :
      (c : OciStore S) (os : List LeaseOpt) (w : World S)
      → Acquired (L.held w.services) ((call (S.with_lease c.ctx os) >>= check_lease) w)
  unfolding call
  take-Acquired c os w =
      let h = L.held w.services in
      let w1 : World S = record w { services = (S.with_lease c.ctx os w.services).1 } in
      let none_held =
        λ (no : (l : Leased S.Ctx S.Done) → (S.with_lease c.ctx os w.services).0 ≢ ok l).
          L.with_lease_fails c.ctx os w.services no in
      bind_cases (Acquired h) (call (S.with_lease c.ctx os)) check_lease w
        (λ l e.
          check_error-Acquired h l w1 l.error refl (L.with_lease c.ctx os w.services l e)
            (λ x p. L.with_lease_error c.ctx os w.services l x e p))
        (λ x e. not-Acquired h (err x) w1 (λ l q. cc) (none_held (λ l q. cc)))
        (λ e. not-Acquired h (panic) w1 (λ l q. cc) (none_held (λ l q. cc)))
        (λ e. not-Acquired h (exhausted) w1 (λ l q. cc) (none_held (λ l q. cc)))

  pub acquire-Acquired :
      (c : OciStore S) (os : List LeaseOpt) (report : Error → Exec (World S) (Unit {0}))
      → ((e : Error) → KeepsLeases (report e))
      → (w : World S) → Acquired (L.held w.services) (acquire c os report w)
  unfolding acquire
  acquire-Acquired c os report kr w =
      let h = L.held w.services in
      let m = call (S.with_lease c.ctx os) >>= check_lease in
      let taken : Acquired h (m w) = take-Acquired c os w in
      let w1 = (m w).1 in
      on_error_cases (Acquired h) m report w
        (λ l e. (λ k q. taken.0 k (e ∙ q), λ no. absurd (no l refl)))
        (λ x e.
          not-Acquired h (after_defer (err x) (report x w1).0) (report x w1).1
            (λ l q. after_defer-ne-ok x _ l q)
            ((kr x h).at (m w).1 (record { shown = taken.1 (λ l q. cc) })).shown)
        (λ e. not-Acquired h panic w1 (λ l q. cc) (taken.1 (λ l q. cc)))
        (λ e. not-Acquired h exhausted w1 (λ l q. cc) (taken.1 (λ l q. cc)))

  run_done_of-held :
      (o : Option S.Done) (ctx : Option S.Ctx) (d : S.Done) (w : World S) (h : List String)
      → o ≡ some d
      → L.held w.services ≡ L.ids_of d ++ h
      → L.held (run_done_of o ctx w).1.services ≡ h
  unfolding call
  run_done_of-held none ctx d w h e held = cc
  run_done_of-held (some x) ctx d w h e held =
      let is = held ∙ ap (λ (y : S.Done). L.ids_of y ++ h) (sym (some-injective x d e)) in
      L.release x ctx w.services h is (L.done_succeeds x ctx w.services h is)

  warn_unless-KeepsLeases :
      (warning : String) (ret : Option Error) (a : Attempt (Unit {0}))
      → KeepsLeases (warn_unless warning ret a)
  warn_unless-KeepsLeases warning none (failed e) l = search frame_rules
  warn_unless-KeepsLeases warning _ _ l = search frame_rules

  pub finish-held :
      (l : Leased S.Ctx S.Done) (d : S.Done) (warning : String) (ret : Option Error) (w : World S)
      (h : List String)
      → l.done ≡ some d
      → L.held w.services ≡ L.ids_of d ++ h
      → L.held (finish l warning ret w).1.services ≡ h
  unfolding finish run_done
  finish-held l d warning ret w h e held =
      let given : L.held (run_done_of l.done l.ctx w).1.services ≡ h =
        run_done_of-held l.done l.ctx d w h e held in
      let w1 = (run_done_of l.done l.ctx w).1 in
      try_cases (λ p. L.held p.1.services ≡ h) (run_done_of l.done l.ctx) (warn_unless warning ret)
        w
        (λ u q.
          ((warn_unless-KeepsLeases warning ret (returned u) h).at w1
            (record { shown = given })).shown)
        (λ x q.
          ((warn_unless-KeepsLeases warning ret (failed x) h).at w1
            (record { shown = given })).shown)
        (λ q. given) (λ q. given)

  -- A method that takes a lease holds the same leases afterwards, whatever its outcome, if `done` does
  -- not fail.
  pub leased_ret-held :
      {A : Type 0} (ret : A → Option Error) (c : OciStore S) (os : List LeaseOpt)
      (report : Error → Exec (World S) (Unit {0})) (warning : String)
      (body : Option S.Ctx → Exec (World S) A)
      → ((e : Error) → KeepsLeases (report e))
      → ((ctx : Option S.Ctx) → KeepsLeases (body ctx))
      → (w : World S)
      → L.held (leased_ret ret c os report warning body w).1.services ≡ L.held w.services
  unfolding leased_ret
  leased_ret-held ret c os report warning body kr kb w =
      let h = L.held w.services in
      let got : Acquired h (acquire c os report w) = acquire-Acquired c os report kr w in
      let w1 = (acquire c os report w).1 in
      bind_cases (λ p. L.held p.1.services ≡ h) (acquire c os report) _ w
        (λ l e.
          let (d, done, held) = got.0 l e in
          let after = (body l.ctx w1).1 in
          let kept : L.held after.services ≡ L.ids_of d ++ h =
            ((kb l.ctx (L.ids_of d ++ h)).at w1 (record { shown = held })).shown in
          defer_world (λ v. L.held v.services ≡ h) ret (body l.ctx) (finish l warning) w1
            (λ x. finish-held l d warning x after h done kept))
        (λ x e. got.1 (λ l q. cc)) (λ e. got.1 (λ l q. cc)) (λ e. got.1 (λ l q. cc))

  -- The same as rules.
  pub leased_ret-KeepsLeases :
      {A : Type 0} (ret : A → Option Error) (c : OciStore S) (os : List LeaseOpt)
      (report : Error → Exec (World S) (Unit {0})) (warning : String)
      (body : Option S.Ctx → Exec (World S) A)
      → ((e : Error) → KeepsLeases (report e))
      → ((ctx : Option S.Ctx) → KeepsLeases (body ctx))
      → KeepsLeases (leased_ret ret c os report warning body)
  leased_ret-KeepsLeases ret c os report warning body kr kb l = record {
    at = λ w h. record { shown = leased_ret-held ret c os report warning body kr kb w ∙ h.shown };
  }

  pub leased-KeepsLeases :
      {A : Type 0} (c : OciStore S) (os : List LeaseOpt)
      (report : Error → Exec (World S) (Unit {0})) (warning : String)
      (body : Option S.Ctx → Exec (World S) A)
      → ((e : Error) → KeepsLeases (report e))
      → ((ctx : Option S.Ctx) → KeepsLeases (body ctx))
      → KeepsLeases (leased c os report warning body)
  unfolding leased
  leased-KeepsLeases c os report warning body kr kb =
      leased_ret-KeepsLeases (λ _. none) c os report warning body kr kb

  pub guarded-KeepsLeases :
      {A : Type 0} (c : OciStore S) (m : Exec (World S) A)
      → KeepsLeases m
      → KeepsLeases (guarded c m)
  unfolding guarded
  guarded-KeepsLeases c m km l = search (frame_rules, km)

  -- Back from the rule.
  pub KeepsLeases-held :
      {A : Type 0} (m : Exec (World S) A)
      → KeepsLeases m
      → (w : World S) → L.held (m w).1.services ≡ L.held w.services
  KeepsLeases-held m km w = ((km (L.held w.services)).at w (record { shown = refl })).shown
