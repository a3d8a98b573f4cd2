-- ===== src/Mount/Released.antt =====
-- The lease of a mount after Umount.
use containerdosstore.Prelude.{
  ℕ, ℤ, String, true, false, Option, none, some, List, [], ◌++◌, ◌≡◌, ◌∙◌, refl, ap, if◌then◌else◌,
}
use containerdosstore.Exec.{
  Error, Exec, ok, Attempt, failed, returned, attempt, pure, is_not_found, ◌>>=◌,
}
use containerdosstore.Exec.Cases.{attempt-world, if_cases}
use containerdosstore.Exec.Inversion.{
  bind-ok, bind-world, attempt-ok, attempt-failed, on_error-ok, ok_injective,
}
use containerdosstore.Services.{Services, Leased}
use containerdosstore.Services.Frame.{Keeps-call, Keeps-shown, frame_rules}
use containerdosstore.Services.Leases.{LeaseLaws}
use containerdosstore.Services.Deletion.{
  without_id, is_held, without_id-append, without_id-free, DeletionLaws,
}
use containerdosstore.World.{World, call}
use containerdosstore.OciStore.{OciStore, leased, acquire, check_error, check_lease, report}
use containerdosstore.OciStore.Leasing.{KeepsLeases, acquire-Acquired, finish-held}
use containerdosstore.OciStore.Steady.{leased-ok, guarded-ok}
use containerdosstore.Snapshots.Chain.{is_zero, remove_snapshots_chain}
use containerdosstore.Snapshots.Leases.{remove_snapshots_chain-KeepsLeases}
use containerdosstore.Mount.{chain_depth, check_lease_deleted, umount_leased, umount}

module _ {S : Services} (c : OciStore S) (L : LeaseLaws S) (D : DeletionLaws L) where
  abbrev held : World S → List String
  held w = L.held w.services

  check_error-ok :
      (l0 : Leased S.Ctx S.Done) (x : Option Error) (l : Leased S.Ctx S.Done) (w : World S)
      → l0.error ≡ x
      → (check_error l0 x w).0 ≡ ok l
      → (l0 ≡ l) × (l0.error ≡ none)
  check_error-ok l0 none l w p e = (ok_injective l0 l e, p)
  check_error-ok l0 (some y) l w p e = cc

  -- A lease that was taken is new.
  acquire-fresh :
      (report : Error → Exec (World S) (Unit {0})) (w : World S) (l : Leased S.Ctx S.Done)
      (d : S.Done) (id : String)
      → (acquire c [] report w).0 ≡ ok l
      → l.done ≡ some d
      → is_held id (held w) ≡ true
      → is_held id (L.ids_of d) ≡ false
  unfolding acquire call
  acquire-fresh report w l d id e done there =
      let (inner, _) = on_error-ok (call (S.with_lease c.ctx []) >>= check_lease) report w l e in
      let (l0, e1, left) = bind-ok (call (S.with_lease c.ctx [])) check_lease w inner in
      let (same, no_error) = check_error-ok l0 l0.error l _ refl left in
      D.fresh c.ctx [] w.services l0 d id e1 no_error
        (ap (λ (x : Leased S.Ctx S.Done). x.done) same ∙ done) there

  module _ (ctx : Option S.Ctx) (key : String) (w : World S) where
    abbrev deletion : Exec (World S) (Attempt (Unit {0}))
    deletion = attempt (call (S.delete_lease ctx key))

    -- Deleted, or not there.
    held-deletion :
        (gone : Attempt (Unit {0})) (v : World S)
        → (deletion w).0 ≡ ok gone
        → (check_lease_deleted gone v).0 ≡ ok tt
        → held (deletion w).1 ≡ without_id key (held w)
    unfolding check_lease_deleted call
    held-deletion (returned u) v e checked =
        ap held (attempt-world (call (S.delete_lease ctx key)) w)
        ∙ D.deletes ctx key w.services (attempt-ok (call (S.delete_lease ctx key)) w u e)
    held-deletion (failed x) v e checked =
        if_cases (λ p. p.0 ≡ ok tt → held (deletion w).1 ≡ without_id key (held w)) (is_not_found x)
          (pure {W = World S} tt) _ v
          (λ absent _.
            ap held (attempt-world (call (S.delete_lease ctx key)) w)
            ∙ D.missing ctx key w.services x (attempt-failed (call (S.delete_lease ctx key)) w x e)
                absent)
          (λ _ q. cc) checked

  check_lease_deleted-KeepsLeases :
      (a : Attempt (Unit {0})) → KeepsLeases L (check_lease_deleted {S = S} a)
  unfolding check_lease_deleted
  check_lease_deleted-KeepsLeases (returned x) l = search frame_rules
  check_lease_deleted-KeepsLeases (failed e) l = search frame_rules

  module _ (fuel : ℕ) (key : String) (n : ℤ) where
    held-umount_leased :
        (ctx : Option S.Ctx) (w : World S)
        → (umount_leased fuel c key n ctx w).0 ≡ ok tt
        → held (umount_leased fuel c key n ctx w).1 ≡ without_id key (held w)
    held-umount_leased ctx w e =
        let first = attempt (call (S.delete_lease ctx key)) in
        let chain =
          remove_snapshots_chain fuel ctx (S.snapshot_service c.driver) key (chain_depth n) in
        let (gone, e1, left) = bind-ok first _ w e in
        let w1 = (first w).1 in
        let (u, e2, left') = bind-ok (check_lease_deleted gone) _ w1 left in
        let w2 = (check_lease_deleted gone w1).1 in
        ap held (
          bind-world first _ w gone e1 ∙ bind-world (check_lease_deleted gone) (λ _. chain) w1 u e2)
        ∙ Keeps-shown L.held chain
            (remove_snapshots_chain-KeepsLeases L fuel ctx _ key (chain_depth n)) w2
        ∙ Keeps-shown L.held (check_lease_deleted gone) (check_lease_deleted-KeepsLeases gone) w1
        ∙ held-deletion ctx key w gone w1 e1 e2

    -- The lease around the deletion comes and goes.
    held-leased :
        (warning : String) (w : World S)
        → let rep = report "failed to create lease to umount snapshot: %v" in
          is_held key (held w) ≡ true
          → (leased c [] rep warning (umount_leased fuel c key n) w).0 ≡ ok tt
          → held (leased c [] rep warning (umount_leased fuel c key n) w).1
            ≡ without_id key (held w)
    held-leased warning w there e =
        let rep = report "failed to create lease to umount snapshot: %v" in
        let (l, taken, ran, whole) =
          leased-ok c [] rep warning (umount_leased fuel c key n) w tt e in
        let w1 = (acquire c [] rep w).1 in
        let (d', done, now) =
          (acquire-Acquired L c [] rep (λ x b. search frame_rules) w).0 l taken in
        let new : is_held key (L.ids_of d') ≡ false =
          acquire-fresh rep w l d' key taken done there in
        let kept : held (umount_leased fuel c key n l.ctx w1).1
            ≡ L.ids_of d' ++ without_id key (held w) =
          held-umount_leased l.ctx w1 ran
          ∙ ap (without_id key) now
          ∙ without_id-append key (L.ids_of d') (held w)
          ∙ ap (λ x. x ++ without_id key (held w)) (without_id-free key (L.ids_of d') new) in
        ap held whole
        ∙ finish-held L l d' warning none (umount_leased fuel c key n l.ctx w1).1
            (without_id key (held w)) done kept

  after_unmount-held :
      (fuel : ℕ) (key : String) (n : ℤ) (w : World S)
      → is_zero n ≡ false
      → is_held key (held w) ≡ true
      → let m =
          if is_zero n
          then pure tt
          else leased c []
              (report "failed to create lease to umount snapshot: %v")
              "could not remove lease on umount snapshot operation"
              (umount_leased fuel c key n) in
        (m w).0 ≡ ok tt → held (m w).1 ≡ without_id key (held w)
  after_unmount-held fuel key n w some_n there =
      if_cases (λ p. p.0 ≡ ok tt → held p.1 ≡ without_id key (held w)) (is_zero n)
        (pure {W = World S} tt) _ w (λ e q. cc) (λ _. held-leased fuel key n _ w there)

  -- If no call of `done` fails, Umount that is told to remove snapshots and returns no error gives back
  -- the lease of the key, if that is held, and its own, and leaves every other one as it was.
  pub held-umount :
      (fuel : ℕ) (target key : String) (n : ℤ) (w : World S)
      → is_zero n ≡ false
      → is_held key (L.held w.services) ≡ true
      → (umount fuel c target key n w).0 ≡ ok tt
      → L.held (umount fuel c target key n w).1.services ≡ without_id key (L.held w.services)
  unfolding umount
  held-umount fuel target key n w some_n there e =
      let unmount = call (S.unmount_all target 0) in
      let (_, run, same) = guarded-ok c _ w tt e in
      let (u, e1, left) = bind-ok unmount _ w run in
      let w1 = (unmount w).1 in
      let h1 : held w1 ≡ held w =
        Keeps-shown L.held unmount (λ b. Keeps-call _ (L.frame.unmount_all target 0)) w in
      ap held (same ∙ bind-world unmount _ w u e1)
      ∙ after_unmount-held fuel key n w1 some_n (ap (is_held key) h1 ∙ there) left
      ∙ ap (without_id key) h1
