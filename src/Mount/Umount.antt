-- ===== src/Mount/Umount.antt =====
-- What Umount removes from the table of snapshots.
use containerdosstore.Prelude.{
  ℕ, zero, suc, ◌+◌, ◌≤◌, ◌<◌, ℤ, pos, negsuc, String, Option, none, [], ◌≡◌, ◌∙◌, refl, sym, ap,
  arith, length, if◌then◌else◌, subst,
}
use containerdosstore.Exec.{Attempt, failed, returned, attempt, ok, pure}
use containerdosstore.Exec.Cases.{if_cases}
use containerdosstore.Exec.Inversion.{bind-ok, bind-world}
use containerdosstore.Exec.Keeps.{Keeps-attempt}
use containerdosstore.Services.{Services}
use containerdosstore.Services.Frame.{frame_rules, Keeps-call, Keeps-shown}
use containerdosstore.World.{World, call}
use containerdosstore.OciStore.{OciStore, leased, acquire, finish, report}
use containerdosstore.OciStore.Steady.{leased-ok, guarded-ok, acquire-Shows, finish-Shows}
use containerdosstore.Snapshots.Table.{Table, SnapshotLaws}
use containerdosstore.Snapshots.Chain.{is_zero, remove_snapshots_chain}
use containerdosstore.Snapshots.Prune.{IsUnique, length-prune}
use containerdosstore.Snapshots.Description.{prune_all}
use containerdosstore.Snapshots.Pruning.{
  TableFrame, Steady, Pruned, Prunes, Prunes-Steady, Prunes-after, Prunes-chain, Prunes-leased,
  Prunes-guarded,
}
use containerdosstore.Snapshots.Removal.{table-remove_snapshots_chain}
use containerdosstore.Mount.{chain_depth, check_lease_deleted, umount_leased, umount}

-- What Umount is to leave of the table, told to remove no snapshot, some number, or all.
abbrev pub umounted : Table → String → ℤ → Table
umounted t key (pos zero) = t
umounted t key (pos (suc n)) = prune_all t key (pos n)
umounted t key (negsuc n) = prune_all t key (negsuc 0)

module _ {S : Services} (c : OciStore S) (L : SnapshotLaws S (S.snapshot_service c.driver))
    (F : TableFrame L) where
  pub check_lease_deleted-Steady :
      (a : Attempt (Unit {0})) → Steady L (check_lease_deleted {S = S} a)
  unfolding check_lease_deleted
  check_lease_deleted-Steady (returned x) t = search frame_rules
  check_lease_deleted-Steady (failed e) t = search frame_rules

  module _ (fuel : ℕ) (target key : String) (n : ℤ) (t : Table) where
    -- From the table t, Umount leaves what some rounds of `prune` from the key leave of it.
    pub umount-Prunes : Prunes L (λ k. k ≡ key) t (chain_depth n) (umount fuel c target key n)
    unfolding umount
    umount-Prunes =
        let P = λ (k : String). k ≡ key in
        let d = chain_depth n in
        Prunes-guarded L P t d key refl F c _ (
          Prunes-after L P t d key refl _ _ (λ b. Keeps-call _ (F.frame.unmount_all target 0))
            (λ _ w h.
              if_cases (λ p. Pruned L P t d p.1) (is_zero n) _ _ w
                (λ _.
                  Prunes-Steady L P t d key refl (pure {W = World S} tt) (λ b. search frame_rules) w
                    h)
                (λ _.
                  Prunes-leased L P t d key refl F c []
                    (report "failed to create lease to umount snapshot: %v") _ _
                    (λ e b. search frame_rules)
                    (λ ctx.
                      Prunes-after L P t d key refl _ _
                        (λ b. Keeps-attempt _ (Keeps-call _ (F.leases.delete_lease ctx key)))
                        (λ gone.
                          Prunes-after L P t d key refl _ _ (check_lease_deleted-Steady gone)
                            (λ _. Prunes-chain L P t d key refl fuel ctx)))
                    w h)))

  -- Umount that is told to remove n snapshots, n not 0, takes away at most n, whatever its outcome, if
  -- names are unique in the table.
  pub length-umount :
      (fuel : ℕ) (target key : String) (n : ℕ) (w : World S)
      → IsUnique (L.table w.services)
      → 0 < n
      → length (L.table w.services)
        ≤ length (L.table (umount fuel c target key (pos n) w).1.services) + n
  length-umount fuel target key zero w u h = absurd (omega arith)
  length-umount fuel target key (suc n) w u h =
      let t = L.table w.services in
      let p = umount-Prunes fuel target key (pos (suc n)) t w refl in
      omega (arith, ap length p.pruned, length-prune p.rounds t p.key n u)

  module _ (fuel : ℕ) (ctx : Option S.Ctx) (key : String) (n : ℤ) where
    -- The lease of the key is deleted first, and the chain removed then.
    umount_leased-ok :
        (w : World S)
        → length (L.table w.services) < fuel
        → (umount_leased fuel c key n ctx w).0 ≡ ok tt
        → L.table (umount_leased fuel c key n ctx w).1.services
          ≡ prune_all (L.table w.services) key (chain_depth n)
    umount_leased-ok w enough e =
        let first = attempt (call (S.delete_lease ctx key)) in
        let (gone, e1, left) = bind-ok first _ w e in
        let w1 = (first w).1 in
        let (u, e2, left') = bind-ok (check_lease_deleted gone) _ w1 left in
        let w2 = (check_lease_deleted gone w1).1 in
        let t1 : L.table w1.services ≡ L.table w.services =
          Keeps-shown L.table first
            (λ b. Keeps-attempt _ (Keeps-call _ (F.leases.delete_lease ctx key))) w in
        let t2 : L.table w2.services ≡ L.table w.services =
          Keeps-shown L.table (check_lease_deleted gone) (check_lease_deleted-Steady gone) w1
          ∙ t1 in
        let whole : (umount_leased fuel c key n ctx w).1
            ≡ (remove_snapshots_chain fuel ctx (S.snapshot_service c.driver) key (chain_depth n)
                w2).1 =
          bind-world first _ w gone e1 ∙ bind-world (check_lease_deleted gone) _ w1 u e2 in
        ap (λ (v : World S). L.table v.services) whole
        ∙ table-remove_snapshots_chain L ctx fuel key (chain_depth n) w2
            (subst (λ x. length x < fuel) (sym t2) enough) left'
        ∙ ap (λ (x : Table). prune_all x key (chain_depth n)) t2

  leased_remove-ok :
      (fuel : ℕ) (key : String) (n : ℤ) (format warning : String) (w : World S)
      → length (L.table w.services) < fuel
      → (leased c [] (report format) warning (umount_leased fuel c key n) w).0 ≡ ok tt
      → L.table (leased c [] (report format) warning (umount_leased fuel c key n) w).1.services
        ≡ prune_all (L.table w.services) key (chain_depth n)
  leased_remove-ok fuel key n format warning w enough e =
      let take = acquire c [] (report format) in
      let body = λ (ctx : Option S.Ctx). umount_leased fuel c key n ctx in
      let (l, taken, ran, whole) = leased-ok c [] (report format) warning body w tt e in
      let w1 = (take w).1 in
      let t1 : L.table w1.services ≡ L.table w.services =
        Keeps-shown L.table take
          (λ b. acquire-Shows F.leases b c [] (report format) (λ x. search frame_rules)) w in
      ap (λ (v : World S). L.table v.services) whole
      ∙ Keeps-shown L.table (finish l warning none) (λ b. finish-Shows F.leases b l warning none)
          (body l.ctx w1).1
      ∙ umount_leased-ok fuel l.ctx key n w1 (subst (λ x. length x < fuel) (sym t1) enough) ran
      ∙ ap (λ (x : Table). prune_all x key (chain_depth n)) t1

  after_unmount-ok :
      (fuel : ℕ) (target key : String) (n : ℤ) (w : World S)
      → length (L.table w.services) < fuel
      → let m =
          if is_zero n
          then pure tt
          else leased c []
              (report "failed to create lease to umount snapshot: %v")
              "could not remove lease on umount snapshot operation"
              (umount_leased fuel c key n) in
        (m w).0 ≡ ok tt → L.table (m w).1.services ≡ umounted (L.table w.services) key n
  after_unmount-ok fuel target key (pos zero) w enough e = refl
  after_unmount-ok fuel target key (pos (suc n)) w enough e =
      leased_remove-ok fuel key (pos (suc n)) _ _ w enough e
  after_unmount-ok fuel target key (negsuc n) w enough e =
      leased_remove-ok fuel key (negsuc n) _ _ w enough e

  -- Umount that returns no error, given more fuel than there are snapshots, leaves the table as it is
  -- where it is told to remove none, and else as `prune_all` describes: from the key on with n - 1
  -- parents where it is told to remove n, and with all parents where n is negative.
  pub table-umount :
      (fuel : ℕ) (target key : String) (n : ℤ) (w : World S)
      → length (L.table w.services) < fuel
      → (umount fuel c target key n w).0 ≡ ok tt
      → L.table (umount fuel c target key n w).1.services ≡ umounted (L.table w.services) key n
  unfolding umount
  table-umount fuel target key n w enough e =
      let unmount = call (S.unmount_all target 0) in
      let (_, run, same) = guarded-ok c _ w tt e in
      let (u, e1, left) = bind-ok unmount _ w run in
      let w1 = (unmount w).1 in
      let t1 : L.table w1.services ≡ L.table w.services =
        Keeps-shown L.table unmount (λ b. Keeps-call _ (F.frame.unmount_all target 0)) w in
      ap (λ (v : World S). L.table v.services) (same ∙ bind-world unmount _ w u e1)
      ∙ after_unmount-ok fuel target key n w1 (subst (λ x. length x < fuel) (sym t1) enough) left
      ∙ ap (λ (x : Table). umounted x key n) t1
