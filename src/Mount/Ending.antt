-- ===== src/Mount/Ending.antt =====
-- The fuel of Umount.
use containerdosstore.Prelude.{ℕ, ◌<◌, ℤ, String, [], length, ◌≢◌}
use containerdosstore.Exec.{Attempt, failed, returned, exhausted, is_not_found}
use containerdosstore.Exec.Cases.{if_cases}
use containerdosstore.Exec.Keeps.{Keeps-attempt}
use containerdosstore.Services.{Services}
use containerdosstore.Services.Frame.{Keeps-call, frame_rules}
use containerdosstore.Services.Ends.{Answers, CallsAnswer}
use containerdosstore.OciStore.{OciStore, report}
use containerdosstore.Snapshots.Table.{Table, SnapshotLaws}
use containerdosstore.Snapshots.Chain.{is_zero}
use containerdosstore.Snapshots.Pruning.{TableFrame}
use containerdosstore.Snapshots.Ending.{
  Answers-call, Answers-attempt, Answers-log_at, Ends, Ends-after, Ends-chain, Ends-leased,
  Ends-guarded,
}
use containerdosstore.Mount.{chain_depth, check_lease_deleted, umount}
use containerdosstore.Mount.Umount.{check_lease_deleted-Steady}

module _ {S : Services} (c : OciStore S) (L : SnapshotLaws S (S.snapshot_service c.driver))
    (F : TableFrame L) (C : CallsAnswer S) where
  check_lease_deleted-Answers : (a : Attempt (Unit {0})) → Answers (check_lease_deleted {S = S} a)
  unfolding check_lease_deleted
  check_lease_deleted-Answers (returned x) w q = cc
  check_lease_deleted-Answers (failed e) w q =
      if_cases (λ p. p.0 ≢ exhausted) (is_not_found e) _ _ w (λ _ r. cc) (λ _ r. cc) q

  pub umount-Ends :
      (fuel : ℕ) (target key : String) (n : ℤ) (t : Table)
      → length t < fuel
      → Ends L t (umount fuel c target key n)
  unfolding umount
  umount-Ends fuel target key n t enough = Ends-guarded L t c _ (
      Ends-after L t _ _ (Answers-call _ (C.unmount_all target 0))
        (λ b. Keeps-call _ (F.frame.unmount_all target 0))
        (λ _ w h.
          if_cases (λ p. p.0 ≢ exhausted) (is_zero n) _ _ w (λ _ q. cc)
            (λ _.
              Ends-leased L t F C c [] (report "failed to create lease to umount snapshot: %v") _ _
                (λ e b. search frame_rules) (λ e. Answers-log_at _ _ _)
                (λ ctx.
                  Ends-after L t _ _ (Answers-attempt _ (Answers-call _ (C.delete_lease ctx key)))
                    (λ b. Keeps-attempt _ (Keeps-call _ (F.leases.delete_lease ctx key)))
                    (λ gone.
                      Ends-after L t _ _ (check_lease_deleted-Answers gone)
                        (check_lease_deleted-Steady c L F gone)
                        (λ _. Ends-chain L t ctx fuel key (chain_depth n) enough)))
                w h)))
