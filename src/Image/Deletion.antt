-- ===== src/Image/Deletion.antt =====
-- What Delete leaves of the images and of the table of snapshots.
use containerdosstore.Prelude.{ℕ, negsuc, String, Bool, true, false, Option, List, []}
use containerdosstore.Exec.{pure}
use containerdosstore.Services.{Services}
use containerdosstore.Services.Types.{Image}
use containerdosstore.Services.Frame.{frame_rules, Keeps-call}
use containerdosstore.World.{World}
use containerdosstore.OciStore.{OciStore, report}
use containerdosstore.Snapshots.Table.{Table, SnapshotLaws}
use containerdosstore.Snapshots.Pruning.{
  TableFrame, Prunes, Prunes-Steady, Prunes-after, Prunes-chain, Prunes-leased, Prunes-guarded,
  Prunes-before, Prunes-on_error,
}
use containerdosstore.Image.{remove_unpacked, delete_func, delete}

module _ {S : Services} (c : OciStore S) (L : SnapshotLaws S (S.snapshot_service c.driver))
    (F : TableFrame L) where
  abbrev AnyKey : String → Type 0
  AnyKey k = Unit

  module _ (t : Table) where
    remove_unpacked-Prunes :
        (fuel : ℕ) (ctx : Option S.Ctx) (img : Image) (b : Bool)
        → Prunes L AnyKey t (negsuc 0) (remove_unpacked fuel c ctx img b)
    unfolding remove_unpacked
    remove_unpacked-Prunes fuel ctx img false =
        Prunes-Steady L AnyKey t (negsuc 0) "" tt (pure {W = World S} tt) (λ b. search frame_rules)
    remove_unpacked-Prunes fuel ctx img true =
        Prunes-after L AnyKey t (negsuc 0) "" tt _ _ (λ b. Keeps-call _ (F.frame.root_fs ctx img))
          (λ ds. Prunes-chain L AnyKey t (negsuc 0) (S.chain_id ds) tt fuel ctx)

    pub delete_func-Prunes :
        (fuel : ℕ) (ctx : Option S.Ctx) (name : String) (os : List S.DeleteOpt)
        → Prunes L AnyKey t (negsuc 0) (delete_func fuel c ctx name os)
    unfolding delete_func
    delete_func-Prunes fuel ctx name os =
        let d = negsuc 0 in
        Prunes-after L AnyKey t d "" tt _ _ (λ b. Keeps-call _ (F.frame.get_image ctx name))
          (λ img.
            Prunes-after L AnyKey t d "" tt _ _
              (λ b. Keeps-call _ (F.frame.is_unpacked ctx img c.driver))
              (λ unpacked.
                Prunes-before L AnyKey t d _ _ (remove_unpacked-Prunes fuel ctx img unpacked)
                  (λ _ b. Keeps-call _ (F.frame.delete_image ctx name os))))

    -- From the table t, Delete leaves what some rounds of `prune` from one key leave of it.
    pub delete-Prunes :
        (fuel : ℕ) (name : String) (os : List S.DeleteOpt)
        → Prunes L AnyKey t (negsuc 0) (delete fuel c name os)
    unfolding delete
    delete-Prunes fuel name os =
        let d = negsuc 0 in
        Prunes-guarded L AnyKey t d "" tt F c _ (
          Prunes-leased L AnyKey t d "" tt F c []
            (report "failed to create lease to delete image: %v") _ _ (λ e b. search frame_rules)
            (λ ctx.
              Prunes-before L AnyKey t d _ _
                (Prunes-on_error L AnyKey t d _ _ (delete_func-Prunes fuel ctx name os)
                  (λ e b. search frame_rules))
                (λ _ b. search frame_rules)))
