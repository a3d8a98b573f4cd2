-- ===== src/Image/Ending.antt =====
-- The fuel of Delete.
use containerdosstore.Prelude.{ℕ, ◌<◌, negsuc, String, Bool, true, false, Option, List, [], length}
use containerdosstore.Services.{Services}
use containerdosstore.Services.Types.{Image}
use containerdosstore.Services.Frame.{Keeps-call, frame_rules}
use containerdosstore.Services.Ends.{CallsAnswer}
use containerdosstore.OciStore.{OciStore, report}
use containerdosstore.Snapshots.Table.{Table, SnapshotLaws}
use containerdosstore.Snapshots.Pruning.{TableFrame}
use containerdosstore.Snapshots.Ending.{
  Answers-call, Answers-log_at, Ends, Ends-after, Ends-before, Ends-on_error, Ends-chain,
  Ends-leased, Ends-guarded,
}
use containerdosstore.Image.{remove_unpacked, delete_func, delete}

module _ {S : Services} (c : OciStore S) (L : SnapshotLaws S (S.snapshot_service c.driver))
    (F : TableFrame L) (C : CallsAnswer S) (fuel : ℕ) (t : Table) (enough : length t < fuel) where
  remove_unpacked-Ends :
      (ctx : Option S.Ctx) (img : Image) (b : Bool) → Ends L t (remove_unpacked fuel c ctx img b)
  unfolding remove_unpacked
  remove_unpacked-Ends ctx img false w h = λ q. cc
  remove_unpacked-Ends ctx img true w h =
      Ends-after L t _ _ (Answers-call _ (C.root_fs ctx img))
        (λ b. Keeps-call _ (F.frame.root_fs ctx img))
        (λ ds. Ends-chain L t ctx fuel (S.chain_id ds) (negsuc 0) enough) w h

  delete_func-Ends :
      (ctx : Option S.Ctx) (name : String) (os : List S.DeleteOpt)
      → Ends L t (delete_func fuel c ctx name os)
  unfolding delete_func
  delete_func-Ends ctx name os =
      Ends-after L t _ _ (Answers-call _ (C.get_image ctx name))
        (λ b. Keeps-call _ (F.frame.get_image ctx name))
        (λ img.
          Ends-after L t _ _ (Answers-call _ (C.is_unpacked ctx img c.driver))
            (λ b. Keeps-call _ (F.frame.is_unpacked ctx img c.driver))
            (λ unpacked.
              Ends-before L t _ _ (remove_unpacked-Ends ctx img unpacked)
                (λ _. Answers-call _ (C.delete_image ctx name os))))

  pub delete-Ends : (name : String) (os : List S.DeleteOpt) → Ends L t (delete fuel c name os)
  unfolding delete
  delete-Ends name os = Ends-guarded L t c _ (
      Ends-leased L t F C c [] (report "failed to create lease to delete image: %v") _ _
        (λ e b. search frame_rules) (λ e. Answers-log_at _ _ _)
        (λ ctx.
          Ends-before L t _ _
            (Ends-on_error L t _ _ (delete_func-Ends ctx name os) (λ e. Answers-log_at _ _ _))
            (λ _. Answers-log_at _ _ _)))
