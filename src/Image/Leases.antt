-- ===== src/Image/Leases.antt =====
-- The lease of the methods of image.go.
use containerdosstore.Prelude.{ℕ, String, Bool, true, false, Option, List}
use containerdosstore.Services.Types.{Image}
use containerdosstore.Services.{Services}
use containerdosstore.Services.Frame.{frame_rules}
use containerdosstore.Services.Leases.{LeaseLaws}
use containerdosstore.OciStore.{OciStore}
use containerdosstore.OciStore.Leasing.{KeepsLeases, leased-KeepsLeases, guarded-KeepsLeases}
use containerdosstore.Snapshots.Leases.{remove_snapshots_chain-KeepsLeases}
use containerdosstore.Image.{remove_unpacked, delete_func, delete, update, create}

module _ {S : Services} (L : LeaseLaws S) where
  remove_unpacked-KeepsLeases :
      (fuel : ℕ) (c : OciStore S) (ctx : Option S.Ctx) (img : Image) (b : Bool)
      → KeepsLeases L (remove_unpacked fuel c ctx img b)
  unfolding remove_unpacked
  remove_unpacked-KeepsLeases fuel c ctx img false l = search frame_rules
  remove_unpacked-KeepsLeases fuel c ctx img true l =
      search (frame_rules, L.frame.root_fs, remove_snapshots_chain-KeepsLeases L)

  pub delete_func-KeepsLeases :
      (fuel : ℕ) (c : OciStore S) (ctx : Option S.Ctx) (name : String) (os : List S.DeleteOpt)
      → KeepsLeases L (delete_func fuel c ctx name os)
  unfolding delete_func
  delete_func-KeepsLeases fuel c ctx name os l =
      search
        (
          frame_rules, L.frame.get_image, L.frame.is_unpacked, L.frame.delete_image,
          remove_unpacked-KeepsLeases,
        )
        depth 9

  pub delete-KeepsLeases :
      (fuel : ℕ) (c : OciStore S) (name : String) (os : List S.DeleteOpt)
      → KeepsLeases L (delete fuel c name os)
  unfolding delete
  delete-KeepsLeases fuel c name os = guarded-KeepsLeases L c _ (
      leased-KeepsLeases L c _ _ _ _ (λ e l. search frame_rules)
        (λ ctx l. search (frame_rules, delete_func-KeepsLeases) depth 9))

  pub update-KeepsLeases :
      (c : OciStore S) (img : Image) (fs : List String) → KeepsLeases L (update c img fs)
  unfolding update
  update-KeepsLeases c img fs = guarded-KeepsLeases L c _ (
      leased-KeepsLeases L c _ _ _ _ (λ e l. search frame_rules)
        (λ ctx l. search (frame_rules, L.frame.update_image) depth 9))

  pub create-KeepsLeases : (c : OciStore S) (img : Image) → KeepsLeases L (create c img)
  unfolding create
  create-KeepsLeases c img = guarded-KeepsLeases L c _ (
      leased-KeepsLeases L c _ _ _ _ (λ e l. search frame_rules)
        (λ ctx l. search (frame_rules, L.frame.create_image) depth 9))
