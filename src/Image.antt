-- ===== src/Image.antt =====
-- pkg/ocistore/image.go: reading, listing, creating, updating and deleting images.
pub mod Leases
pub mod Laws
pub mod Deletion
pub mod Removal
pub mod Ending
pub mod Names
use containerdosstore.Prelude.{ℕ, String, Bool, true, false, Option, List, [], ◌∷◌, negsuc}
use containerdosstore.Exec.{Exec, pure, on_error, ◌>>=◌, ◌>>◌}
use containerdosstore.Services.{Services}
use containerdosstore.Services.Types.{Image}
use containerdosstore.World.{World, call, infof}
use containerdosstore.OciStore.{OciStore, guarded, leased, report, report_on}
use containerdosstore.Snapshots.Chain.{remove_snapshots_chain}

module _ {S : Services} where
  unfoldable pub get : OciStore S → String → Exec (World S) Image
  get c ref = guarded c (call (S.get_image c.ctx ref))

  unfoldable pub list : OciStore S → List String → Exec (World S) (List Image)
  list c filters = guarded c (call (S.list_images c.ctx filters))

  -- The whole chain of the unpacked image goes, as far as nothing else stands on it.
  remove_unpacked : ℕ → OciStore S → Option S.Ctx → Image → Bool → Exec (World S) (Unit {0})
  remove_unpacked fuel c ctx img false = pure tt
  remove_unpacked fuel c ctx img true = do
    diff_ids ← call (S.root_fs ctx img)
    remove_snapshots_chain fuel ctx (S.snapshot_service c.driver) (S.chain_id diff_ids) (negsuc 0)

  unfoldable pub delete_func :
      ℕ → OciStore S → Option S.Ctx → String → List S.DeleteOpt → Exec (World S) (Unit {0})
  unfolding remove_unpacked
  delete_func fuel c ctx name opts = do
    img ← call (S.get_image ctx name)
    unpacked ← call (S.is_unpacked ctx img c.driver)
    remove_unpacked fuel c ctx img unpacked
    call (S.delete_image ctx name opts)

  unfoldable pub delete : ℕ → OciStore S → String → List S.DeleteOpt → Exec (World S) (Unit {0})
  delete fuel c name opts = guarded c (
      leased c [] (report "failed to create lease to delete image: %v")
        "could not remove lease on delete image operation"
        λ ctx. do
          on_error (delete_func fuel c ctx name opts)
              (report_on "failed deleting image '%s': %v" name)
          infof "Successfully deleted image '%s'" (name ∷ []))

  unfoldable pub update : OciStore S → Image → List String → Exec (World S) Image
  update c img fieldpaths = guarded c (
      leased c [] (report "failed to create lease to update image: %v")
        "could not remove lease on update image operation"
        λ ctx. call (S.update_image ctx img fieldpaths))

  unfoldable pub create : OciStore S → Image → Exec (World S) Image
  create c img = guarded c (
      leased c [] (report "failed to create lease to create image: %v")
        "could not remove lease on create image operation" λ ctx. call (S.create_image ctx img))
