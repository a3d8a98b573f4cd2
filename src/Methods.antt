-- ===== src/Methods.antt =====
-- The public methods of the OCIStore, side by side: what they do before Init, and the lease that they
-- take.
pub mod Sessions
pub mod Ending
use containerdosstore.Prelude.{ℕ, ℤ, String, Bool, Option, List, Map, false, ◌≡◌}
use containerdosstore.Exec.{message, err, Exec}
use containerdosstore.Services.{Services}
use containerdosstore.Services.Types.{Image, Info}
use containerdosstore.Services.Leases.{LeaseLaws}
use containerdosstore.World.{World}
use containerdosstore.OciStore.{OciStore, is_initiated, miss_init_err_msg}
use containerdosstore.OciStore.Setup.{guarded-uninitiated}
use containerdosstore.OciStore.Leasing.{KeepsLeases-held}
use containerdosstore.Unpack.{ApplyCommitOpt, unpack}
use containerdosstore.Unpack.Leases.{unpack-KeepsLeases}
use containerdosstore.Image.{get, list, delete, update, create}
use containerdosstore.Image.Leases.{delete-KeepsLeases, update-KeepsLeases, create-KeepsLeases}
use containerdosstore.Snapshots.{
  list_snapshots, get_snapshot, update_snapshot, label_snapshot, remove_snapshot_labels,
}
use containerdosstore.Snapshots.Leases.{
  list_snapshots-KeepsLeases, get_snapshot-KeepsLeases, update_snapshot-KeepsLeases,
  label_snapshot-KeepsLeases, remove_snapshot_labels-KeepsLeases,
}
use containerdosstore.Pull.{PullOpt, pull}
use containerdosstore.Pull.Leases.{pull-KeepsLeases}
use containerdosstore.Import.{ImportOpt, import_reader, import_file, single_import_file}
use containerdosstore.Import.Leases.{
  import_reader-KeepsLeases, import_file-KeepsLeases, single_import_file-KeepsLeases,
}
use containerdosstore.Mount.{MountOpt, mount, mount_from_scratch, umount}
use containerdosstore.Commit.{CommitImgOpt, commit}

-- What a method returns on a store that Init has not set up; the world is left as it is.
abbrev pub Refused : {S : Services} {A : Type 0} → Exec (World S) A → World S → Type 0
Refused m w = m w ≡ (err (message miss_init_err_msg), w)

-- The leases held after a method are those before it.
abbrev pub Balanced :
    {S : Services} {A : Type 0} → LeaseLaws S → Exec (World S) A → World S → Type 0
Balanced L m w = L.held (m w).1.services ≡ L.held w.services

module _ {S : Services} (c : OciStore S) (w : World S) (fuel : ℕ) (name file key target : String)
    (img : Image) (info : Info) (filters fieldpaths keys : List String) (labels : Map String)
    (img_or_nil : Option Image) (readonly : Bool) (remove_snap : ℤ) (reader : S.Reader)
    (delete_opts : List S.DeleteOpt) (unpack_opts : List (ApplyCommitOpt S))
    (pull_opts : List (PullOpt S)) (import_opts : List (ImportOpt S))
    (mount_opts : List (MountOpt S)) (commit_opts : List (CommitImgOpt S)) where
  -- Every public operation, on a store that Init has not set up, returns the missing-init error,
  -- calls no service and logs nothing.
  pub methods-uninitiated :
      is_initiated c ≡ false
      → Refused (get c name) w
        × Refused (list c filters) w
        × Refused (delete fuel c name delete_opts) w
        × Refused (update c img fieldpaths) w
        × Refused (create c img) w
        × Refused (unpack c img unpack_opts) w
        × Refused (pull c name pull_opts) w
        × Refused (import_reader c reader import_opts) w
        × Refused (import_file c file import_opts) w
        × Refused (single_import_file fuel c file import_opts) w
        × Refused (list_snapshots c filters) w
        × Refused (get_snapshot c key) w
        × Refused (update_snapshot c info fieldpaths) w
        × Refused (label_snapshot c key labels) w
        × Refused (remove_snapshot_labels c key keys) w
        × Refused (mount c img_or_nil target key readonly mount_opts) w
        × Refused (mount_from_scratch c target key) w
        × Refused (umount fuel c target key remove_snap) w
        × Refused (commit c key commit_opts) w
  unfolding get list delete update create unpack pull import_reader import_file single_import_file
      list_snapshots get_snapshot update_snapshot label_snapshot remove_snapshot_labels mount
      mount_from_scratch umount commit
  methods-uninitiated u = (
    guarded-uninitiated c _ w u,
    guarded-uninitiated c _ w u,
    guarded-uninitiated c _ w u,
    guarded-uninitiated c _ w u,
    guarded-uninitiated c _ w u,
    guarded-uninitiated c _ w u,
    guarded-uninitiated c _ w u,
    guarded-uninitiated c _ w u,
    guarded-uninitiated c _ w u,
    guarded-uninitiated c _ w u,
    guarded-uninitiated c _ w u,
    guarded-uninitiated c _ w u,
    guarded-uninitiated c _ w u,
    guarded-uninitiated c _ w u,
    guarded-uninitiated c _ w u,
    guarded-uninitiated c _ w u,
    guarded-uninitiated c _ w u,
    guarded-uninitiated c _ w u,
    guarded-uninitiated c _ w u,
  )

  -- If no call of `done` fails, the methods that take a lease for as long as they run end with the
  -- leases that they began with, whether they return, fail or panic. Mount and Commit are not among
  -- them.
  pub methods-held :
      (L : LeaseLaws S)
      → Balanced L (delete fuel c name delete_opts) w
        × Balanced L (update c img fieldpaths) w
        × Balanced L (create c img) w
        × Balanced L (unpack c img unpack_opts) w
        × Balanced L (pull c name pull_opts) w
        × Balanced L (import_reader c reader import_opts) w
        × Balanced L (import_file c file import_opts) w
        × Balanced L (single_import_file fuel c file import_opts) w
        × Balanced L (list_snapshots c filters) w
        × Balanced L (get_snapshot c key) w
        × Balanced L (update_snapshot c info fieldpaths) w
        × Balanced L (label_snapshot c key labels) w
        × Balanced L (remove_snapshot_labels c key keys) w
  methods-held L = (
    KeepsLeases-held L _ (delete-KeepsLeases L fuel c name delete_opts) w,
    KeepsLeases-held L _ (update-KeepsLeases L c img fieldpaths) w,
    KeepsLeases-held L _ (create-KeepsLeases L c img) w,
    KeepsLeases-held L _ (unpack-KeepsLeases L c img unpack_opts) w,
    KeepsLeases-held L _ (pull-KeepsLeases L c name pull_opts) w,
    KeepsLeases-held L _ (import_reader-KeepsLeases L c reader import_opts) w,
    KeepsLeases-held L _ (import_file-KeepsLeases L c file import_opts) w,
    KeepsLeases-held L _ (single_import_file-KeepsLeases L fuel c file import_opts) w,
    KeepsLeases-held L _ (list_snapshots-KeepsLeases L c filters) w,
    KeepsLeases-held L _ (get_snapshot-KeepsLeases L c key) w,
    KeepsLeases-held L _ (update_snapshot-KeepsLeases L c info fieldpaths) w,
    KeepsLeases-held L _ (label_snapshot-KeepsLeases L c key labels) w,
    KeepsLeases-held L _ (remove_snapshot_labels-KeepsLeases L c key keys) w,
  )
