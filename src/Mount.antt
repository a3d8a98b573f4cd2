-- ===== src/Mount.antt =====
-- pkg/ocistore/mount.go: mounting an image, or an empty snapshot, and unmounting it.
pub mod Key
pub mod NilImage
pub mod Leases
pub mod Umount
pub mod Ending
pub mod Returned
pub mod Laws
pub mod Adding
pub mod RoundTrip
pub mod Found
pub mod Slashes
pub mod Released
use containerdosstore.Prelude.{
  ℕ, zero, suc, ℤ, pos, negsuc, String, ◌<>◌, Bool, true, false, Option, none, some, List, [], ◌∷◌,
  ◌++◌, ◌==◌, not, ◌&&◌, if◌then◌else◌, Map,
}
use containerdosstore.Exec.{
  Error, wrapped, Outcome, ok, Exec, Attempt, failed, returned, attempt, pure, throw, panics, lift,
  on_error, defer, apply_opts, is_already_exists, is_not_found, ◌>>=◌, ◌>>◌,
}
use containerdosstore.Services.{
  Services, LeaseOpt, with_id, with_expiration_hours, with_label, Leased,
}
use containerdosstore.Services.Types.{Image}
use containerdosstore.World.{World, call, infof, errorf, error_text}
use containerdosstore.OciStore.{
  OciStore, label_snapshot_img_ref, guarded, leased, run_done, report, report_on,
}
use containerdosstore.Snapshots.Chain.{is_zero, remove_snapshots_chain}
use containerdosstore.Unpack.{ApplyCommitOpt, unpack_func}
use Key.{unique_part, target_part}

pub record MountOpts (S : Services) : Type 0 where
  pub s_opts : List S.SnapshotOpt
  pub a_opts : List (ApplyCommitOpt S)
  pub unpack : Bool

abbrev pub MountOpt : Services → Type 0
MountOpt S = MountOpts S → Outcome (MountOpts S)

-- How many parents go with the snapshot: `removeSnap - 1`, or -1 for the entire chain.
abbrev pub chain_depth : ℤ → ℤ
chain_depth (pos zero) = negsuc 0
chain_depth (pos (suc n)) = pos n
chain_depth (negsuc n) = negsuc 0

module _ {S : Services} where
  abbrev pub no_mount_opts : MountOpts S
  no_mount_opts = record { s_opts = []; a_opts = []; unpack = false }

  unfoldable pub with_mount_unpack : MountOpt S
  with_mount_unpack m = ok (record m { unpack = true })

  unfoldable pub with_mount_snapshot_opts : List S.SnapshotOpt → MountOpt S
  with_mount_snapshot_opts opts m = ok (record m { s_opts = m.s_opts ++ opts })

  unfoldable pub with_mount_apply_commit_opts : List (ApplyCommitOpt S) → MountOpt S
  with_mount_apply_commit_opts opts m = ok (record m { a_opts = m.a_opts ++ opts })

  -- A given key is kept; the empty one is replaced by one made of the target.
  unfoldable pub mount_key : String → String → Exec (World S) String
  mount_key key target =
      if key == ""
      then (do
        nanos ← call S.nanosecond
        bytes ← call S.random_bytes
        pure (unique_part nanos bytes <> ("-" <> target_part target)))
      else pure key

  -- `img.Name()` in a line of the log panics where the image is nil.
  report_image : Option Image → String → Error → Exec (World S) (Unit {0})
  report_image none format e = panics
  report_image (some img) format e = report_on format img.name e

  -- The call of c.unpack, which asks a nil image whether it is unpacked.
  pub mount_unpack :
      OciStore S → Option S.Ctx → Option Image → MountOpts S → Bool → Exec (World S) (Unit {0})
  mount_unpack c ctx img opt false = pure tt
  mount_unpack c ctx none opt true = panics
  mount_unpack c ctx (some img) opt true = do
    on_error (unpack_func c ctx img opt.a_opts)
        (report_on "failed to unpack image '%s': %v" img.name)
    infof "Successfully unpacked image '%s'" (img.name ∷ [])

  -- The parent of the new snapshot, and its labels.
  pub mount_base : Option S.Ctx → Option Image → Exec (World S) (String × Map String)
  mount_base ctx none = do
    time ← call S.now
    pure ("", ("containerd.io/gc.root", S.format_time time) ∷ [])
  mount_base ctx (some img) = do
    call S.now
    diff_ids ←
        on_error (call (S.root_fs ctx img))
          (report_on "failed to get diff IDs of the image '%s': %v" img.name)
    pure (S.chain_id diff_ids, (label_snapshot_img_ref, img.name) ∷ [])

  -- A snapshot that is already there is taken as it is.
  existing_mounts :
      S.Snapshotter → Option S.Ctx → String → Attempt S.Mounts → Exec (World S) S.Mounts
  existing_mounts sn ctx key (returned mounts) = pure mounts
  existing_mounts sn ctx key (failed e) =
      if is_already_exists e then call (S.mounts sn ctx key) else throw e

  unfoldable pub mount_snapshot :
      OciStore S
      → Option S.Ctx
      → Option Image
      → String
      → Bool
      → String
      → List S.SnapshotOpt
      → Exec (World S) S.Mounts
  unfolding existing_mounts report_image
  mount_snapshot c ctx img key readonly parent opts =
      let sn = S.snapshot_service c.driver in
      on_error
        (do
          made ← attempt (
              call (
                if readonly
                then S.view sn ctx key parent opts
                else S.prepare sn ctx key parent opts))
          existing_mounts sn ctx key made)
        (report_image img "failed to create an active commit for image '%s': %v")

  report_cleanup : Attempt (Unit {0}) → Exec (World S) (Unit {0})
  report_cleanup (returned _) = pure tt
  report_cleanup (failed e) =
      if is_not_found e
      then pure tt
      else report "error cleaning up snapshot after mount error: %v" e

  -- The mount itself. Where it fails the snapshot is removed.
  unfoldable pub mount_target :
      OciStore S
      → Option S.Ctx
      → Option Image
      → String
      → String
      → S.Mounts
      → Exec (World S) (Unit {0})
  unfolding report_cleanup report_image
  mount_target c ctx img target key mounts = on_error (call (S.mount_all mounts target)) λ e. do
    removed ← attempt (call (S.remove (S.snapshot_service c.driver) ctx key))
    report_cleanup removed
    report_image img "failed to mount image '%s': %v" e

  unfoldable pub mount_leased :
      OciStore S
      → Option S.Ctx
      → Option Image
      → String
      → String
      → Bool
      → MountOpts S
      → Exec (World S) String
  unfolding mount_unpack mount_base mount_snapshot mount_target
  mount_leased c ctx img target key readonly opt = do
    mount_unpack c ctx img opt opt.unpack
    base ← mount_base ctx img
    let s_opts = opt.s_opts ++ (S.with_labels base.1 ∷ [])
    mounts ← mount_snapshot c ctx img key readonly base.0 s_opts
    mount_target c ctx img target key mounts
    pure key

  -- A lease of that name may be there already.
  check_mount_lease : Leased S.Ctx S.Done → Option Error → Exec (World S) (Unit {0})
  check_mount_lease l none = pure tt
  check_mount_lease l (some e) = if is_already_exists e then pure tt else throw e

  -- `done != nil`, and `done(ctx)`, whose error is lost.
  release_quietly : Option S.Done → Option S.Ctx → Exec (World S) (Unit {0})
  release_quietly none ctx = pure tt
  release_quietly (some done) ctx = do attempt (call (S.release done ctx)); pure tt

  -- The deferred function: the lease goes only where Mount returns an error.
  release_on_error : Leased S.Ctx S.Done → Option Error → Exec (World S) (Unit {0})
  unfolding release_quietly
  release_on_error l none = pure tt
  release_on_error l (some e) = release_quietly l.done l.ctx

  abbrev pub mount_lease_opts : OciStore S → String → List LeaseOpt
  mount_lease_opts c key =
      with_id key
      ∷ with_expiration_hours 24
      ∷ with_label ("containerd.io/gc.ref.snapshot." <> c.driver) key
      ∷ []

  -- `none` is the nil image.
  unfoldable pub mount :
      OciStore S → Option Image → String → String → Bool → List (MountOpt S) → Exec (World S) String
  unfolding mount_key check_mount_lease release_on_error
  mount c img target key readonly opts = guarded c do
    opt ← lift (apply_opts opts no_mount_opts)
    key' ← mount_key key target
    l ← call (S.with_lease c.ctx (mount_lease_opts c key'))
    check_mount_lease l l.error
    defer (λ _. none) (mount_leased c l.ctx img target key' readonly opt) (release_on_error l)

  unfoldable pub mount_from_scratch : OciStore S → String → String → Exec (World S) String
  unfolding mount
  mount_from_scratch c target key = mount c none target key false []

  pub check_lease_deleted : Attempt (Unit {0}) → Exec (World S) (Unit {0})
  check_lease_deleted (returned _) = pure tt
  check_lease_deleted (failed e) =
      if is_not_found e then pure tt else throw (wrapped "error deleting lease" e)

  -- Umount under its lease.
  abbrev pub umount_leased : ℕ → OciStore S → String → ℤ → Option S.Ctx → Exec (World S) (Unit {0})
  umount_leased fuel c key remove_snap ctx = do
    gone ← attempt (call (S.delete_lease ctx key))
    check_lease_deleted gone
    remove_snapshots_chain fuel ctx (S.snapshot_service c.driver) key (chain_depth remove_snap)

  unfoldable pub umount : ℕ → OciStore S → String → String → ℤ → Exec (World S) (Unit {0})
  unfolding check_lease_deleted
  umount fuel c target key remove_snap = guarded c do
    call (S.unmount_all target 0)
    if is_zero remove_snap
        then pure tt
        else leased c [] (report "failed to create lease to umount snapshot: %v")
            "could not remove lease on umount snapshot operation"
            (umount_leased fuel c key remove_snap)
