-- ===== src/Unpack.antt =====
-- pkg/ocistore/unpack.go: unpacking an image into snapshots. And the options of commit.go that
-- unpacking takes (ApplyCommitOpts).
pub mod Leases
pub mod Views
use containerdosstore.Prelude.{Bool, true, false, Option, List, [], ◌∷◌, ◌++◌}
use containerdosstore.Exec.{
  Outcome, ok, Exec, Attempt, failed, returned, attempt, pure, throw, lift, on_error, apply_opts,
  ◌>>=◌, ◌>>◌,
}
use containerdosstore.Services.{Services}
use containerdosstore.Services.Types.{Image}
use containerdosstore.World.{World, call, infof}
use containerdosstore.OciStore.{OciStore, guarded, leased, report_on}

pub record ApplyCommitOpts (S : Services) : Type 0 where
  pub s_opts : List S.SnapshotOpt
  pub a_opts : List S.ApplyOpt

-- A functional option.
abbrev pub ApplyCommitOpt : Services → Type 0
ApplyCommitOpt S = ApplyCommitOpts S → Outcome (ApplyCommitOpts S)

module _ {S : Services} where
  abbrev pub no_apply_commit_opts : ApplyCommitOpts S
  no_apply_commit_opts = record { s_opts = []; a_opts = [] }

  unfoldable pub with_snapshots_opts : List S.SnapshotOpt → ApplyCommitOpt S
  with_snapshots_opts opts co = ok (record co { s_opts = co.s_opts ++ opts })

  unfoldable pub with_apply_opts : List S.ApplyOpt → ApplyCommitOpt S
  with_apply_opts opts co = ok (record co { a_opts = co.a_opts ++ opts })

  -- The walk over the image's descriptors. Its error is returned once the unpacker has cleaned up;
  -- whatever the unpacker then reports is dropped.
  unfoldable pub settle : S.Unpacker → Attempt (Unit {0}) → Exec (World S) (Unit {0})
  settle unpacker (returned _) = call (S.wait unpacker)
  settle unpacker (failed e) = do attempt (call (S.wait unpacker)); throw e

  unpack_missing :
      OciStore S → Option S.Ctx → Image → List (ApplyCommitOpt S) → Exec (World S) (Unit {0})
  unfolding settle
  unpack_missing c ctx img opts = do
    opt ← lift (apply_opts opts no_apply_commit_opts)
    let sn = S.snapshot_service c.driver
    unpacker ← call (S.new_unpacker ctx c.platform c.driver sn opt.s_opts opt.a_opts)
    let handler = S.handlers (S.filter_platforms S.children c.platform ∷ [])
    walked ← attempt (call (S.walk_not_empty ctx (S.unpack_handler unpacker handler) img.target))
    settle unpacker walked

  unpack_unless : Bool → Exec (World S) (Unit {0}) → Exec (World S) (Unit {0})
  unpack_unless true m = pure tt
  unpack_unless false m = m

  unfoldable pub unpack_func :
      OciStore S → Option S.Ctx → Image → List (ApplyCommitOpt S) → Exec (World S) (Unit {0})
  unfolding unpack_missing unpack_unless
  unpack_func c ctx img opts = do
    done ← call (S.is_unpacked ctx img c.driver)
    unpack_unless done (unpack_missing c ctx img opts)

  unfoldable pub unpack : OciStore S → Image → List (ApplyCommitOpt S) → Exec (World S) (Unit {0})
  unpack c img opts = guarded c (
      leased c [] (report_on "failed to create lease for unpacking '%s': %v" img.name)
        "could not remove lease for unpack operation"
        λ ctx. do
          on_error (unpack_func c ctx img opts)
              (report_on "failed to unpack image '%s': %v" img.name)
          infof "Successfully unpacked image '%s'" (img.name ∷ []))
