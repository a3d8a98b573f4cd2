-- ===== src/Snapshots.antt =====
-- pkg/ocistore/snapshots.go: listing, reading, labelling and removing snapshots. The unexported
-- method `x` of the source is `x_func`.
pub mod Leases
pub mod Labels
pub mod Table
pub mod Removal
pub mod Prune
pub mod Description
pub mod Chain
pub mod Pruning
pub mod Views
pub mod Ending
use containerdosstore.Prelude.{
  String, Bool, Option, none, some, List, [], ◌∷◌, ◌++◌, Map, if◌then◌else◌, lookup, insert, remove,
}
use containerdosstore.Exec.{
  Error, Outcome, ok, panic, Exec, Attempt, failed, returned, is_not_found, attempt, pure, throw,
  lift, on_error, ◌>>=◌, ◌>>◌,
}
use containerdosstore.Services.{Services}
use containerdosstore.Services.Types.{Info}
use containerdosstore.World.{World, call, warnf, infof}
use containerdosstore.OciStore.{OciStore, guarded, leased, report, report_on}
use mathlib.Core.List.{foldl}

-- `walkFunc` of listSnapshots: the callback that Walk calls for each snapshot.
abbrev pub walk_func : List Info → Info → List Info
walk_func snaps info = snaps ++ (info ∷ [])

-- `for k, v := range labels { sLabels[k] = v }`
unfoldable pub assign_all : Option (Map String) → Map String → Outcome (Option (Map String))
assign_all m [] = ok m
assign_all none ((k, v) ∷ labels) = panic
assign_all (some m) ((k, v) ∷ labels) = assign_all (some (insert k v m)) labels

-- `for _, k := range labelKeys { delete(sLabels, k) }`; delete does nothing on a nil map.
unfoldable pub delete_all : Option (Map String) → List String → Option (Map String)
delete_all none ks = none
delete_all (some m) [] = some m
delete_all (some m) (k ∷ ks) = delete_all (some (remove k m)) ks

-- `if sLabels == nil { sLabels = map[string]string{} }`
abbrev pub non_nil : Option (Map String) → Option (Map String)
non_nil none = some []
non_nil (some m) = some m

module _ {S : Services} where
  walked : List Info × Option Error → Exec (World S) (List Info)
  walked (seen, none) = pure (foldl walk_func [] seen)
  walked (seen, some e) = throw e

  unfoldable pub list_snapshots_func :
      S.Snapshotter → Option S.Ctx → List String → Exec (World S) (List Info)
  unfolding walked
  list_snapshots_func sn ctx filters = do seen ← call (S.walk sn ctx filters); walked seen

  -- The check of the error after listSnapshots: a not-found error counts as an empty list.
  tolerate_missing : Attempt (List Info) → Exec (World S) (List Info)
  tolerate_missing (returned infos) = pure infos
  tolerate_missing (failed e) =
      if is_not_found e
      then (do
        warnf
            "returned a IsNotFound error, this is likely to mean no snapshot has been ever created yet in current content store"
            []
        pure [])
      else throw e

  unfoldable pub list_snapshots : OciStore S → List String → Exec (World S) (List Info)
  unfolding tolerate_missing
  list_snapshots c filters = guarded c (
      leased c [] (report "failed to create lease to list snapshots: %v")
        "could not remove lease on list snapshots operation"
        λ ctx. do
          infos ← attempt (list_snapshots_func (S.snapshot_service c.driver) ctx filters)
          tolerate_missing infos)

  -- Stat is called with `c.ctx`, not with the context of the lease.
  unfoldable pub get_snapshot : OciStore S → String → Exec (World S) Info
  get_snapshot c key = guarded c (
      leased c [] (report "failed to create lease to get snapshot: %v")
        "could not remove lease on get snapshot operation"
        λ ctx. call (S.stat (S.snapshot_service c.driver) c.ctx key))

  unfoldable pub update_snapshot_func :
      OciStore S → Option S.Ctx → Info → List String → Exec (World S) Info
  update_snapshot_func c ctx info fieldpaths =
      call (S.update (S.snapshot_service c.driver) ctx info fieldpaths)

  -- The update is called with `c.ctx` too. Its result overwrites `info`, so the line that reports a
  -- failure prints the name of the zero Info that a failed update returns.
  unfoldable pub update_snapshot : OciStore S → Info → List String → Exec (World S) Info
  update_snapshot c info fieldpaths = guarded c (
      leased c [] (report "failed to create lease to update snapshot: %v")
        "could not remove lease on update snapshot operation"
        λ ctx. do
          updated ←
              on_error (update_snapshot_func c c.ctx info fieldpaths)
                (report_on "failed to update snapshot '%s': %v" "")
          infof "Successfully updated snapshot '%s'" (updated.name ∷ [])
          pure updated)

  unfoldable pub label_snapshot_func :
      OciStore S → Option S.Ctx → Info → Map String → Exec (World S) Info
  unfolding update_snapshot_func
  label_snapshot_func c ctx info labels = do
    labels' ← lift (assign_all (non_nil info.labels) labels)
    update_snapshot_func c ctx (record info { labels = labels' }) []

  unfoldable pub remove_snapshot_labels_func :
      OciStore S → Option S.Ctx → Info → List String → Exec (World S) Info
  unfolding update_snapshot_func
  remove_snapshot_labels_func c ctx info keys =
      update_snapshot_func c ctx (record info { labels = delete_all (non_nil info.labels) keys }) []

  unfoldable pub label_snapshot : OciStore S → String → Map String → Exec (World S) (Unit {0})
  label_snapshot c name labels = guarded c (
      leased c [] (report "failed to create lease to get snapshot: %v")
        "could not remove lease on get snapshot operation"
        λ ctx. do
          info ← call (S.stat (S.snapshot_service c.driver) ctx name)
          on_error (label_snapshot_func c ctx info labels)
              (report_on "failed to update snapshot '%s': %v" info.name)
          infof "Successfully updated snapshot '%s'" (info.name ∷ []))

  unfoldable pub remove_snapshot_labels :
      OciStore S → String → List String → Exec (World S) (Unit {0})
  remove_snapshot_labels c name keys = guarded c (
      leased c [] (report "failed to create lease to get snapshot: %v")
        "could not remove lease on get snapshot operation"
        λ ctx. do
          info ← call (S.stat (S.snapshot_service c.driver) ctx name)
          on_error (remove_snapshot_labels_func c ctx info keys)
              (report_on "failed to update snapshot '%s': %v" info.name)
          infof "Successfully updated snapshot '%s'" (info.name ∷ []))
