-- ===== src/Snapshots/Leases.antt =====
-- The lease of the methods of snapshots.go, and what they do under it.
use containerdosstore.Prelude.{ℕ, ℤ, String, Option, none, some, List, Map}
use containerdosstore.Exec.{Error, Attempt, failed, returned}
use containerdosstore.Services.Types.{Info}
use containerdosstore.Services.{Services}
use containerdosstore.Services.Frame.{frame_rules}
use containerdosstore.Services.Leases.{LeaseLaws}
use containerdosstore.OciStore.{OciStore}
use containerdosstore.OciStore.Leasing.{KeepsLeases, leased-KeepsLeases, guarded-KeepsLeases}
use containerdosstore.Snapshots.{
  walked, tolerate_missing, list_snapshots_func, list_snapshots, get_snapshot, update_snapshot,
  label_snapshot, remove_snapshot_labels, label_snapshot_func, update_snapshot_func,
  remove_snapshot_labels_func,
}
use containerdosstore.Snapshots.Chain.{remove_snapshots_chain}
use containerdosstore.Snapshots.Views.{remove_snapshots_chain-Shows}

module _ {S : Services} (L : LeaseLaws S) where
  pub remove_snapshots_chain-KeepsLeases :
      (fuel : ℕ) (ctx : Option S.Ctx) (sn : S.Snapshotter) (k : String) (d : ℤ)
      → KeepsLeases L (remove_snapshots_chain fuel ctx sn k d)
  remove_snapshots_chain-KeepsLeases fuel ctx sn k d l =
      remove_snapshots_chain-Shows L.held sn (L.frame.stat sn) (L.remove sn) l fuel ctx k d

  walked-KeepsLeases : (p : List Info × Option Error) → KeepsLeases L (walked {S = S} p)
  unfolding walked
  walked-KeepsLeases (seen, none) l = search frame_rules
  walked-KeepsLeases (seen, some e) l = search frame_rules

  list_snapshots_func-KeepsLeases :
      (sn : S.Snapshotter) (ctx : Option S.Ctx) (fs : List String)
      → KeepsLeases L (list_snapshots_func sn ctx fs)
  unfolding list_snapshots_func
  list_snapshots_func-KeepsLeases sn ctx fs l =
      search (frame_rules, L.frame.walk, walked-KeepsLeases)

  tolerate_missing-KeepsLeases :
      (a : Attempt (List Info)) → KeepsLeases L (tolerate_missing {S = S} a)
  unfolding tolerate_missing
  tolerate_missing-KeepsLeases (returned infos) l = search frame_rules
  tolerate_missing-KeepsLeases (failed e) l = search frame_rules

  update_snapshot_func-KeepsLeases :
      (c : OciStore S) (ctx : Option S.Ctx) (i : Info) (fs : List String)
      → KeepsLeases L (update_snapshot_func c ctx i fs)
  unfolding update_snapshot_func
  update_snapshot_func-KeepsLeases c ctx i fs l = search (frame_rules, L.update)

  label_snapshot_func-KeepsLeases :
      (c : OciStore S) (ctx : Option S.Ctx) (i : Info) (m : Map String)
      → KeepsLeases L (label_snapshot_func c ctx i m)
  unfolding label_snapshot_func
  label_snapshot_func-KeepsLeases c ctx i m l = search (frame_rules, L.update)

  remove_snapshot_labels_func-KeepsLeases :
      (c : OciStore S) (ctx : Option S.Ctx) (i : Info) (ks : List String)
      → KeepsLeases L (remove_snapshot_labels_func c ctx i ks)
  unfolding remove_snapshot_labels_func
  remove_snapshot_labels_func-KeepsLeases c ctx i ks l = search (frame_rules, L.update)

  pub list_snapshots-KeepsLeases :
      (c : OciStore S) (fs : List String) → KeepsLeases L (list_snapshots c fs)
  unfolding list_snapshots
  list_snapshots-KeepsLeases c fs = guarded-KeepsLeases L c _ (
      leased-KeepsLeases L c _ _ _ _ (λ e l. search frame_rules)
        (λ ctx l.
          search (frame_rules, list_snapshots_func-KeepsLeases, tolerate_missing-KeepsLeases)))

  pub get_snapshot-KeepsLeases :
      (c : OciStore S) (key : String) → KeepsLeases L (get_snapshot c key)
  unfolding get_snapshot
  get_snapshot-KeepsLeases c key = guarded-KeepsLeases L c _ (
      leased-KeepsLeases L c _ _ _ _ (λ e l. search frame_rules)
        (λ ctx l. search (frame_rules, L.frame.stat) depth 9))

  pub update_snapshot-KeepsLeases :
      (c : OciStore S) (i : Info) (fs : List String) → KeepsLeases L (update_snapshot c i fs)
  unfolding update_snapshot
  update_snapshot-KeepsLeases c i fs = guarded-KeepsLeases L c _ (
      leased-KeepsLeases L c _ _ _ _ (λ e l. search frame_rules)
        (λ ctx l. search (frame_rules, update_snapshot_func-KeepsLeases) depth 9))

  pub label_snapshot-KeepsLeases :
      (c : OciStore S) (name : String) (m : Map String) → KeepsLeases L (label_snapshot c name m)
  unfolding label_snapshot
  label_snapshot-KeepsLeases c name m = guarded-KeepsLeases L c _ (
      leased-KeepsLeases L c _ _ _ _ (λ e l. search frame_rules)
        (λ ctx l. search (frame_rules, L.frame.stat, label_snapshot_func-KeepsLeases) depth 9))

  pub remove_snapshot_labels-KeepsLeases :
      (c : OciStore S) (name : String) (ks : List String)
      → KeepsLeases L (remove_snapshot_labels c name ks)
  unfolding remove_snapshot_labels
  remove_snapshot_labels-KeepsLeases c name ks = guarded-KeepsLeases L c _ (
      leased-KeepsLeases L c _ _ _ _ (λ e l. search frame_rules)
        (λ ctx l.
          search (frame_rules, L.frame.stat, remove_snapshot_labels_func-KeepsLeases) depth 9))
