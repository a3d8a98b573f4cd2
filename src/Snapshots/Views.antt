-- ===== src/Snapshots/Views.antt =====
-- removeSnapshotsChain, as seen by a view of the services that Stat and Remove leave alone.
use containerdosstore.Prelude.{ℕ, zero, suc, ◌+◌, ℤ, String, Option}
use containerdosstore.Exec.Keeps.{Keeps}
use containerdosstore.Services.{Services}
use containerdosstore.Services.Frame.{Same, Shows, frame_rules}
use containerdosstore.Snapshots.Chain.{walk_chain, remove_snapshots_chain}

module _ {S : Services} {B : Type 0} (f : S.State → B) (sn : S.Snapshotter)
    (stat : (ctx : Option S.Ctx) (k : String) → Same f (S.stat sn ctx k))
    (remove : (ctx : Option S.Ctx) (k : String) → Same f (S.remove sn ctx k)) (b : B) where
  walk_chain-Shows :
      (n step : ℕ) (ctx : Option S.Ctx) (k : String) (d : ℤ)
      → Keeps (Shows {S = S} f b) (walk_chain n sn ctx k step d)
  unfolding walk_chain
  walk_chain-Shows zero step ctx k d = search frame_rules
  walk_chain-Shows (suc n) step ctx k d =
      search (frame_rules, stat, remove, walk_chain-Shows n (step + 1) ctx) depth 9

  pub remove_snapshots_chain-Shows :
      (fuel : ℕ) (ctx : Option S.Ctx) (k : String) (d : ℤ)
      → Keeps (Shows {S = S} f b) (remove_snapshots_chain fuel ctx sn k d)
  unfolding remove_snapshots_chain
  remove_snapshots_chain-Shows fuel ctx k d = walk_chain-Shows fuel 0 ctx k d
