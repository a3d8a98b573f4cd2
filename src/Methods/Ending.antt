-- ===== src/Methods/Ending.antt =====
-- Umount and Delete end.
use containerdosstore.Prelude.{ℕ, ◌<◌, ℤ, String, List, length, ◌≢◌, refl}
use containerdosstore.Exec.{exhausted}
use containerdosstore.Services.{Services}
use containerdosstore.Services.Ends.{CallsAnswer}
use containerdosstore.World.{World}
use containerdosstore.OciStore.{OciStore}
use containerdosstore.Snapshots.Table.{SnapshotLaws}
use containerdosstore.Snapshots.Pruning.{TableFrame}
use containerdosstore.Mount.{umount}
use containerdosstore.Mount.Ending.{umount-Ends}
use containerdosstore.Image.{delete}
use containerdosstore.Image.Ending.{delete-Ends}

-- Given more fuel than there are snapshots, Umount and Delete end: they do not run out of fuel,
-- whatever the services answer.
pub methods-end :
    {S : Services} (c : OciStore S) (L : SnapshotLaws S (S.snapshot_service c.driver))
    (F : TableFrame L) (C : CallsAnswer S) (fuel : ℕ) (target key name : String) (n : ℤ)
    (os : List S.DeleteOpt) (w : World S)
    → length (L.table w.services) < fuel
    → ((umount fuel c target key n w).0 ≢ exhausted) × ((delete fuel c name os w).0 ≢ exhausted)
methods-end c L F C fuel target key name n os w enough =
    let t = L.table w.services in
    (
      umount-Ends c L F C fuel target key n t enough w refl,
      delete-Ends c L F C fuel t enough name os w refl,
    )
