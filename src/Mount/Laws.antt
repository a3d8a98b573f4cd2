-- ===== src/Mount/Laws.antt =====
-- What Mount relies on in View, Prepare and Mounts of the snapshotter: a call that makes a snapshot
-- adds one of a new key, with the parent that it is given and no children, and a call that does not
-- leaves the table alone. Mounts of a key are those of a snapshot that is there.
use containerdosstore.Prelude.{String, ◌==◌, Option, none, some, List, if◌then◌else◌, ◌≡◌, ◌≢◌}
use containerdosstore.Exec.{ok}
use containerdosstore.Services.{Services}
use containerdosstore.Services.Types.{Info}
use containerdosstore.Snapshots.Table.{Table, SnapshotLaws, find, has_child}
use containerdosstore.Snapshots.Pruning.{TableFrame}

pub record Added (k p : String) (t t' : Table) : Type 0 where
  pub info : Info
  pub parent : info.parent ≡ p
  pub new : find k t ≡ none
  pub finds : (j : String) → find j t' ≡ (if k == j then some info else find j t)
  pub children : has_child k t' ≡ has_child k t

pub record MountLaws {S : Services} {sn : S.Snapshotter} (L : SnapshotLaws S sn) : Type 0 where
  pub tables : TableFrame L
  pub view_adds :
      (ctx : Option S.Ctx) (k p : String) (os : List S.SnapshotOpt) (s : S.State) (m : S.Mounts)
      → (S.view sn ctx k p os s).0 ≡ ok m
      → Added k p (L.table s) (L.table (S.view sn ctx k p os s).1)
  pub prepare_adds :
      (ctx : Option S.Ctx) (k p : String) (os : List S.SnapshotOpt) (s : S.State) (m : S.Mounts)
      → (S.prepare sn ctx k p os s).0 ≡ ok m
      → Added k p (L.table s) (L.table (S.prepare sn ctx k p os s).1)
  pub view_fails :
      (ctx : Option S.Ctx) (k p : String) (os : List S.SnapshotOpt) (s : S.State)
      → ((m : S.Mounts) → (S.view sn ctx k p os s).0 ≢ ok m)
      → L.table (S.view sn ctx k p os s).1 ≡ L.table s
  pub prepare_fails :
      (ctx : Option S.Ctx) (k p : String) (os : List S.SnapshotOpt) (s : S.State)
      → ((m : S.Mounts) → (S.prepare sn ctx k p os s).0 ≢ ok m)
      → L.table (S.prepare sn ctx k p os s).1 ≡ L.table s
  pub mounts_found :
      (ctx : Option S.Ctx) (k : String) (s : S.State) (m : S.Mounts)
      → (S.mounts sn ctx k s).0 ≡ ok m
      → (i : Info) × (find k (L.table s) ≡ some i)
