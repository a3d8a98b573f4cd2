-- ===== src/Snapshots/Table.antt =====
-- The snapshots of a snapshotter as a table, and what the program relies on in its Stat and Remove:
-- `SnapshotLaws` says what the documentation of the containerd snapshotter promises. An operation may
-- fail for reasons of its own (errors, a panic); it then leaves the table alone.
use containerdosstore.Prelude.{
  String, Bool, true, false, Option, none, some, List, [], ◌∷◌, ◌==◌, ◌||◌, ◌≡◌, ◌≢◌, if◌then◌else◌,
}
use containerdosstore.Exec.{Error, ok, err, exhausted, is_not_found, is_failed_precondition}
use containerdosstore.Services.{Services}
use containerdosstore.Services.Types.{Info}

abbrev pub Table : Type 0
Table = List Info

unfoldable pub find : String → Table → Option Info
find k [] = none
find k (i ∷ t) = if i.name == k then some i else find k t

-- Whether some snapshot has k for its parent.
unfoldable pub has_child : String → Table → Bool
has_child k [] = false
has_child k (i ∷ t) = i.parent == k || has_child k t

unfoldable pub erase : String → Table → Table
erase k [] = []
erase k (i ∷ t) = let rest = erase k t in if i.name == k then rest else i ∷ rest

pub record SnapshotLaws (S : Services) (sn : S.Snapshotter) : Type 0 where
  pub table : S.State → Table
  -- Stat reads: it finds the snapshot of the key, or reports not-found where there is none.
  pub table-stat :
      (ctx : Option S.Ctx) (k : String) (s : S.State) → table (S.stat sn ctx k s).1 ≡ table s
  pub stat_found :
      (ctx : Option S.Ctx) (k : String) (s : S.State) (i : Info)
      → (S.stat sn ctx k s).0 ≡ ok i
      → find k (table s) ≡ some i
  pub stat_missing :
      (ctx : Option S.Ctx) (k : String) (s : S.State) (e : Error)
      → (S.stat sn ctx k s).0 ≡ err e
      → is_not_found e ≡ true
      → find k (table s) ≡ none
  pub stat_ends :
      (ctx : Option S.Ctx) (k : String) (s : S.State) → (S.stat sn ctx k s).0 ≢ exhausted
  -- Remove takes away a snapshot that has no children, or leaves the table alone. A failed
  -- precondition says that there are children.
  pub remove_removes :
      (ctx : Option S.Ctx) (k : String) (s : S.State)
      → (S.remove sn ctx k s).0 ≡ ok tt
      → (has_child k (table s) ≡ false) × (table (S.remove sn ctx k s).1 ≡ erase k (table s))
  pub remove_fails :
      (ctx : Option S.Ctx) (k : String) (s : S.State)
      → (S.remove sn ctx k s).0 ≢ ok tt
      → table (S.remove sn ctx k s).1 ≡ table s
  pub remove_precondition :
      (ctx : Option S.Ctx) (k : String) (s : S.State) (e : Error)
      → (S.remove sn ctx k s).0 ≡ err e
      → is_failed_precondition e ≡ true
      → has_child k (table s) ≡ true
  pub remove_ends :
      (ctx : Option S.Ctx) (k : String) (s : S.State) → (S.remove sn ctx k s).0 ≢ exhausted
