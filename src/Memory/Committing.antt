-- ===== src/Memory/Committing.antt =====
-- What Commit relies on in the snapshotter and the unpacker, for the services in memory.
use containerdosstore.Prelude.{
  String, ◌==◌, Option, none, some, List, [], ◌∷◌, ◌++◌, ◌≡◌, refl, ap, ◌∙◌, arith, eq_iff,
  if◌then◌else◌, Map, Option-cases, inl, inr, Bool, true,
}
use containerdosstore.Exec.{Error, ok, err, is_already_exists}
use containerdosstore.Services.Types.{Info}
use containerdosstore.Snapshots.Table.{Table, find, erase}
use containerdosstore.Snapshots.Prune.{find-erase}
use containerdosstore.Commit.Moving.{Moved, CommitLaws}
use containerdosstore.Memory.State.{Store}
use containerdosstore.Memory.Runs.{memory_runs, with_ctx, commit, labels_of}
use containerdosstore.Memory.Laws.{memory_snapshots}
use containerdosstore.Memory.Images.{memory_tables, find-snoc}

find-name : (k : String) (t : Table) (i : Info) → find k t ≡ some i → i.name ≡ k
unfolding find
find-name k [] i e = cc
find-name k (m ∷ t) i e = ground (arith, find-name k t i, eq_iff m.name k)

module _ (n k : String) (ms : List (Map String)) (s : Store) where
  abbrev renamed : Info → Info
  renamed i = record i { name = n; labels = labels_of ms; rest = "committed" }

  commit-ready :
      (commit n k ms s).0 ≡ ok tt
      → (i : Info) × (find n s.table ≡ none)
        × (find k s.table ≡ some i)
        × ((commit n k ms s).1.table ≡ erase i.name s.table ++ (renamed i ∷ []))
  unfolding memory_runs
  commit-ready e = elim (Option-cases (find n s.table)) [
    | inl new ↦ elim (Option-cases (find k s.table)) [
      | inl missing ↦ ground (arith, new, missing)
      | inr (i, there) ↦ (i, new, there, ground (arith, new, there))
    ]
    | inr (i, there) ↦ ground (arith, there)
  ]

  commit-Moved : (commit n k ms s).0 ≡ ok tt → Moved k n s.table (commit n k ms s).1.table
  commit-Moved e =
      let (i, new, there, is) = commit-ready e in
      let named = find-name k s.table i there in
      record {
        active = i;
        was = there;
        committed = renamed i;
        parent = refl;
        new = new;
        finds = λ j.
            ap (find j) is
            ∙ find-snoc j (erase i.name s.table) (renamed i)
                (ground (arith, find-erase i.name n s.table, new))
            ∙ ap (λ o. if n == j then some (renamed i) else o)
                (find-erase i.name j s.table
                  ∙ ap (λ x. if x == j then none else find j s.table) named);
      }

  commit-exists :
      (e : Error)
      → (commit n k ms s).0 ≡ err e
      → is_already_exists e ≡ true
      → (i : Info) × (find n (commit n k ms s).1.table ≡ some i)
  unfolding memory_runs
  commit-exists x e is = elim (Option-cases (find n s.table)) [
    | inl new ↦ elim (Option-cases (find k s.table)) [
      | inl missing ↦ ground (arith, new, missing)
      | inr (i, there) ↦ ground (arith, new, there)
    ]
    | inr (i, there) ↦ (i, ground (arith, there))
  ]

commit_moves :
    (ctx : Option Bool) (n k : String) (ms : List (Map String)) (s : Store)
    → (with_ctx ctx (λ _. commit n k ms) s).0 ≡ ok tt
    → Moved k n s.table (with_ctx ctx (λ _. commit n k ms) s).1.table
unfolding memory_runs
commit_moves none n k ms s e = cc
commit_moves (some ctx) n k ms s e = commit-Moved n k ms s e

commit_exists :
    (ctx : Option Bool) (n k : String) (ms : List (Map String)) (s : Store) (e : Error)
    → (with_ctx ctx (λ _. commit n k ms) s).0 ≡ err e
    → is_already_exists e ≡ true
    → (i : Info) × (find n (with_ctx ctx (λ _. commit n k ms) s).1.table ≡ some i)
unfolding memory_runs
commit_exists none n k ms s x e is = cc
commit_exists (some ctx) n k ms s x e is = commit-exists n k ms s x e is

pub memory_commits : (sn : String) → CommitLaws (memory_snapshots sn)
unfolding memory_runs memory_snapshots
memory_commits sn = record {
  tables = memory_tables sn;
  commit_moves = commit_moves;
  commit_exists = commit_exists;
  table-new_unpacker = λ ctx p driver sn' sos aos s. ground arith;
  walk_adds = λ ctx h d s j i e. ground (arith, e);
  wait_adds = λ u s j i e. e;
}
