-- ===== src/Memory/Images.antt =====
-- What is relied on in images and in removing snapshots, for the services in memory.
use containerdosstore.Prelude.{
  String, Option, none, some, List, [], ◌∷◌, ◌++◌, ◌≡◌, arith, eq_iff, inl, inr, Bool, Map,
  Option-cases, lookup, ◌==◌, if◌then◌else◌, false, refl, ◌∙◌, ap, ◌≢◌,
}
use containerdosstore.Exec.{ok}
use containerdosstore.Snapshots.Table.{Table, find, has_child}
use containerdosstore.Services.Types.{Info, Digest, Image}
use containerdosstore.Mount.Laws.{Added, MountLaws}
use containerdosstore.Memory.Runs.{
  with_ctx, labels_of, prepare, mounts, memory, memory_runs, config_of,
}
use containerdosstore.Services.Frame.{LeaseFrame}
use containerdosstore.Snapshots.Pruning.{TableFrame}
use containerdosstore.Image.Laws.{ImageLaws, UnpackedLaws}
use containerdosstore.Memory.State.{Store}
use containerdosstore.Memory.Laws.{memory_snapshots, table, Frame-table}

abbrev pub images : Store → List Image
images s = s.images

abbrev pub layers : Store → Image → List Digest
layers s i = config_of (lookup i.target.digest s.blobs)

pub LeaseFrame-table : LeaseFrame memory table
unfolding memory_runs
LeaseFrame-table = record {
  with_lease = λ ctx os s. ground arith;
  release = λ d ctx s. ground arith;
  delete_lease = λ ctx k s. ground arith;
}

pub LeaseFrame-images : LeaseFrame memory images
unfolding memory_runs
LeaseFrame-images = record {
  with_lease = λ ctx os s. ground arith;
  release = λ d ctx s. ground arith;
  delete_lease = λ ctx k s. ground arith;
}

pub LeaseFrame-layers : LeaseFrame memory layers
unfolding memory_runs
LeaseFrame-layers = record {
  with_lease = λ ctx os s. ground arith;
  release = λ d ctx s. ground arith;
  delete_lease = λ ctx k s. ground arith;
}

unfoldable pub memory_tables : (sn : String) → TableFrame (memory_snapshots sn)
unfolding memory_snapshots
memory_tables sn = record { frame = Frame-table; leases = LeaseFrame-table }

unfoldable pub memory_images : (sn : String) → ImageLaws (memory_snapshots sn)
unfolding memory_runs memory_snapshots
memory_images sn = record {
  tables = memory_tables sn;
  images = images;
  layers = layers;
  image_leases = LeaseFrame-images;
  layer_leases = LeaseFrame-layers;
  images-get_image = λ ctx k s. ground arith;
  layers-get_image = λ ctx k s. ground arith;
  images-is_unpacked = λ ctx i driver s. ground arith;
  layers-is_unpacked = λ ctx i driver s. ground arith;
  images-root_fs = λ ctx i s. ground arith;
  images-stat = λ ctx k s. ground arith;
  images-remove = λ ctx k s. ground arith;
  get_image_found = λ ctx k s i e. ground arith;
  root_fs_layers = λ ctx i s ds e. ground arith;
  delete_image_deletes = λ ctx k os s e. ground arith;
}

unfoldable pub memory_unpacked : (driver : String) → UnpackedLaws memory driver
unfolding memory_runs memory_snapshots memory_images
memory_unpacked driver = record {
  snapshots = memory_snapshots driver;
  laws = memory_images driver;
  is_unpacked_tells = λ ctx i s b e. ground arith;
}

pub find-snoc :
    (j : String) (t : Table) (i : Info)
    → find i.name t ≡ none
    → find j (t ++ (i ∷ [])) ≡ (if i.name == j then some i else find j t)
unfolding find
find-snoc j [] i h = refl
find-snoc j (m ∷ t) i h =
    ground (arith, find-snoc j t i, eq_iff m.name j, eq_iff i.name j, eq_iff m.name i.name)

has_child-snoc :
    (k : String) (t : Table) (i : Info)
    → (i.parent == k) ≡ false
    → has_child k (t ++ (i ∷ [])) ≡ has_child k t
unfolding has_child
has_child-snoc k [] i h = ground (arith, h)
has_child-snoc k (m ∷ t) i h = ground (arith, has_child-snoc k t i h)

-- A snapshot is made under a key that is new and not empty; its parent is there, or "".
prepare_ready :
    (k p : String) (os : List (Map String)) (s : Store) (m : String)
    → (prepare k p os s).0 ≡ ok m
    → let i : Info = record { name = k; parent = p; labels = labels_of os; rest = "active" } in
      (find k s.table ≡ none)
      × ((p == k) ≡ false)
      × ((prepare k p os s).1.table ≡ s.table ++ (i ∷ []))
unfolding memory_runs
prepare_ready k p os s m e = elim (Option-cases (find k s.table)) [
  | inl new ↦ (new, ground (arith, new, eq_iff k "", eq_iff p "", eq_iff p k), ground (arith, new))
  | inr (i, there) ↦ ground (arith, there)
]

prepare_adds :
    (k p : String) (os : List (Map String)) (s : Store) (m : String)
    → (prepare k p os s).0 ≡ ok m
    → Added k p s.table (prepare k p os s).1.table
prepare_adds k p os s m e =
    let i : Info = record { name = k; parent = p; labels = labels_of os; rest = "active" } in
    let (new, other_parent, is) = prepare_ready k p os s m e in
    record {
      info = i;
      parent = refl;
      new = new;
      finds = λ j. ap (find j) is ∙ find-snoc j s.table i new;
      children = ap (has_child k) is ∙ has_child-snoc k s.table i other_parent;
    }

mounts_found :
    (k : String) (s : Store) (m : String)
    → (mounts k s).0 ≡ ok m
    → (i : Info) × (find k s.table ≡ some i)
unfolding memory_runs
mounts_found k s m e = elim (Option-cases (find k s.table)) [
  | inl missing ↦ ground (arith, missing)
  | inr found ↦ found
]

prepare_adds_in :
    (ctx : Option Bool) (k p : String) (os : List (Map String)) (s : Store) (m : String)
    → (with_ctx ctx (λ _. prepare k p os) s).0 ≡ ok m
    → Added k p s.table (with_ctx ctx (λ _. prepare k p os) s).1.table
unfolding memory_runs
prepare_adds_in none k p os s m e = cc
prepare_adds_in (some ctx) k p os s m e = prepare_adds k p os s m e

prepare_fails_in :
    (ctx : Option Bool) (k p : String) (os : List (Map String)) (s : Store)
    → ((m : String) → (with_ctx ctx (λ _. prepare k p os) s).0 ≢ ok m)
    → (with_ctx ctx (λ _. prepare k p os) s).1.table ≡ s.table
unfolding memory_runs
prepare_fails_in none k p os s never = refl
prepare_fails_in (some ctx) k p os s never = ground (arith, never k)

mounts_found_in :
    (ctx : Option Bool) (k : String) (s : Store) (m : String)
    → (with_ctx ctx (λ _. mounts k) s).0 ≡ ok m
    → (i : Info) × (find k s.table ≡ some i)
unfolding memory_runs
mounts_found_in none k s m e = cc
mounts_found_in (some ctx) k s m e = mounts_found k s m e

pub memory_mounts : (sn : String) → MountLaws (memory_snapshots sn)
unfolding memory_snapshots
memory_mounts sn = record {
  tables = memory_tables sn;
  view_adds = λ ctx k p os s m e. prepare_adds_in ctx k p os s m e;
  prepare_adds = λ ctx k p os s m e. prepare_adds_in ctx k p os s m e;
  view_fails = λ ctx k p os s never. prepare_fails_in ctx k p os s never;
  prepare_fails = λ ctx k p os s never. prepare_fails_in ctx k p os s never;
  mounts_found = λ ctx k s m e. mounts_found_in ctx k s m e;
}
