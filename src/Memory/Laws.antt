-- ===== src/Memory/Laws.antt =====
-- What is relied on in the leases and the snapshots, for the services in memory.
use containerdosstore.Prelude.{
  String, Bool, true, false, Option, none, some, List, [], ◌∷◌, ◌++◌, ◌≡◌, ◌≢◌, refl, arith, eq_iff,
  inl, inr, Bool-cases, ◌<>◌, decimal,
}
use containerdosstore.Exec.{ok, Error}
use containerdosstore.Services.{LeaseOpt, Leased}
use containerdosstore.Services.Frame.{Frame}
use containerdosstore.Services.Leases.{LeaseLaws}
use containerdosstore.Snapshots.Table.{Table, SnapshotLaws}
use containerdosstore.Services.Deletion.{is_held}
use containerdosstore.Memory.State.{Store}
use containerdosstore.Memory.Runs.{
  memory, memory_runs, memory_lease, take_lease, lease_id, memory_release, drop_id,
}

abbrev pub done_ids : Option String → List String
done_ids none = []
done_ids (some k) = k ∷ []

abbrev pub held : Store → List String
held s = s.held

abbrev pub table : Store → Table
table s = s.table

pub Frame-held : Frame memory held
unfolding memory_runs
Frame-held = record {
  get_image = λ a b s. ground arith;
  list_images = λ a b s. ground arith;
  update_image = λ a b c s. ground arith;
  create_image = λ a b s. ground arith;
  delete_image = λ a b c s. ground arith;
  import_images = λ a b c s. ground arith;
  pull_image = λ a b c s. ground arith;
  is_unpacked = λ a b c s. ground arith;
  root_fs = λ a b s. ground arith;
  image_config = λ a b s. ground arith;
  stat = λ a b c s. ground arith;
  mounts = λ a b c s. ground arith;
  walk = λ a b c s. ground arith;
  read_blob = λ a b s. ground arith;
  write_blob = λ a b c d e s. ground arith;
  content_info = λ a b s. ground arith;
  create_diff = λ a b c d s. ground arith;
  apply_diff = λ a b c s. ground arith;
  mount_all = λ a b s. ground arith;
  unmount_all = λ a b s. ground arith;
  open_file = λ a s. ground arith;
  close_file = λ a s. ground arith;
  now = λ s. ground arith;
  nanosecond = λ s. ground arith;
  random_bytes = λ s. ground arith;
}

pub Frame-table : Frame memory table
unfolding memory_runs
Frame-table = record {
  get_image = λ a b s. ground arith;
  list_images = λ a b s. ground arith;
  update_image = λ a b c s. ground arith;
  create_image = λ a b s. ground arith;
  delete_image = λ a b c s. ground arith;
  import_images = λ a b c s. ground arith;
  pull_image = λ a b c s. ground arith;
  is_unpacked = λ a b c s. ground arith;
  root_fs = λ a b s. ground arith;
  image_config = λ a b s. ground arith;
  stat = λ a b c s. ground arith;
  mounts = λ a b c s. ground arith;
  walk = λ a b c s. ground arith;
  read_blob = λ a b s. ground arith;
  write_blob = λ a b c d e s. ground arith;
  content_info = λ a b s. ground arith;
  create_diff = λ a b c d s. ground arith;
  apply_diff = λ a b c s. ground arith;
  mount_all = λ a b s. ground arith;
  unmount_all = λ a b s. ground arith;
  open_file = λ a s. ground arith;
  close_file = λ a s. ground arith;
  now = λ s. ground arith;
  nanosecond = λ s. ground arith;
  random_bytes = λ s. ground arith;
}

unfoldable pub memory_snapshots : (sn : String) → SnapshotLaws memory sn
unfolding memory_runs
memory_snapshots sn = record {
  table = table;
  table-stat = λ ctx k s. ground arith;
  stat_found = λ ctx k s i e. ground arith;
  stat_missing = λ ctx k s x e p. ground arith;
  stat_ends = λ ctx k s e. ground arith;
  remove_removes = λ ctx k s e. ground arith;
  remove_fails = λ ctx k s e. ground arith;
  remove_precondition = λ ctx k s x e p. ground arith;
  remove_ends = λ ctx k s e. ground arith;
}

abbrev Took : Leased Bool (Option String) → Store → Store → Type 0
Took l s s' = (d : Option String) × (l.done ≡ some d) × (held s' ≡ done_ids d ++ held s)

take_lease-Took :
    (k : String) (s : Store) (l : Leased Bool (Option String))
    → (take_lease k s).0 ≡ ok l
    → Took l s (take_lease k s).1
unfolding memory_runs
take_lease-Took k s l e = elim (Bool-cases (is_held k s.held)) [
  | inl there ↦ (none, ground (arith, there), ground (arith, there))
  | inr new ↦ (some k, ground (arith, new), ground (arith, new))
]

pub with_lease-Took :
    (ctx : Option Bool) (os : List LeaseOpt) (s : Store) (l : Leased Bool (Option String))
    → (memory_lease ctx os s).0 ≡ ok l
    → Took l s (memory_lease ctx os s).1
unfolding memory_runs
with_lease-Took none os s l e = cc
with_lease-Took (some true) os s l e = (none, ground arith, refl)
with_lease-Took (some false) os s l e = take_lease-Took _ s l e

pub with_lease-error :
    (ctx : Option Bool) (os : List LeaseOpt) (s : Store) (l : Leased Bool (Option String))
    (x : Error)
    → (memory_lease ctx os s).0 ≡ ok l
    → l.error ≡ some x
    → held (memory_lease ctx os s).1 ≡ held s
unfolding memory_runs
with_lease-error none os s l x e p = cc
with_lease-error (some true) os s l x e p = refl
with_lease-error (some false) os s l x e p = ground arith

pub with_lease-fails :
    (ctx : Option Bool) (os : List LeaseOpt) (s : Store)
    → ((l : Leased Bool (Option String)) → (memory_lease ctx os s).0 ≢ ok l)
    → held (memory_lease ctx os s).1 ≡ held s
unfolding memory_runs
with_lease-fails none os s never = refl
with_lease-fails (some true) os s never = refl
with_lease-fails (some false) os s never =
    elim (Bool-cases (is_held (lease_id ("lease-" <> decimal s.fresh) os) s.held)) [
      | inl there ↦ ground (arith, there)
      | inr new ↦ ground (
        arith,
        new,
        never (record {
          ctx = some true;
          done = some (some (lease_id ("lease-" <> decimal s.fresh) os));
          error = none;
        }),
      )
    ]

drop_id-held : (k : String) (ks l : List String) → ks ≡ k ∷ l → drop_id k ks ≡ l
unfolding memory_runs
drop_id-held k [] l e = cc
drop_id-held k (j ∷ ks) l e = ground (arith, eq_iff j k)

pub release-held :
    (d : Option String) (ctx : Option Bool) (s : Store) (l : List String)
    → held s ≡ done_ids d ++ l
    → held (memory_release d ctx s).1 ≡ l
unfolding memory_runs
release-held none ctx s l e = e
release-held (some k) ctx s l e = drop_id-held k s.held l e

pub release-succeeds :
    (d : Option String) (ctx : Option Bool) (s : Store) (l : List String)
    → held s ≡ done_ids d ++ l
    → (memory_release d ctx s).0 ≡ ok tt
unfolding memory_runs
release-succeeds none ctx s l e = ground arith
release-succeeds (some k) ctx s l e = ground arith

pub release-fails :
    (d : Option String) (ctx : Option Bool) (s : Store)
    → (memory_release d ctx s).0 ≢ ok tt
    → held (memory_release d ctx s).1 ≡ held s
unfolding memory_runs
release-fails none ctx s never = ground arith
release-fails (some k) ctx s never = ground arith

unfoldable pub memory_leases : LeaseLaws memory
unfolding memory_runs
memory_leases = record {
  held = held;
  ids_of = done_ids;
  frame = Frame-held;
  remove = λ sn ctx k s. ground arith;
  update = λ sn ctx i fs s. ground arith;
  prepare = λ sn ctx k p os s. ground arith;
  view = λ sn ctx k p os s. ground arith;
  commit = λ sn ctx name k os s. ground arith;
  new_unpacker = λ ctx p driver sn sos aos s. ground arith;
  walk_not_empty = λ ctx h d s. ground arith;
  wait = λ u s. refl;
  with_lease = with_lease-Took;
  with_lease_error = with_lease-error;
  with_lease_fails = with_lease-fails;
  release = λ d ctx s l e fine. release-held d ctx s l e;
  release_fails = release-fails;
  done_succeeds = release-succeeds;
}
