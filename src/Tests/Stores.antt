-- ===== src/Tests/Stores.antt =====
-- Methods of the store, and the theorems about them, at concrete data.
use containerdosstore.Prelude.{
  ◌⊎◌, List, Bool, ◌++◌, none, some, [], ◌∷◌, ◌≡◌, ◌≢◌, refl, true, false, pos,
}
use containerdosstore.Exec.{Error, failure, already_exists, other, ok, err, panic}
use containerdosstore.Services.Types.{Image}
use containerdosstore.World.{World}
use containerdosstore.Memory.{memory}
use containerdosstore.Memory.Laws.{memory_leases}
use containerdosstore.Methods.{Refused, methods-uninitiated}
use containerdosstore.OciStore.{init, acquire, report, is_initiated}
use containerdosstore.Pull.{pull}
use containerdosstore.Pull.Filter.{count, filter_pull_unpack-split}
use containerdosstore.World.{LogLine, warn}
use containerdosstore.Pull.{filter_pull_unpack}
use containerdosstore.Image.{get, list, delete, update, create}
use containerdosstore.Unpack.{unpack}
use containerdosstore.Commit.{commit}
use containerdosstore.Snapshots.{
  list_snapshots, get_snapshot, update_snapshot, label_snapshot, remove_snapshot_labels,
}
use containerdosstore.Import.{import_reader, import_file, single_image, single_import_file}
use containerdosstore.Import.Single.{Single}
use containerdosstore.Import.Outcomes.{import_reader-swallows, import_file-swallows}
use containerdosstore.Mount.{mount, mount_from_scratch, umount, mount_snapshot, mount_target}
use containerdosstore.Mount.NilImage.{nil_image-NoError}
use containerdosstore.Mount.Leases.{mount-held_of_err}
use containerdosstore.Tests.Data.{
  program_runs, world, image, descriptor, store, fresh_store, snapshot, services,
}

-- Two archives, one image and no image
init_run : (init fresh_store false world).0 ≡ ok store
unfolding init program_runs
init_run = refl

-- The image goes, and its chain with it down to base.
delete_run :
    (delete 9 store "img" [] world).1.services.table
    ≡ snapshot "base" "" ∷ snapshot "other" "base" ∷ []
unfolding delete program_runs
delete_run = refl

-- An archive that is not there: no error, no images, and a message of success.
missing_archive : (import_file store "gone.tar" [] world).0 ≡ ok []
unfolding import_file program_runs
missing_archive = refl

abbrev one : Image
one = record { name = "one"; target = descriptor "manifest" "one"; created_at = 0; labels = none }

two_archives_images :
    (single_import_file 9 store "two.tar" [] world).1.services.images ≡ image ∷ one ∷ []
unfolding single_import_file program_runs
two_archives_images = refl

bad_mount :
    (mount store (some image) "/bad" "key" false [] world).0
    ≡ err (failure other "no such mount point")
unfolding mount program_runs
bad_mount = refl

nil_mount : (mount store none "/bad" "key" false [] world).0 ≡ panic
unfolding mount program_runs
nil_mount = refl

methods-uninitiated_example :
    Refused (get fresh_store "img") world
    × Refused (list fresh_store []) world
    × Refused (delete 9 fresh_store "img" []) world
    × Refused (update fresh_store image []) world
    × Refused (create fresh_store image) world
    × Refused (unpack fresh_store image []) world
    × Refused (pull fresh_store "img" []) world
    × Refused (import_reader fresh_store (image ∷ []) []) world
    × Refused (import_file fresh_store "one.tar" []) world
    × Refused (single_import_file 9 fresh_store "one.tar" []) world
    × Refused (list_snapshots fresh_store []) world
    × Refused (get_snapshot fresh_store "top") world
    × Refused (update_snapshot fresh_store (snapshot "top" "mid") []) world
    × Refused (label_snapshot fresh_store "top" (("a", "1") ∷ [])) world
    × Refused (remove_snapshot_labels fresh_store "top" ("b" ∷ [])) world
    × Refused (mount fresh_store (some image) "/mnt" "top" false []) world
    × Refused (mount_from_scratch fresh_store "/mnt" "top") world
    × Refused (umount 9 fresh_store "/mnt" "top" (pos 1)) world
    × Refused (commit fresh_store "top" []) world
unfolding is_initiated
methods-uninitiated_example =
    methods-uninitiated fresh_store world 9 "img" "one.tar" "top" "/mnt" image
      (snapshot "top" "mid") [] [] ("b" ∷ []) (("a", "1") ∷ []) (some image) false (pos 1)
      (image ∷ []) [] [] [] [] [] [] refl

-- Of two requests to unpack one is left.
abbrev unpack_warning : LogLine
unpack_warning = record {
  level = warn;
  format = "Requested 'WithPullUnpack' option, ignoring it";
  args = [];
}

filter_pull_unpack-split_example :
    let opts = false ∷ true ∷ true ∷ [] in
    let r = filter_pull_unpack {S = memory} opts world in
    ((count (λ x. x) opts ≡ 0) × (r ≡ (ok opts, world)))
    ⊎ ((before : List Bool) × (o : Bool) × (behind : List Bool) × (opts ≡ before ++ (o ∷ behind))
        × (o ≡ true)
        × (count (λ x. x) before ≡ 0)
        × (r ≡ (ok (before ++ behind), record world { log = world.log ++ (unpack_warning ∷ []) })))
filter_pull_unpack-split_example = filter_pull_unpack-split (false ∷ true ∷ true ∷ []) world

-- The next lease is taken already.
abbrev busy : World memory
busy = record { services = record services { held = "lease-1" ∷ [] }; log = [] }

abbrev taken : Error
taken = failure already_exists "lease-1: already exists"

busy_reader : (import_reader store (image ∷ []) [] busy).0 ≡ err taken
unfolding import_reader program_runs
busy_reader = refl

import_reader-swallows_example :
    (acquire store [] (report "failed to create lease to import image: %v") busy).0 ≡ err taken
unfolding is_initiated
import_reader-swallows_example =
    import_reader-swallows store (image ∷ []) [] busy taken refl busy_reader

busy_file : (import_file store "gone.tar" [] busy).0 ≡ err taken
unfolding import_file program_runs
busy_file = refl

import_file-swallows_example :
    (acquire store [] (report "failed to create lease to import image: %v") busy).0 ≡ err taken
unfolding is_initiated
import_file-swallows_example = import_file-swallows store "gone.tar" [] busy taken refl busy_file

single_image_run : (single_image 9 store (some true) "one.tar" (one ∷ []) world).0 ≡ ok one
unfolding program_runs
single_image_run = refl

nil_image-NoError_example :
    let e = failure other "no such mount point" in
    ((mount_snapshot store (some true) none "key" false "" [] world).0 ≢ err e)
    × ((mount_target store (some true) none "/bad" "key" "key" world).0 ≢ err e)
nil_image-NoError_example =
    nil_image-NoError store (some true) "/bad" "key" "" false [] "key" world
      (failure other "no such mount point")

mount-held_of_err_example :
    (mount store (some image) "/bad" "key" false [] world).1.services.held ≡ "lease-0" ∷ []
unfolding memory_leases
mount-held_of_err_example =
    mount-held_of_err memory_leases store (some image) "/bad" "key" false [] world
      (failure other "no such mount point") bad_mount
