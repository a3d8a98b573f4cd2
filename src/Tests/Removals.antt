-- ===== src/Tests/Removals.antt =====
-- Umount and Delete at concrete data.
use containerdosstore.Prelude.{
  true, ◌≤◌, ◌+◌, pos, some, [], ◌∷◌, ◌≡◌, refl, arith, length, String, negsuc, false, ◌≢◌,
}
use containerdosstore.Memory.Laws.{memory_snapshots}
use containerdosstore.Memory.Images.{memory_tables, memory_images, memory_unpacked, layers}
use containerdosstore.Memory.{memory}
use containerdosstore.Mount.{umount}
use containerdosstore.Mount.Umount.{umounted, length-umount, table-umount}
use containerdosstore.Image.{delete}
use containerdosstore.Image.Removal.{Deleted, delete-Deleted}
use containerdosstore.World.{World}
use containerdosstore.Services.Types.{Image}
use containerdosstore.Tests.Data.{image, program_runs, world, store, snapshot, services}
use containerdosstore.Import.{import_loop, no_import_opts, ImportOpts}
use containerdosstore.Exec.{exhausted, pure, ◌>>=◌}
use containerdosstore.Memory.Answers.{memory_answers}
use containerdosstore.Methods.Ending.{methods-end}
use containerdosstore.Import.Loop.{unpack_each, import_loop-each}
use containerdosstore.Tests.Chains.{layers-IsUnique}

-- Told to remove two, Umount takes top and mid.
umount_run :
    (umount 9 store "/mnt" "top" (pos 2) world).1.services.table
    ≡ snapshot "base" "" ∷ snapshot "other" "base" ∷ []
unfolding umount program_runs
umount_run = refl

length-umount_example :
    length services.table ≤ length (umount 9 store "/mnt" "top" (pos 2) world).1.services.table + 2
unfolding memory_snapshots
length-umount_example =
    length-umount store (memory_snapshots "overlayfs") (memory_tables "overlayfs") 9 "/mnt" "top" 2
      world layers-IsUnique (omega arith)

table-umount_example :
    (umount 9 store "/mnt" "top" (pos 2) world).1.services.table
    ≡ umounted services.table "top" (pos 2)
unfolding umount program_runs memory_snapshots
table-umount_example =
    table-umount store (memory_snapshots "overlayfs") (memory_tables "overlayfs") 9 "/mnt" "top"
      (pos 2) world (omega arith) refl

delete-Deleted_example :
    Deleted store
      (memory_unpacked "overlayfs")
      "img"
      (services.table, services.images, layers services)
      (delete 9 store "img" [] world).1.services.table
      (delete 9 store "img" [] world).1.services.images
unfolding delete program_runs memory_snapshots memory_images memory_unpacked
delete-Deleted_example =
    delete-Deleted store (memory_unpacked "overlayfs") 9 "img" [] world (omega arith) refl

abbrev named : String → Image
named k = record image { name = k }

-- Three imported images: img, one and two.
abbrev imported : World memory
imported = record {
  services = record services { images = image ∷ named "one" ∷ named "two" ∷ [] };
  log = [];
}

methods-end_example :
    ((umount 9 store "/mnt" "top" (negsuc 0) world).0 ≢ exhausted)
    × ((delete 9 store "img" [] world).0 ≢ exhausted)
unfolding memory_snapshots
methods-end_example =
    methods-end store (memory_snapshots "overlayfs") (memory_tables "overlayfs") memory_answers 9
      "/mnt" "top" "img" (negsuc 0) [] world (omega arith)

abbrev unpacking : ImportOpts memory
unpacking = record no_import_opts { unpack = true }

import_loop-each_example :
    import_loop store (some false) unpacking (image ∷ named "one" ∷ []) [] [] world
    ≡ (unpack_each store (some false) unpacking (image ∷ named "one" ∷ [])
          >>= (λ news. pure (image ∷ named "one" ∷ [], news)))
        world
import_loop-each_example =
    import_loop-each store (some false) unpacking (image ∷ named "one" ∷ []) [] [] world
