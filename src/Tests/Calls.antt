-- ===== src/Tests/Calls.antt =====
-- A session: three calls, the first of which imports nothing, and a mount that fails.
use containerdosstore.Prelude.{some, [], ◌∷◌, ◌≡◌, refl, false}
use containerdosstore.Exec.{failure, other, err}
use containerdosstore.World.{World}
use containerdosstore.Memory.{memory}
use containerdosstore.Memory.Laws.{memory_leases}
use containerdosstore.Import.{import_file}
use containerdosstore.Image.{delete}
use containerdosstore.Mount.{mount}
use containerdosstore.Snapshots.{label_snapshot}
use containerdosstore.Methods.Sessions.{
  Session, finished, calling, imported_file, not_mounted, labeled, deleted, held-Session,
}
use containerdosstore.Tests.Data.{program_runs, world, store, image, services}

abbrev imported : World memory
imported = (import_file store "gone.tar" [] world).1

abbrev labeled_world : World memory
labeled_world = (label_snapshot store "base" (("a", "1") ∷ []) imported).1

abbrev last : World memory
last = (delete 9 store "img" [] (mount store (some image) "/bad" "key" false [] labeled_world).1).1

bad_mount :
    (mount store (some image) "/bad" "key" false [] labeled_world).0
    ≡ err (failure other "no such mount point")
unfolding mount import_file label_snapshot program_runs
bad_mount = refl

calls : Session store world last
calls = calling (imported_file "gone.tar" []) (
    calling (labeled "base" (("a", "1") ∷ [])) (
      calling
        (not_mounted (some image) "/bad" "key" false [] (failure other "no such mount point")
          bad_mount)
        (calling (deleted 9 "img" []) finished)))

held-Session_example : last.services.held ≡ services.held
unfolding memory_leases
held-Session_example = held-Session store memory_leases calls
