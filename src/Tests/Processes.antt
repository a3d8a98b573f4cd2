-- ===== src/Tests/Processes.antt =====
-- Four processes: an import that finds no file, a mount that fails, a line that is refused, and the
-- deletion of an image.
use containerdosstore.Prelude.{some, none, [], ◌≡◌, refl, arith, Bool, true, Option, pos, negsuc}
use containerdosstore.Exec.{ok}
use containerdosstore.World.{World}
use containerdosstore.OciStore.{init, new_oci_store, get_client}
use containerdosstore.Image.{get, delete}
use containerdosstore.Import.{import_file}
use containerdosstore.Mount.{mount, umount}
use containerdosstore.Memory.{memory, Store}
use containerdosstore.Memory.Laws.{memory_leases, memory_snapshots, held, table}
use containerdosstore.Commands.{init_cs, run, run_command, finalize, execute}
use containerdosstore.Commands.Flags.{
  refuse, refused_command, MountLine, UmountLine, main, command_of, import_line, umount_line,
  umount_flags, delete_line, commit_line, mount_line,
}
use containerdosstore.Commands.Views.{ConsoleFrame}
use containerdosstore.Commands.Effects.{table-main_umount, main-delete}
use containerdosstore.Snapshots.Description.{prune_all}
use containerdosstore.Services.Types.{Image}
use containerdosstore.Services.Frame.{Same}
use containerdosstore.Image.Laws.{found_image, without}
use containerdosstore.Memory.Images.{memory_tables, memory_images, memory_unpacked, images, layers}
use containerdosstore.Commands.History.{History, over, next, ran, refused_mount, held-History}
use containerdosstore.Tests.Data.{program_runs, world, services}
use containerdosstore.Tests.Sessions.{console, root_line, umount_result}

db_init-same :
    {B : Type 0} (f : Store → B) (ctx : Option Bool) (db : Unit {0})
    → Same f (memory.db_init ctx db)
unfolding program_runs
db_init-same f none db s = refl
db_init-same f (some ctx) db s = refl

-- Nothing of this changes the services in memory.
console_frame : {B : Type 0} (f : Store → B) → ConsoleFrame console f
unfolding program_runs
console_frame f = record {
  new_snapshotter = λ path s. refl;
  bolt_open = λ path s. refl;
  new_content_store = λ path s. refl;
  db_init = db_init-same f;
  new_client = λ db sn p s. refl;
  close_snapshotter = λ sn s. refl;
  print_table = λ rows s. refl;
  println = λ text s. refl;
}

abbrev bad_mount : MountLine
bad_mount = record {
  read_only = none;
  unpack = none;
  snapshot_key = some "key";
  image = some "img";
  from_scratch = none;
}

abbrev imported : World memory
imported = (main console 9 root_line (import_line none "gone.tar") world).1

abbrev not_mounted : World memory
not_mounted = (main console 9 root_line (mount_line bad_mount "/bad") imported).1

abbrev refused : World memory
refused = (main console 9 root_line (commit_line none "top") not_mounted).1

abbrev deleted : World memory
deleted = (main console 9 root_line (delete_line "img") refused).1

mount_exit : (main console 9 root_line (mount_line bad_mount "/bad") imported).0 ≡ ok 1
unfolding main command_of execute run_command run init_cs init new_oci_store finalize get_client
    import_file mount get program_runs
mount_exit = refl

processes : History console world deleted
processes = next (ran 9 root_line (import_line none "gone.tar") refl) (
    next (refused_mount 9 root_line bad_mount "/bad" mount_exit) (
      next (ran 9 root_line (commit_line none "top") refl)
        (next (ran 9 root_line (delete_line "img") refl) over)))

-- The image is gone in the end.
processes_images : deleted.services.images ≡ []
unfolding main command_of execute run_command run init_cs init new_oci_store finalize get_client
    import_file mount get delete program_runs refuse refused_command
processes_images = refl

held-History_example : deleted.services.held ≡ services.held
unfolding memory_leases
held-History_example = held-History console memory_leases (console_frame held) processes

abbrev umount_active : UmountLine
umount_active = record { remove_all = none; remove_active = some true; snapshot_key = some "top" }

umount_exit : (main console 9 root_line (umount_line umount_active "/mnt") world).0 ≡ ok 0
unfolding main umount_flags command_of execute run_command run init_cs init new_oci_store finalize
    get_client umount program_runs
umount_exit = refl

table-main_umount_example :
    (main console 9 root_line (umount_line umount_active "/mnt") world).1.services.table
    ≡ prune_all services.table "top" (pos 0)
unfolding memory_snapshots umount_flags
table-main_umount_example =
    table-main_umount console (memory_snapshots "overlayfs") (memory_tables "overlayfs")
      (console_frame table) 9 root_line umount_active umount_result "/mnt" world refl (omega arith)
      umount_exit

delete_exit : (main console 9 root_line (delete_line "img") world).0 ≡ ok 0
unfolding main command_of execute run_command run init_cs init new_oci_store finalize get_client
    delete program_runs
delete_exit = refl

main-delete_example :
    let after = (main console 9 root_line (delete_line "img") world).1.services in
    (img : Image) × (found_image "img" services.images ≡ some img)
    × (after.table ≡ prune_all services.table (memory.chain_id (layers services img)) (negsuc 0))
    × (after.images ≡ without "img" services.images)
unfolding memory_snapshots memory_images memory_unpacked
main-delete_example =
    main-delete console (memory_unpacked "overlayfs") (console_frame images) (console_frame table)
      (console_frame layers) 9 root_line "img" world (omega arith) delete_exit
