-- ===== src/Tests/Sessions.antt =====
-- Whole runs of the command line.
use containerdosstore.Prelude.{Bool, true, false, [], ◌∷◌, ◌++◌, ◌≡◌, refl, none, some}
use containerdosstore.Exec.{ok, returned}
use containerdosstore.Memory.{memory}
use containerdosstore.OciStore.{OciStore, init, new_oci_store, is_initiated, get_client}
use containerdosstore.Image.{delete}
use containerdosstore.Import.{import_file}
use containerdosstore.Mount.{umount}
use containerdosstore.Commands.{
  Console, RootFlags, UmountFlags, import_cmd, delete_cmd, umount_cmd, init_cs, run, run_command,
  finalize, execute, MountFlags, Command,
}
use containerdosstore.Commands.Views.{main-run}
use containerdosstore.Commands.Outcomes.{level_warning}
use containerdosstore.Commands.Flags.{
  RootLine, MountLine, UmountLine, mount_flags, umount_flags, main, root_flags, command_of, refuse,
  refused_command, root_values, delete_line, umount_line,
}
use containerdosstore.Tests.Data.{program_runs, world, snapshot}

abbrev pub console : Console memory
console = record {
  LogLevel = Bool;
  new_level = false;
  parse_level = λ level. returned true;
  background = false;
  close_snapshotter = λ sn s. (ok tt, s);
  marshal_images = λ imgs. ok "[]";
  marshal_snapshots = λ infos. ok "[]";
  print_table = λ rows s. (ok tt, s);
  println = λ text s. (ok tt, s);
}

abbrev flags : RootFlags
flags = record { root = "/var"; loglevel = "warn"; debug = false }

abbrev pub umount_result : UmountFlags
umount_result = record { remove_all = false; remove_active = true; snapshot_key = "top" }

delete_exit : (execute console 9 flags (delete_cmd "img") world).0 ≡ ok 0
unfolding execute run_command run init_cs init new_oci_store finalize get_client delete program_runs
delete_exit = refl

-- A file that is not there: the process ends well.
import_exit : (execute console 9 flags (import_cmd false "gone.tar") world).0 ≡ ok 0
unfolding execute run_command run init_cs init new_oci_store finalize get_client import_file
    program_runs
import_exit = refl

unknown_image : (execute console 9 flags (delete_cmd "gone") world).0 ≡ ok 1
unfolding execute run_command run init_cs init new_oci_store finalize get_client delete program_runs
unknown_image = refl

-- One snapshot goes with --remove-active.
umount_run :
    (execute console 9 flags (umount_cmd umount_result "/mnt") world).1.services.table
    ≡ snapshot "base" "" ∷ snapshot "mid" "base" ∷ snapshot "other" "base" ∷ []
unfolding execute run_command run init_cs init new_oci_store finalize get_client umount program_runs
umount_run = refl

abbrev pub root_line : RootLine
root_line = record { root = some "/var"; loglevel = some "warn"; debug = none }

abbrev mount_options : MountLine
mount_options = record {
  read_only = some true;
  unpack = none;
  snapshot_key = none;
  image = some "img";
  from_scratch = none;
}

abbrev mount_result : MountFlags
mount_result = record {
  read_only = true;
  unpack = false;
  snapshot_key = "";
  image = "img";
  from_scratch = false;
}

-- --from-scratch=false is enough for the checks, and leaves no image to mount.
scratch_false :
    mount_flags (record mount_options { image = none; read_only = none; from_scratch = some false })
    ≡ some (record mount_result { read_only = false; image = "" })
unfolding mount_flags
scratch_false = refl

abbrev umount_options : UmountLine
umount_options = record { remove_all = none; remove_active = some true; snapshot_key = some "top" }

-- Both flags to remove snapshots are refused, after the line about the log level.
refused_line :
    main console 9 root_line
      (umount_line (record umount_options { remove_all = some true }) "/mnt")
      world
    ≡ (ok 1, record world { log = world.log ++ level_warning (root_values root_line) })
unfolding main umount_flags refuse refused_command init_cs init new_oci_store finalize get_client
    is_initiated program_runs
refused_line = refl

main_run : (main console 9 root_line (delete_line "img") world).0 ≡ ok 0
unfolding main delete_exit root_flags command_of
main_run = delete_exit

main-run_example :
    (given_flags : RootFlags) × (command : Command) × (cs : OciStore memory) × (level : Bool)
    × (root_flags root_line ≡ some given_flags)
    × (command_of (delete_line "img") ≡ some command)
    × ((init_cs console given_flags world).0 ≡ ok (cs, level))
    × (is_initiated cs ≡ true)
    × ((run console 9 cs command (init_cs console given_flags world).1).0 ≡ ok tt)
main-run_example = main-run console 9 root_line (delete_line "img") world main_run
