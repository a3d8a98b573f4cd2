-- ===== src/Commands/Flags.antt =====
-- The flags of the commands as they stand on the command line, their defaults, and the groups that
-- cobra is told to check: flags that exclude each other, and flags of which one is required.
use containerdosstore.Prelude.{
  ℕ, pos, negsuc, String, Bool, true, false, Option, none, some, ◌≡◌, ◌≢◌, ◌∙◌, ap, ◌↔◌, ◌⊎◌, refl,
  arith, ◌&&◌, ◌||◌, is_some, if◌then◌else◌,
}
use containerdosstore.Exec.{Exec, message, pure, ok, returned, attempt, throw, defer, ◌>>=◌}
use containerdosstore.Exec.Inversion.{ok_injective, bind-ok, attempt-ok, defer-ok}
use containerdosstore.Commands.Outcomes.{exit_code-zero}
use containerdosstore.Services.{Services}
use containerdosstore.World.{World}
use containerdosstore.Commands.{
  Console, Command, RootFlags, MountFlags, UmountFlags, commit_cmd, delete_cmd, import_cmd,
  list_cmd, list_snapshots_cmd, mount_cmd, pull_cmd, umount_cmd, unpack_cmd, remove_snap, execute,
  init_cs, finalize, exit_code,
}

-- `none` is a flag that is not given; a Boolean flag may be given as false.
pub record RootLine : Type 0 where
  pub root : Option String
  pub loglevel : Option String
  pub debug : Option Bool

pub record MountLine : Type 0 where
  pub read_only : Option Bool
  pub unpack : Option Bool
  pub snapshot_key : Option String
  pub image : Option String
  pub from_scratch : Option Bool

pub record UmountLine : Type 0 where
  pub remove_all : Option Bool
  pub remove_active : Option Bool
  pub snapshot_key : Option String

abbrev pub given {ℓ} : {A : Type ℓ} → A → Option A → A
given default none = default
given default (some a) = a

-- MarkFlagsMutuallyExclusive
abbrev pub exclusive {ℓ} : {A B : Type ℓ} → Option A → Option B → Bool
exclusive (some a) (some b) = false
exclusive _ _ = true

abbrev pub default_root : String
default_root = "/tmp/contentstore"

-- What GetString and GetBool return for the flags of the root command, whether the groups are kept to
-- or not.
abbrev pub root_values : RootLine → RootFlags
root_values line = record {
  root = given default_root line.root;
  loglevel = given "" line.loglevel;
  debug = given false line.debug;
}

unfoldable pub root_flags : RootLine → Option RootFlags
root_flags line = if exclusive line.debug line.loglevel then some (root_values line) else none

unfoldable pub mount_flags : MountLine → Option MountFlags
mount_flags line =
    if exclusive line.from_scratch line.image
      && (exclusive line.from_scratch line.unpack
          && (exclusive line.from_scratch line.read_only
              && (is_some line.from_scratch || is_some line.image)))
    then some (record {
      read_only = given false line.read_only;
      unpack = given false line.unpack;
      snapshot_key = given "" line.snapshot_key;
      image = given "" line.image;
      from_scratch = given false line.from_scratch;
    })
    else none

unfoldable pub umount_flags : UmountLine → Option UmountFlags
umount_flags line =
    if exclusive line.remove_active line.remove_all
    then some (record {
      remove_all = given false line.remove_all;
      remove_active = given false line.remove_active;
      snapshot_key = given "" line.snapshot_key;
    })
    else none

-- What stands behind the flags of the root command.
pub data Line : Type 0 where
  commit_line : Option String → String → Line
  delete_line : String → Line
  import_line : Option Bool → String → Line
  list_line : Option Bool → Line
  list_snapshots_line : Line
  mount_line : MountLine → String → Line
  pull_line : Option Bool → String → Line
  umount_line : UmountLine → String → Line
  unpack_line : String → Line

-- `commitCmd.MarkFlagRequired("image")`
unfoldable pub commit_of : Option String → String → Option Command
commit_of none key = none
commit_of (some image) key = some (commit_cmd image key)

unfoldable pub mount_of : Option MountFlags → String → Option Command
mount_of none target = none
mount_of (some flags) target = some (mount_cmd flags target)

unfoldable pub umount_of : Option UmountFlags → String → Option Command
umount_of none target = none
umount_of (some flags) target = some (umount_cmd flags target)

unfoldable pub command_of : Line → Option Command
unfolding commit_of mount_of umount_of mount_flags umount_flags
command_of (commit_line image key) = commit_of image key
command_of (delete_line name) = some (delete_cmd name)
command_of (import_line unpack file) = some (import_cmd (given false unpack) file)
command_of (list_line json) = some (list_cmd (given false json))
command_of list_snapshots_line = some list_snapshots_cmd
command_of (mount_line line target) = mount_of (mount_flags line) target
command_of (pull_line unpack ref) = some (pull_cmd (given false unpack) ref)
command_of (umount_line line target) = umount_of (umount_flags line) target
command_of (unpack_line name) = some (unpack_cmd name)

module _ {S : Services} (console : Console S) where
  -- cobra checks the required flags and the groups after PreRunE, which is initCS, and calls the
  -- finalizer after a check that fails, too.
  unfoldable pub refused_command : RootFlags → Exec (World S) (Unit {0})
  refused_command values = do
    session ← init_cs console values
    defer (λ _. none) (throw (message "invalid flags")) (λ _. finalize console session.0)

  -- A line that cobra refuses does not come to RunE, and the process exits with 1.
  unfoldable pub refuse : RootFlags → Exec (World S) ℕ
  refuse values = do ended ← attempt (refused_command values); pure (exit_code ended)

  unfoldable pub run_line : ℕ → RootFlags → Option RootFlags → Option Command → Exec (World S) ℕ
  run_line fuel values (some flags) (some command) = execute console fuel flags command
  run_line fuel values _ _ = refuse values

  unfoldable pub main : ℕ → RootLine → Line → Exec (World S) ℕ
  unfolding run_line root_flags command_of
  main fuel root line = run_line fuel (root_values root) (root_flags root) (command_of line)

  refuse-ne-zero : (values : RootFlags) (w : World S) → (refuse values w).0 ≢ ok 0
  unfolding refuse refused_command
  refuse-ne-zero values w e =
      let m = refused_command values in
      let (ended, ran, code) = bind-ok (attempt m) _ w e in
      let fine : ended ≡ returned tt = exit_code-zero ended (ok_injective _ 0 code) in
      let whole = attempt-ok m w tt (ran ∙ ap ok fine) in
      let (session, started, left) = bind-ok (init_cs console values) _ w whole in
      let thrown : Exec (World S) (Unit {0}) = throw (message "invalid flags") in
      let (never, _) = defer-ok (λ _. none) thrown (λ _. finalize console session.0) _ tt left in cc

  run_line-zero :
      (fuel : ℕ) (values : RootFlags) (flags : Option RootFlags) (command : Option Command)
      (w : World S)
      → (run_line fuel values flags command w).0 ≡ ok 0
      → (f : RootFlags) × (c : Command) × (flags ≡ some f)
        × (command ≡ some c)
        × ((execute console fuel f c w).0 ≡ ok 0)
  unfolding run_line
  run_line-zero fuel values (some f) (some c) w e = (f, c, refl, refl, e)
  run_line-zero fuel values (some f) none w e = absurd (refuse-ne-zero values w e)
  run_line-zero fuel values none command w e = absurd (refuse-ne-zero values w e)

  -- The process exits with 0 only if the flags pass all checks of cobra and the command that they
  -- make, executed with them, ends with 0.
  pub main-zero :
      (fuel : ℕ) (root : RootLine) (line : Line) (w : World S)
      → (main fuel root line w).0 ≡ ok 0
      → (flags : RootFlags) × (command : Command) × (root_flags root ≡ some flags)
        × (command_of line ≡ some command)
        × ((execute console fuel flags command w).0 ≡ ok 0)
  unfolding main
  main-zero fuel root line w e =
      run_line-zero fuel (root_values root) (root_flags root) (command_of line) w e

-- A mount that passes the checks names an image and is not from scratch, or it has --from-scratch
-- and neither an image nor --unpack nor --read-only, so none of these is lost.
pub mount_flags-kinds :
    (line : MountLine) (flags : MountFlags)
    → mount_flags line ≡ some flags
    → ((is_some line.image ≡ true) × (flags.from_scratch ≡ false))
      ⊎ ((is_some line.from_scratch ≡ true)
          × (flags.image ≡ "")
          × (flags.unpack ≡ false)
          × (flags.read_only ≡ false))
unfolding mount_flags
mount_flags-kinds line flags e = ground arith

-- With flags that pass the checks Umount is told to remove the whole chain exactly for --remove-all,
-- and the snapshot alone exactly for --remove-active.
pub remove_snap-kinds :
    (line : UmountLine) (flags : UmountFlags)
    → umount_flags line ≡ some flags
    → ((remove_snap flags ≡ negsuc 0) ↔ (flags.remove_all ≡ true))
      × ((remove_snap flags ≡ pos 1) ↔ (flags.remove_active ≡ true))
unfolding umount_flags
remove_snap-kinds line flags e = (ground arith, ground arith)
