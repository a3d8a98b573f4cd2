-- ===== src/Commands.antt =====
-- cmd: the subcommands, as the flags and arguments that cobra has parsed, and pkg/logger/logger.go.
pub mod Outcomes
pub mod Flags
pub mod Views
pub mod Effects
pub mod Leases
pub mod History
use containerdosstore.Prelude.{
  ℕ, ℤ, pos, negsuc, String, Bool, true, false, Option, none, some, List, [], ◌∷◌, ◌==◌, ◌&&◌, ◌||◌,
  not, if◌then◌else◌,
}
use containerdosstore.Exec.{
  Error, message, Exec, Attempt, failed, returned, attempt, pure, throw, panics, lift, defer,
  Outcome, ◌>>=◌, ◌>>◌,
}
use containerdosstore.Services.{Services}
use containerdosstore.Services.Types.{Digest, Image, Info}
use containerdosstore.World.{World, call, debugf, infof, warnf, error_text}
use containerdosstore.OciStore.{OciStore, new_oci_store, init, is_initiated, get_client, get_driver}
use containerdosstore.Snapshots.{list_snapshots}
use containerdosstore.Image.{get, list, delete}
use containerdosstore.Unpack.{unpack}
use containerdosstore.Mount.{MountOpt, mount, mount_from_scratch, umount, with_mount_unpack}
use containerdosstore.Pull.{PullOpt, pull, with_pull_unpack}
use containerdosstore.Import.{ImportOpt, import_file, with_import_unpack}
use containerdosstore.Commit.{commit, with_img_commit_opts}
use containerdosstore.Commit.Config.{no_img_opts}

-- What the commands call besides: logrus, the console and JSON.
pub record Console (S : Services) : Type 1 where
  pub LogLevel : Type 0
  -- The level of log.New().
  pub new_level : LogLevel
  pub parse_level : String → Attempt LogLevel
  pub background : S.Ctx
  pub close_snapshotter : S.Snapshotter → Exec S.State (Unit {0})
  pub marshal_images : List Image → Outcome String
  pub marshal_snapshots : List Info → Outcome String
  pub print_table : List (String × Digest) → Exec S.State (Unit {0})
  pub println : String → Exec S.State (Unit {0})

abbrev pub debug_level : String
debug_level = "debug"

abbrev pub info_level : String
info_level = "info"

-- The program names these two and asks for neither.
abbrev pub error_level : String
error_level = "error"

abbrev pub warn_level : String
warn_level = "warn"

-- The flags of the root command.
pub record RootFlags : Type 0 where
  pub root : String
  pub loglevel : String
  pub debug : Bool

pub record MountFlags : Type 0 where
  pub read_only : Bool
  pub unpack : Bool
  pub snapshot_key : String
  pub image : String
  pub from_scratch : Bool

pub record UmountFlags : Type 0 where
  pub remove_all : Bool
  pub remove_active : Bool
  pub snapshot_key : String

-- A subcommand, with its flags and its arguments.
pub data Command : Type 0 where
  commit_cmd : String → String → Command
  delete_cmd : String → Command
  import_cmd : Bool → String → Command
  list_cmd : Bool → Command
  list_snapshots_cmd : Command
  mount_cmd : MountFlags → String → Command
  pull_cmd : Bool → String → Command
  umount_cmd : UmountFlags → String → Command
  unpack_cmd : String → Command

-- `removeSnap`
abbrev pub remove_snap : UmountFlags → ℤ
remove_snap flags =
    if flags.remove_all then negsuc 0 else if flags.remove_active then pos 1 else pos 0

-- `[]Opt{}`, with one option behind a flag
abbrev pub when {ℓ} : {A : Type ℓ} → Bool → A → List A
when true o = o ∷ []
when false o = []

-- Execute: the code that the process exits with.
abbrev pub exit_code : Attempt (Unit {0}) → ℕ
exit_code (returned _) = 0
exit_code (failed e) = 1

module _ {S : Services} (console : Console S) where
  -- NewLogger: the logger's level, and the error of ParseLevel.
  unfoldable pub new_logger : String → console.LogLevel × Option Error
  new_logger level = elim (console.parse_level level) [
    | failed e ↦ (console.new_level, some e)
    | returned l ↦ (l, none)
  ]

  abbrev or_debug : console.LogLevel × Option Error → console.LogLevel
  or_debug (l, none) = l
  or_debug (l, some e) = (new_logger debug_level).0

  unfoldable pub log_level : RootFlags → console.LogLevel
  unfolding new_logger
  log_level flags =
      if flags.debug
      then (new_logger debug_level).0
      else if flags.loglevel == ""
      then (new_logger info_level).0
      else or_debug (new_logger flags.loglevel)

  -- initCS: the store and the level of its logger. The warning does not look at the error.
  unfoldable pub init_cs : RootFlags → Exec (World S) (OciStore S × console.LogLevel)
  unfolding log_level
  init_cs flags = do
    if not flags.debug && not (flags.loglevel == "")
        then warnf "could parse log level '%s', setting log to '%s' level"
            (flags.loglevel ∷ debug_level ∷ [])
        else pure tt
    cs ← init (new_oci_store S flags.root) console.background
    pure (cs, log_level flags)

  run_commit : OciStore S → String → String → Exec (World S) (Unit {0})
  run_commit cs image key = do
    commit cs key (with_img_commit_opts (record no_img_opts { ref = image }) ∷ [])
    pure tt

  run_import : OciStore S → Bool → String → Exec (World S) (Unit {0})
  run_import cs unpack file = do import_file cs file (when unpack with_import_unpack); pure tt

  print_images : Bool → List Image → Exec (World S) (Unit {0})
  print_images false imgs = call (console.print_table (table imgs))
    where
      table : List Image → List (String × Digest)
      table [] = []
      table (img ∷ rest) = (img.name, img.target.digest) ∷ table rest
  print_images true imgs = do text ← lift (console.marshal_images imgs); call (console.println text)

  run_list : OciStore S → Bool → Exec (World S) (Unit {0})
  unfolding print_images
  run_list cs json = do imgs ← list cs []; print_images json imgs

  run_list_snapshots : OciStore S → Exec (World S) (Unit {0})
  run_list_snapshots cs = do
    snaps ← list_snapshots cs []
    text ← lift (console.marshal_snapshots snaps)
    call (console.println text)

  unfoldable pub run_mount : OciStore S → MountFlags → String → Exec (World S) (Unit {0})
  run_mount cs flags target =
      if flags.from_scratch
      then (do
        key ← mount_from_scratch cs target flags.snapshot_key
        infof "Createad mount from scratch with key: %s" (key ∷ []))
      else (do
        img ← get cs flags.image
        key ←
            mount cs (some img) target flags.snapshot_key flags.read_only
              (when flags.unpack with_mount_unpack)
        infof "Createad mount from '%s' with key: %s" (img.name ∷ key ∷ []))

  -- Pull returns its error beside the image.
  pulled : Image × Option Error → Exec (World S) (Unit {0})
  pulled (img, none) = pure tt
  pulled (img, some e) = throw e

  run_pull : OciStore S → Bool → String → Exec (World S) (Unit {0})
  unfolding pulled
  run_pull cs unpack ref = do r ← pull cs ref (when unpack with_pull_unpack); pulled r

  unfoldable pub run_umount : ℕ → OciStore S → UmountFlags → String → Exec (World S) (Unit {0})
  run_umount fuel cs flags target =
      if flags.snapshot_key == "" && (flags.remove_all || flags.remove_active)
      then throw (message "snapshot key is required to delete snapshots")
      else (do
        umount fuel cs target flags.snapshot_key (remove_snap flags)
        infof "Target '%s' unmounted" (target ∷ []))

  run_unpack : OciStore S → String → Exec (World S) (Unit {0})
  run_unpack cs name = do
    img ← get cs name
    infof "Image name '%s' with digest '%s' found, unpacking" (img.name ∷ img.target.digest ∷ [])
    unpack cs img []
    infof "Unpack done" []

  -- RunE of each command
  unfoldable pub run : ℕ → OciStore S → Command → Exec (World S) (Unit {0})
  unfolding run_commit run_import run_list run_list_snapshots run_mount run_pull run_umount
      run_unpack
  run fuel cs (commit_cmd image key) = run_commit cs image key
  run fuel cs (delete_cmd name) = delete fuel cs name []
  run fuel cs (import_cmd unpack file) = run_import cs unpack file
  run fuel cs (list_cmd json) = run_list cs json
  run fuel cs list_snapshots_cmd = run_list_snapshots cs
  run fuel cs (mount_cmd flags target) = run_mount cs flags target
  run fuel cs (pull_cmd unpack ref) = run_pull cs unpack ref
  run fuel cs (umount_cmd flags target) = run_umount fuel cs flags target
  run fuel cs (unpack_cmd name) = run_unpack cs name

  report_close : Attempt (Unit {0}) → Exec (World S) (Unit {0})
  report_close (returned _) = pure tt
  report_close (failed e) = debugf "failed closing snapshotter: %v" (error_text e ∷ [])

  close_client : OciStore S → Option S.Client → Exec (World S) (Unit {0})
  unfolding report_close
  close_client cs none = panics
  close_client cs (some cli) = do
    closed ← attempt (call (console.close_snapshotter (S.snapshot_service (get_driver cs))))
    report_close closed

  -- The finalizer, which cobra runs when a command has ended.
  unfoldable pub finalize : OciStore S → Exec (World S) (Unit {0})
  unfolding close_client
  finalize cs = if is_initiated cs then close_client cs (get_client cs) else pure tt

  -- PreRunE, RunE and the finalizer. Where Init fails no store is initiated, and the finalizer does
  -- nothing.
  unfoldable pub run_command : ℕ → RootFlags → Command → Exec (World S) (Unit {0})
  run_command fuel flags command = do
    session ← init_cs flags
    defer (λ _. none) (run fuel session.0 command) (λ _. finalize session.0)

  -- Execute
  unfoldable pub execute : ℕ → RootFlags → Command → Exec (World S) ℕ
  execute fuel flags command = do
    ended ← attempt (run_command fuel flags command)
    pure (exit_code ended)
