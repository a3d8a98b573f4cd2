-- ===== src/Commands/Leases.antt =====
-- The leases after a command line.
use containerdosstore.Prelude.{
  ℕ, String, Bool, true, false, Option, none, some, List, [], ◌≡◌, ◌≢◌, ◌∙◌,
}
use containerdosstore.Exec.{Error, Outcome, err, Exec, ◌>>=◌}
use containerdosstore.Exec.Cases.{bind_cases, if_cases}
use containerdosstore.Exec.Keeps.{Keeps-bind, Keeps-defer}
use containerdosstore.Services.{Services}
use containerdosstore.Services.Types.{Image}
use containerdosstore.Services.Frame.{frame_rules}
use containerdosstore.Services.Leases.{LeaseLaws}
use containerdosstore.World.{World, log_at, infof}
use containerdosstore.OciStore.{OciStore}
use containerdosstore.OciStore.Leasing.{KeepsLeases, KeepsLeases-held}
use containerdosstore.Unpack.Leases.{unpack-KeepsLeases}
use containerdosstore.Image.Leases.{delete-KeepsLeases}
use containerdosstore.Snapshots.Leases.{list_snapshots-KeepsLeases}
use containerdosstore.Pull.Leases.{pull-KeepsLeases}
use containerdosstore.Import.Leases.{import_file-KeepsLeases}
use containerdosstore.Methods.Sessions.{get-KeepsLeases, list-KeepsLeases}
use containerdosstore.Commit.Leases.{commit-KeepsLeases}
use containerdosstore.Mount.{mount, mount_from_scratch, with_mount_unpack}
use containerdosstore.Image.{get}
use containerdosstore.Mount.Leases.{mount-held_of_err}
use containerdosstore.Commands.{
  Console, Command, RootFlags, MountFlags, commit_cmd, delete_cmd, import_cmd, list_cmd,
  list_snapshots_cmd, mount_cmd, pull_cmd, umount_cmd, unpack_cmd, run, run_commit, run_import,
  run_list, print_images, run_list_snapshots, run_mount, run_pull, pulled, run_unpack, run_command,
  when,
}
use containerdosstore.Commands.Views.{ConsoleFrame, init_cs-Shows, finalize-Shows}

-- A command that is neither a mount nor an unmount.
abbrev pub is_quiet : Command → Bool
is_quiet (mount_cmd flags target) = false
is_quiet (umount_cmd flags target) = false
is_quiet _ = true

module _ {S : Services} (console : Console S) (L : LeaseLaws S)
    (C : ConsoleFrame console L.held) where
  print_images-KeepsLeases :
      (json : Bool) (imgs : List Image) → KeepsLeases L (print_images console json imgs)
  unfolding print_images
  print_images-KeepsLeases false imgs l = search (frame_rules, C.print_table)
  print_images-KeepsLeases true imgs l = search (frame_rules, C.println)

  pulled-KeepsLeases : (r : Image × Option Error) → KeepsLeases L (pulled {S = S} console r)
  unfolding pulled
  pulled-KeepsLeases (img, none) l = search frame_rules
  pulled-KeepsLeases (img, some e) l = search frame_rules

  run-KeepsLeases :
      (fuel : ℕ) (cs : OciStore S) (command : Command)
      → is_quiet command ≡ true
      → KeepsLeases L (run console fuel cs command)
  unfolding run run_commit run_import run_list run_list_snapshots run_pull run_unpack
  run-KeepsLeases fuel cs (commit_cmd image key) quiet l =
      search (frame_rules, commit-KeepsLeases L cs key)
  run-KeepsLeases fuel cs (delete_cmd name) quiet l = delete-KeepsLeases L fuel cs name [] l
  run-KeepsLeases fuel cs (import_cmd unpack file) quiet l =
      search (frame_rules, import_file-KeepsLeases L cs file)
  run-KeepsLeases fuel cs (list_cmd json) quiet l =
      search (frame_rules, list-KeepsLeases cs L [], print_images-KeepsLeases)
  run-KeepsLeases fuel cs list_snapshots_cmd quiet l =
      search (frame_rules, list_snapshots-KeepsLeases L cs [], C.println) depth 9
  run-KeepsLeases fuel cs (mount_cmd flags target) quiet l = cc
  run-KeepsLeases fuel cs (pull_cmd unpack ref) quiet l =
      search (frame_rules, pull-KeepsLeases L cs ref, pulled-KeepsLeases)
  run-KeepsLeases fuel cs (umount_cmd flags target) quiet l = cc
  run-KeepsLeases fuel cs (unpack_cmd name) quiet l =
      search (frame_rules, get-KeepsLeases cs L, λ (i : Image). unpack-KeepsLeases L cs i []) depth
        9

  pub run_command-KeepsLeases :
      (fuel : ℕ) (flags : RootFlags) (command : Command)
      → is_quiet command ≡ true
      → KeepsLeases L (run_command console fuel flags command)
  unfolding run_command
  run_command-KeepsLeases fuel flags command quiet l =
      Keeps-bind _ _
        (λ session.
          Keeps-defer _ _ _ (run-KeepsLeases fuel session.0 command quiet l)
            (λ e. finalize-Shows console C l session.0))
        (init_cs-Shows console C l flags)

  -- A mount command that returns an error.
  abbrev pub Fails : {A : Type 0} → List String → Outcome A × World S → Type 0
  Fails h p = (e : Error) → p.0 ≡ err e → L.held p.1.services ≡ h

  log_then-Fails :
      {A : Type 0} (h : List String) (m : Exec (World S) A) (f : A → Exec (World S) (Unit {0}))
      (w : World S)
      → ((a : A) (v : World S) (e : Error) → (f a v).0 ≢ err e)
      → Fails h (m w)
      → Fails h ((m >>= f) w)
  log_then-Fails h m f w never fails =
      bind_cases (Fails h) m f w (λ a _ e q. absurd (never a (m w).1 e q)) (λ x q e r. fails x q)
        (λ _ e q. cc) (λ _ e q. cc)

  infof-ne-err :
      (format : String) (args : List String) (v : World S) (e : Error)
      → (infof {S = S} format args v).0 ≢ err e
  unfolding log_at
  infof-ne-err format args v e q = cc

  pub run_mount-Fails :
      (cs : OciStore S) (flags : MountFlags) (target : String) (w : World S)
      → Fails (L.held w.services) (run_mount console cs flags target w)
  unfolding run_mount mount_from_scratch
  run_mount-Fails cs flags target w =
      let h = L.held w.services in
      if_cases (Fails h) flags.from_scratch _ _ w
        (λ _.
          log_then-Fails h (mount_from_scratch cs target flags.snapshot_key) _ w
            (λ key. infof-ne-err _ _)
            (mount-held_of_err L cs none target flags.snapshot_key false [] w))
        (λ _.
          let same = KeepsLeases-held L (get cs flags.image) (get-KeepsLeases cs L flags.image) w in
          bind_cases (Fails h) (get cs flags.image) _ w
            (λ img _.
              let v = (get cs flags.image w).1 in
              let opts = when flags.unpack with_mount_unpack in
              let m = mount cs (some img) target flags.snapshot_key flags.read_only opts in
              log_then-Fails h m _ v (λ key. infof-ne-err _ _)
                (λ e q.
                  mount-held_of_err L cs (some img) target flags.snapshot_key flags.read_only opts v
                    e q
                  ∙ same))
            (λ x _ e _. same) (λ _ e q. cc) (λ _ e q. cc))
