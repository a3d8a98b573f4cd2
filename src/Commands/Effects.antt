-- ===== src/Commands/Effects.antt =====
-- What a process that exits with 0 has done to the snapshots and the images.
use containerdosstore.Prelude.{
  ℕ, ◌<◌, pos, negsuc, String, ◌==◌, ◌&&◌, ◌||◌, Bool, true, false, some, List, [], ◌≡◌, ◌∙◌, refl,
  sym, ap, subst, length, if◌then◌else◌,
}
use containerdosstore.Exec.{Exec, Outcome, ok, throw}
use containerdosstore.Exec.Cases.{if_cases}
use containerdosstore.Exec.Inversion.{bind-returns}
use containerdosstore.Services.{Services}
use containerdosstore.World.{World, log_at}
use containerdosstore.OciStore.{OciStore, overlay_driver}
use containerdosstore.Services.Types.{Digest, Image}
use containerdosstore.Services.Frame.{Same}
use containerdosstore.Image.Laws.{found_image, without, UnpackedLaws}
use containerdosstore.Image.Removal.{delete-Deleted}
use containerdosstore.Mount.{umount}
use containerdosstore.Mount.Umount.{umounted, table-umount}
use containerdosstore.Snapshots.Table.{Table, SnapshotLaws}
use containerdosstore.Snapshots.Description.{prune_all}
use containerdosstore.Snapshots.Pruning.{TableFrame}
use containerdosstore.Commands.{
  Console, UmountFlags, umount_cmd, delete_cmd, run, run_umount, remove_snap,
}
use containerdosstore.Commands.Flags.{
  RootLine, UmountLine, delete_line, umount_line, umount_of, umount_flags, main, command_of,
}
use containerdosstore.Commands.Views.{ConsoleFrame, main-Ran, on_overlay}

-- What umount is to leave of the table.
abbrev pub umounted_by : UmountFlags → Table → Table
umounted_by flags t =
    if flags.remove_all
    then prune_all t flags.snapshot_key (negsuc 0)
    else if flags.remove_active
    then prune_all t flags.snapshot_key (pos 0)
    else t

umounted_by-flags :
    (flags : UmountFlags) (t : Table)
    → umounted t flags.snapshot_key (remove_snap flags) ≡ umounted_by flags t
umounted_by-flags flags t = go flags.remove_all flags.remove_active
  where
    go :
        (all active : Bool)
        → umounted t flags.snapshot_key (if all then negsuc 0 else if active then pos 1 else pos 0)
          ≡ (if all
              then prune_all t flags.snapshot_key (negsuc 0)
              else if active
              then prune_all t flags.snapshot_key (pos 0)
              else t)
    go true active = refl
    go false true = refl
    go false false = refl

module _ {S : Services} (console : Console S)
    (L : SnapshotLaws S (S.snapshot_service overlay_driver)) (F : TableFrame L)
    (C : ConsoleFrame console L.table) (fuel : ℕ) where
  table-run_umount :
      (c : OciStore S) (flags : UmountFlags) (target : String) (w : World S)
      → length (L.table w.services) < fuel
      → (run_umount console fuel (on_overlay c) flags target w).0 ≡ ok tt
      → L.table (run_umount console fuel (on_overlay c) flags target w).1.services
        ≡ umounted_by flags (L.table w.services)
  unfolding run_umount log_at
  table-run_umount c flags target w enough =
      let n = remove_snap flags in
      let m = umount fuel (on_overlay c) target flags.snapshot_key n in
      let Q = λ (p : Outcome (Unit {0}) × World S).
        p.0 ≡ ok tt → L.table p.1.services ≡ umounted_by flags (L.table w.services) in
      if_cases Q (flags.snapshot_key == "" && (flags.remove_all || flags.remove_active)) (throw _) _
        w (λ _ q. cc)
        (λ _ e.
          let (u, gone, _, world) = bind-returns m _ w tt e in
          ap (λ (v : World S). L.table v.services) world
          ∙ table-umount (on_overlay c) L F fuel target flags.snapshot_key n w enough gone
          ∙ umounted_by-flags flags (L.table w.services))

  -- A process that unmounts, given more fuel than there are snapshots, and exits with 0 leaves the
  -- table of snapshots as the flags say: with --remove-all what prune_all leaves from the key on with
  -- all its parents, with --remove-active what it leaves of the key alone, and else the whole table.
  pub table-main_umount :
      (root : RootLine) (line : UmountLine) (flags : UmountFlags) (target : String) (w : World S)
      → umount_flags line ≡ some flags
      → length (L.table w.services) < fuel
      → (main console fuel root (umount_line line target) w).0 ≡ ok 0
      → L.table (main console fuel root (umount_line line target) w).1.services
        ≡ umounted_by flags (L.table w.services)
  unfolding command_of umount_of run
  table-main_umount root line flags target w parsed enough e =
      let r =
        main-Ran console C fuel (umount_cmd flags target) root (umount_line line target) w
          (ap (λ o. umount_of o target) parsed) e in
      r.left
      ∙ table-run_umount r.store flags target r.begun
          (subst (λ t. length t < fuel) (sym r.begun-is) enough) r.returned
      ∙ ap (umounted_by flags) r.begun-is

module _ {S : Services} (console : Console S) (U : UnpackedLaws S overlay_driver)
    (C : ConsoleFrame console U.laws.images) (T : ConsoleFrame console U.snapshots.table)
    (Y : ConsoleFrame console U.laws.layers) (fuel : ℕ) (root : RootLine) (name : String)
    (w : World S) where
  -- The table, the images and their layers
  abbrev viewed : S.State → Table × List Image × (Image → List Digest)
  viewed s = (U.snapshots.table s, U.laws.images s, U.laws.layers s)

  both :
      {A : Type 0} (m : Exec S.State A)
      → Same U.snapshots.table m
      → Same U.laws.images m
      → Same U.laws.layers m
      → Same viewed m
  both m t i l s = cc (t s, i s, l s)

  viewed-ConsoleFrame : ConsoleFrame console viewed
  viewed-ConsoleFrame = record {
    new_snapshotter = λ path.
        both (S.new_snapshotter path) (T.new_snapshotter path) (C.new_snapshotter path)
          (Y.new_snapshotter path);
    bolt_open =
        λ path. both (S.bolt_open path) (T.bolt_open path) (C.bolt_open path) (Y.bolt_open path);
    new_content_store = λ path.
        both (S.new_content_store path) (T.new_content_store path) (C.new_content_store path)
          (Y.new_content_store path);
    db_init =
        λ ctx db. both (S.db_init ctx db) (T.db_init ctx db) (C.db_init ctx db) (Y.db_init ctx db);
    new_client = λ db sn p.
        both (S.new_client db sn p) (T.new_client db sn p) (C.new_client db sn p)
          (Y.new_client db sn p);
    close_snapshotter = λ sn.
        both (console.close_snapshotter sn) (T.close_snapshotter sn) (C.close_snapshotter sn)
          (Y.close_snapshotter sn);
    print_table = λ rows.
        both (console.print_table rows) (T.print_table rows) (C.print_table rows)
          (Y.print_table rows);
    println =
        λ text. both (console.println text) (T.println text) (C.println text) (Y.println text);
  }

  -- A process that deletes an image, given more fuel than there are snapshots, and exits with 0 found
  -- an image of that name; it leaves of the table of snapshots what prune_all leaves from the image's
  -- chain of layers on with all its parents, and of the images those of another name.
  pub main-delete :
      length (U.snapshots.table w.services) < fuel
      → (main console fuel root (delete_line name) w).0 ≡ ok 0
      → let after = (main console fuel root (delete_line name) w).1.services in
        (img : Image) × (found_image name (U.laws.images w.services) ≡ some img)
        × (U.snapshots.table after
            ≡ prune_all
                (U.snapshots.table w.services)
                (S.chain_id (U.laws.layers w.services img))
                (negsuc 0))
        × (U.laws.images after ≡ without name (U.laws.images w.services))
  unfolding command_of run
  main-delete enough e =
      let r =
        main-Ran console viewed-ConsoleFrame fuel (delete_cmd name) root (delete_line name) w refl
          e in
      let v0 = viewed w.services in
      let d =
        delete-Deleted (on_overlay r.store) U fuel name [] r.begun
          (subst (λ v. length v.0 < fuel) (sym r.begun-is) enough) r.returned in
      (
        d.img,
        ap (λ v. found_image name v.1) (sym r.begun-is) ∙ d.found,
        ap (λ v. v.0) r.left
            ∙ d.snapshots
            ∙ ap (λ v. prune_all v.0 (S.chain_id (v.2 d.img)) (negsuc 0)) r.begun-is,
        ap (λ v. v.1) r.left ∙ d.kept ∙ ap (λ v. without name v.1) r.begun-is,
      )
