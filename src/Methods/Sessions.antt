-- ===== src/Methods/Sessions.antt =====
-- Methods of one OCIStore called one after another, in any order and with any outcome.
use containerdosstore.Prelude.{ℕ, String, Bool, Option, List, Map, ◌≡◌, ◌∙◌, refl}
use containerdosstore.Exec.{Error, err}
use containerdosstore.Services.{Services}
use containerdosstore.Services.Types.{Image, Info}
use containerdosstore.Services.Frame.{frame_rules}
use containerdosstore.Services.Leases.{LeaseLaws}
use containerdosstore.World.{World}
use containerdosstore.OciStore.{OciStore}
use containerdosstore.OciStore.Leasing.{KeepsLeases, KeepsLeases-held, guarded-KeepsLeases}
use containerdosstore.Unpack.{ApplyCommitOpt, unpack}
use containerdosstore.Unpack.Leases.{unpack-KeepsLeases}
use containerdosstore.Image.{get, list, delete, update, create}
use containerdosstore.Image.Leases.{delete-KeepsLeases, update-KeepsLeases, create-KeepsLeases}
use containerdosstore.Snapshots.{
  list_snapshots, get_snapshot, update_snapshot, label_snapshot, remove_snapshot_labels,
}
use containerdosstore.Snapshots.Leases.{
  list_snapshots-KeepsLeases, get_snapshot-KeepsLeases, update_snapshot-KeepsLeases,
  label_snapshot-KeepsLeases, remove_snapshot_labels-KeepsLeases,
}
use containerdosstore.Pull.{PullOpt, pull}
use containerdosstore.Pull.Leases.{pull-KeepsLeases}
use containerdosstore.Import.{ImportOpt, import_reader, import_file, single_import_file}
use containerdosstore.Import.Leases.{
  import_reader-KeepsLeases, import_file-KeepsLeases, single_import_file-KeepsLeases,
}
use containerdosstore.Mount.{MountOpt, mount}
use containerdosstore.Mount.Leases.{mount-held_of_err}
use containerdosstore.Commit.{CommitImgOpt, commit}
use containerdosstore.Commit.Leases.{commit-held}

module _ {S : Services} (c : OciStore S) where
  -- One call. Of Mount only a call that returns an error; Umount is left out, which deletes the lease
  -- of a mount.
  pub data Called : World S → World S → Type 0 where
    got : {w : World S} (name : String) → Called w (get c name w).1
    listed : {w : World S} (filters : List String) → Called w (list c filters w).1
    deleted :
        {w : World S} (fuel : ℕ) (name : String) (opts : List S.DeleteOpt)
        → Called w (delete fuel c name opts w).1
    updated :
        {w : World S} (img : Image) (fieldpaths : List String)
        → Called w (update c img fieldpaths w).1
    created : {w : World S} (img : Image) → Called w (create c img w).1
    unpacked :
        {w : World S} (img : Image) (opts : List (ApplyCommitOpt S))
        → Called w (unpack c img opts w).1
    pulled : {w : World S} (ref : String) (opts : List (PullOpt S)) → Called w (pull c ref opts w).1
    imported :
        {w : World S} (reader : S.Reader) (opts : List (ImportOpt S))
        → Called w (import_reader c reader opts w).1
    imported_file :
        {w : World S} (file : String) (opts : List (ImportOpt S))
        → Called w (import_file c file opts w).1
    imported_one :
        {w : World S} (fuel : ℕ) (file : String) (opts : List (ImportOpt S))
        → Called w (single_import_file fuel c file opts w).1
    listed_snapshots :
        {w : World S} (filters : List String) → Called w (list_snapshots c filters w).1
    got_snapshot : {w : World S} (key : String) → Called w (get_snapshot c key w).1
    updated_snapshot :
        {w : World S} (info : Info) (fieldpaths : List String)
        → Called w (update_snapshot c info fieldpaths w).1
    labeled :
        {w : World S} (key : String) (labels : Map String)
        → Called w (label_snapshot c key labels w).1
    unlabeled :
        {w : World S} (key : String) (keys : List String)
        → Called w (remove_snapshot_labels c key keys w).1
    committed :
        {w : World S} (key : String) (opts : List (CommitImgOpt S))
        → Called w (commit c key opts w).1
    not_mounted :
        {w : World S} (img : Option Image) (target key : String) (readonly : Bool)
        (opts : List (MountOpt S)) (e : Error)
        → (mount c img target key readonly opts w).0 ≡ err e
        → Called w (mount c img target key readonly opts w).1

  -- Any number of calls
  pub data Session : World S → World S → Type 0 where
    finished : {w : World S} → Session w w
    calling : {w v u : World S} → Called w v → Session v u → Session w u

  module _ (L : LeaseLaws S) where
    pub get-KeepsLeases : (name : String) → KeepsLeases L (get c name)
    unfolding get
    get-KeepsLeases name = guarded-KeepsLeases L c _ (λ l. search (frame_rules, L.frame.get_image))

    pub list-KeepsLeases : (filters : List String) → KeepsLeases L (list c filters)
    unfolding list
    list-KeepsLeases filters =
        guarded-KeepsLeases L c _ (λ l. search (frame_rules, L.frame.list_images))

    called-held : {w v : World S} → Called w v → L.held v.services ≡ L.held w.services
    called-held (got {w} name) = KeepsLeases-held L _ (get-KeepsLeases name) w
    called-held (listed {w} filters) = KeepsLeases-held L _ (list-KeepsLeases filters) w
    called-held (deleted {w} fuel name opts) =
        KeepsLeases-held L _ (delete-KeepsLeases L fuel c name opts) w
    called-held (updated {w} img fs) = KeepsLeases-held L _ (update-KeepsLeases L c img fs) w
    called-held (created {w} img) = KeepsLeases-held L _ (create-KeepsLeases L c img) w
    called-held (unpacked {w} img opts) = KeepsLeases-held L _ (unpack-KeepsLeases L c img opts) w
    called-held (pulled {w} ref opts) = KeepsLeases-held L _ (pull-KeepsLeases L c ref opts) w
    called-held (imported {w} r opts) =
        KeepsLeases-held L _ (import_reader-KeepsLeases L c r opts) w
    called-held (imported_file {w} file opts) =
        KeepsLeases-held L _ (import_file-KeepsLeases L c file opts) w
    called-held (imported_one {w} fuel file opts) =
        KeepsLeases-held L _ (single_import_file-KeepsLeases L fuel c file opts) w
    called-held (listed_snapshots {w} fs) =
        KeepsLeases-held L _ (list_snapshots-KeepsLeases L c fs) w
    called-held (got_snapshot {w} key) = KeepsLeases-held L _ (get_snapshot-KeepsLeases L c key) w
    called-held (updated_snapshot {w} i fs) =
        KeepsLeases-held L _ (update_snapshot-KeepsLeases L c i fs) w
    called-held (labeled {w} key labels) =
        KeepsLeases-held L _ (label_snapshot-KeepsLeases L c key labels) w
    called-held (unlabeled {w} key keys) =
        KeepsLeases-held L _ (remove_snapshot_labels-KeepsLeases L c key keys) w
    called-held (committed {w} key opts) = commit-held L c key opts w
    called-held (not_mounted {w} img target key readonly opts e failed) =
        mount-held_of_err L c img target key readonly opts w e failed

    -- If no call of `done` fails, then however many methods are called on a store, in whatever order
    -- and with whatever outcomes, the leases held in the end are those held at the start: of the calls
    -- to Mount only those that return an error are among them, and Umount is not.
    pub held-Session : {w u : World S} → Session w u → L.held u.services ≡ L.held w.services
    held-Session finished = refl
    held-Session (calling first rest) = held-Session rest ∙ called-held first
