-- ===== src/Commit/Views.antt =====
-- The steps of Commit, as seen by a view of the services that reading calls leave alone.
use containerdosstore.Prelude.{String, Option, none, some, List, [], ◌∷◌, Map}
use containerdosstore.Exec.{Attempt, failed, returned, ◌>>=◌}
use containerdosstore.Exec.Keeps.{Keeps, Keeps-try, Keeps-bind, Keeps-if, Keeps-pure, Keeps-lift}
use containerdosstore.Services.{Services}
use containerdosstore.Services.Types.{Digest, Descriptor, Image, ImageConfig, Manifest, Index}
use containerdosstore.Services.Frame.{Same, Frame, LeaseFrame, Shows, Keeps-call, frame_rules}
use containerdosstore.World.{World, call}
use containerdosstore.Read.{
  read_image_config, read_index, find_manifest, search_index, read_manifest,
}
use containerdosstore.OciStore.{OciStore}
use containerdosstore.OciStore.Steady.{check_error-Shows}
use containerdosstore.Commit.Returned.{taking}
use containerdosstore.Commit.{
  commit_lease_opts, diff_id_label, create_diff, write_contents_for_image, committed_before,
  apply_diff_layer, base_image, wrapping,
}

-- The calls that Commit reads with, and those of content and diffs, do not change the view.
pub record ReadFrame (S : Services) {B : Type 0} (f : S.State → B) : Type 0 where
  pub now : Same f S.now
  pub get_image : (ctx : Option S.Ctx) (name : String) → Same f (S.get_image ctx name)
  pub image_config : (ctx : Option S.Ctx) (img : Image) → Same f (S.image_config ctx img)
  pub stat : (sn : S.Snapshotter) (ctx : Option S.Ctx) (k : String) → Same f (S.stat sn ctx k)
  pub mounts : (sn : S.Snapshotter) (ctx : Option S.Ctx) (k : String) → Same f (S.mounts sn ctx k)
  pub read_blob : (ctx : Option S.Ctx) (d : Descriptor) → Same f (S.read_blob ctx d)
  pub write_blob :
      (ctx : Option S.Ctx) (ref : String) (b : S.Bytes) (d : Descriptor) (m : Map String)
      → Same f (S.write_blob ctx ref b d m)
  pub content_info : (ctx : Option S.Ctx) (d : Digest) → Same f (S.content_info ctx d)
  pub create_diff :
      (ctx : Option S.Ctx) (k : String) (sn : S.Snapshotter) (os : List S.DiffOpt)
      → Same f (S.create_diff ctx k sn os)
  pub apply_diff :
      (ctx : Option S.Ctx) (d : Descriptor) (m : S.Mounts) → Same f (S.apply_diff ctx d m)

pub Frame-ReadFrame : {S : Services} {B : Type 0} {f : S.State → B} → Frame S f → ReadFrame S f
Frame-ReadFrame F = record {
  now = F.now;
  get_image = F.get_image;
  image_config = F.image_config;
  stat = F.stat;
  mounts = F.mounts;
  read_blob = F.read_blob;
  write_blob = F.write_blob;
  content_info = F.content_info;
  create_diff = F.create_diff;
  apply_diff = F.apply_diff;
}

module _ {S : Services} {B : Type 0} {f : S.State → B} (R : ReadFrame S f) (b : B) where
  read_image_config-Shows :
      (ctx : Option S.Ctx) (img : Image)
      → Keeps (Shows {S = S} f b) (read_image_config {S = S} ctx img)
  unfolding read_image_config
  read_image_config-Shows ctx img = search (frame_rules, R.image_config, R.read_blob) depth 9

  read_index-Shows :
      (ctx : Option S.Ctx) (img : Image) → Keeps (Shows {S = S} f b) (read_index {S = S} ctx img)
  unfolding read_index
  read_index-Shows ctx img = search (frame_rules, R.read_blob) depth 9

  find_manifest-Shows :
      (ctx : Option S.Ctx) (config : Descriptor) (descs : List Descriptor)
      → Keeps (Shows {S = S} f b) (find_manifest {S = S} ctx config descs)
  unfolding find_manifest
  find_manifest-Shows ctx config [] = search frame_rules
  find_manifest-Shows ctx config (desc ∷ descs) =
      let rest = find_manifest-Shows ctx config descs in
      Keeps-try (call (S.read_blob ctx desc)) _ (Keeps-call _ (R.read_blob ctx desc))
        (λ bytes.
          Keeps-bind _ _ (λ mani. Keeps-if _ _ _ rest (Keeps-pure (some (mani, desc))))
            (Keeps-lift (S.decode_manifest bytes)))
        (λ e. rest)

  search_index-Shows :
      (ctx : Option S.Ctx) (config : Descriptor) (idx : Option (Index × Descriptor))
      → Keeps (Shows {S = S} f b) (search_index {S = S} ctx config idx)
  unfolding search_index
  search_index-Shows ctx config none = search frame_rules
  search_index-Shows ctx config (some (idx, d)) = search (frame_rules, find_manifest-Shows)

  read_manifest-Shows :
      (ctx : Option S.Ctx) (img : Image) → Keeps (Shows {S = S} f b) (read_manifest {S = S} ctx img)
  unfolding read_manifest
  read_manifest-Shows ctx img =
      search (frame_rules, R.read_blob, R.image_config, read_index-Shows, search_index-Shows) depth
        12

  diff_id_label-Shows :
      (label : Option String) → Keeps (Shows {S = S} f b) (diff_id_label {S = S} label)
  unfolding diff_id_label
  diff_id_label-Shows none = search frame_rules
  diff_id_label-Shows (some text) = search frame_rules

  pub create_diff-Shows :
      (ctx : Option S.Ctx) (name : String) (sn : S.Snapshotter) (os : List S.DiffOpt)
      → Keeps (Shows {S = S} f b) (create_diff {S = S} ctx name sn os)
  unfolding create_diff
  create_diff-Shows ctx name sn os =
      search (frame_rules, R.create_diff, R.content_info, diff_id_label-Shows) depth 9

  pub write_contents_for_image-Shows :
      (ctx : Option S.Ctx) (sn_name : String) (base : Option Manifest) (config : ImageConfig)
      (layer : Descriptor)
      → Keeps (Shows {S = S} f b) (write_contents_for_image {S = S} ctx sn_name base config layer)
  unfolding write_contents_for_image
  write_contents_for_image-Shows ctx sn_name base config layer =
      search (frame_rules, R.write_blob) depth 12

  committed_before-Shows :
      (a : Attempt (Unit {0})) → Keeps (Shows {S = S} f b) (committed_before {S = S} a)
  unfolding committed_before
  committed_before-Shows (returned x) = search frame_rules
  committed_before-Shows (failed e) = search frame_rules

  pub apply_diff_layer-Shows :
      (sn : S.Snapshotter)
      → ((ctx : Option S.Ctx) (name k : String) (os : List S.SnapshotOpt)
          → Same f (S.commit sn ctx name k os))
      → (ctx : Option S.Ctx) (name key : String) (d : Descriptor)
      → Keeps (Shows {S = S} f b) (apply_diff_layer {S = S} ctx name key sn d)
  unfolding apply_diff_layer
  apply_diff_layer-Shows sn commit_same ctx name key d =
      search (frame_rules, R.mounts, R.apply_diff, commit_same, committed_before-Shows) depth 9

  pub base_image-Shows :
      (ctx : Option S.Ctx) (ref : Option String)
      → Keeps (Shows {S = S} f b) (base_image {S = S} ctx ref)
  unfolding base_image ◌>>=◌ call read_image_config read_manifest
  base_image-Shows ctx none = search frame_rules
  base_image-Shows ctx (some ref) =
      search (frame_rules, R.get_image, read_image_config-Shows, read_manifest-Shows) depth 9

  pub wrapping-Shows :
      {A : Type 0} (text : String) (a : Attempt A)
      → Keeps (Shows {S = S} f b) (wrapping {W = World S} text a)
  wrapping-Shows text (returned x) = search frame_rules
  wrapping-Shows text (failed e) = search frame_rules

-- The lease of Commit.
pub taking-Shows :
    {S : Services} {B : Type 0} {f : S.State → B} (F : LeaseFrame S f) (b : B) (c : OciStore S)
    → Keeps (Shows {S = S} f b) (taking c)
taking-Shows F b c =
    Keeps-bind _ _ (λ l. check_error-Shows F b l l.error)
      (Keeps-call _ (F.with_lease c.ctx commit_lease_opts))
