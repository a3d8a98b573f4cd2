-- ===== src/Commit.antt =====
-- pkg/ocistore/commit.go: committing an active snapshot as a new image.
pub mod References
pub mod Stored
pub mod Images
pub mod Got
pub mod Blobs
pub mod ReadBack
pub mod Moving
pub mod Snapshot
pub mod Exported
pub mod Views
pub mod Steps
pub mod Returned
pub mod Config
pub mod Leases
use containerdosstore.Prelude.{
  ℕ, zero, suc, ◌+◌, String, ◌<>◌, Bool, true, false, Option, none, some, List, [], ◌∷◌, ◌++◌,
  if◌then◌else◌, Map, lookup, insert, decimal, is_empty,
}
use containerdosstore.Exec.{
  Error, message, wrapped, Outcome, ok, err, Exec, Attempt, failed, returned, attempt, pure, throw,
  lift, defer, on_error, apply_opts, is_not_found, is_already_exists, ◌>>=◌, ◌>>◌,
}
use containerdosstore.Services.{Services, LeaseOpt, with_random_id, with_expiration_hours}
use containerdosstore.Services.Types.{Digest, Descriptor, Image, Info, ImageConfig, Manifest}
use containerdosstore.World.{World, call, infof}
use containerdosstore.OciStore.{OciStore, label_snapshot_img_ref, guarded, check_lease, finish}
use containerdosstore.Read.{read_image_config, read_manifest}
use containerdosstore.Unpack.{ApplyCommitOpts, ApplyCommitOpt, no_apply_commit_opts, unpack_func}
use Config.{ImgOpts, no_img_opts, empty_image_config, generate_commit_image_config}

abbrev pub media_type_layer_gzip : String
media_type_layer_gzip = "application/vnd.docker.image.rootfs.diff.tar.gzip"

abbrev pub media_type_config : String
media_type_config = "application/vnd.docker.container.image.v1+json"

abbrev pub media_type_manifest : String
media_type_manifest = "application/vnd.docker.distribution.manifest.v2+json"

pub record CommitImgOpts (S : Services) : Type 0 where
  pub apply_commit : ApplyCommitOpts S
  pub i_opts : ImgOpts
  pub d_opts : List S.DiffOpt

abbrev pub CommitImgOpt : Services → Type 0
CommitImgOpt S = CommitImgOpts S → Outcome (CommitImgOpts S)

-- `wrap(err)` around a call
abbrev pub wrapping {ℓ} : {W A : Type ℓ} → String → Attempt A → Exec W A
wrapping text (returned a) = pure a
wrapping text (failed e) = throw (wrapped text e)

-- The labels of the manifest for its layers, from number i on.
unfoldable pub layer_labels : ℕ → List Descriptor → Map String → Map String
layer_labels i [] labels = labels
layer_labels i (l ∷ ls) labels =
    layer_labels (i + 1) ls
      (insert ("containerd.io/gc.ref.content." <> decimal (i + 1)) l.digest labels)

-- The new layer, behind those of the base image.
unfoldable pub all_layers : Option Manifest → Descriptor → List Descriptor
all_layers none diff_layer = diff_layer ∷ []
all_layers (some base) diff_layer = base.layers ++ (diff_layer ∷ [])

abbrev pub label_of : Option (Map String) → String → Option String
label_of none k = none
label_of (some m) k = lookup k m

abbrev pub manifest_of : Option (Manifest × Descriptor) → Option Manifest
manifest_of none = none
manifest_of (some (m, d)) = some m

abbrev pub img_labels : Map String → Option (Map String)
img_labels labels = if is_empty labels then some [] else some labels

abbrev pub commit_lease_opts : List LeaseOpt
commit_lease_opts = with_random_id ∷ with_expiration_hours 1 ∷ []

abbrev pub descriptor_of : (S : Services) → String → S.Bytes → Descriptor
descriptor_of S media_type bytes = record {
  media_type = media_type;
  digest = S.from_bytes bytes;
  size = S.size_of bytes;
  rest = "";
}

module _ {S : Services} where
  abbrev pub no_commit_img_opts : CommitImgOpts S
  no_commit_img_opts = record {
    apply_commit = no_apply_commit_opts;
    i_opts = no_img_opts;
    d_opts = [];
  }

  unfoldable pub with_img_apply_commit_opts : List (ApplyCommitOpt S) → CommitImgOpt S
  with_img_apply_commit_opts opts co = elim (apply_opts opts co.apply_commit) [
    | ok applied ↦ ok (record co { apply_commit = applied })
    | err e ↦ err e
    | Outcome.panic ↦ Outcome.panic
    | Outcome.exhausted ↦ Outcome.exhausted
  ]

  unfoldable pub with_img_commit_opts : ImgOpts → CommitImgOpt S
  with_img_commit_opts i_opts co = ok (record co { i_opts = i_opts })

  pub diff_id_label : Option String → Exec (World S) String
  diff_id_label none = throw (message "invalid differ response with no diffID")
  diff_id_label (some text) = pure text

  -- createDiff: the layer and its diffID
  unfoldable pub create_diff :
      Option S.Ctx → String → S.Snapshotter → List S.DiffOpt → Exec (World S) (Descriptor × Digest)
  unfolding diff_id_label
  create_diff ctx name sn d_opts = do
    new_desc ← call (S.create_diff ctx name sn d_opts)
    info ← call (S.content_info ctx new_desc.digest)
    text ← diff_id_label (label_of info.labels "containerd.io/uncompressed")
    diff_id ← lift (S.parse_digest text)
    let layer : Descriptor = record {
      media_type = media_type_layer_gzip;
      digest = new_desc.digest;
      size = info.size;
      rest = "";
    }
    pure (layer, diff_id)

  -- writeContentsForImage: the manifest, then the configuration, with the labels that keep what they
  -- refer to from the garbage collector.
  unfoldable pub write_contents_for_image :
      Option S.Ctx
      → String
      → Option Manifest
      → ImageConfig
      → Descriptor
      → Exec (World S) (Descriptor × Digest)
  unfolding all_layers layer_labels
  write_contents_for_image ctx sn_name base_mfst new_config diff_layer = do
    config_json ← lift (S.encode_config new_config)
    let config_desc = descriptor_of S media_type_config config_json
    let layers = all_layers base_mfst diff_layer
    let new_mfst : Manifest = record {
      schema_version = 2;
      media_type = media_type_manifest;
      config = config_desc;
      layers = layers;
      rest = "";
    }
    mfst_json ← lift (S.encode_manifest new_mfst)
    let mfst_desc = descriptor_of S media_type_manifest mfst_json
    let labels = layer_labels 0 layers (("containerd.io/gc.ref.content.0", config_desc.digest) ∷ [])
    call (S.write_blob ctx mfst_desc.digest mfst_json mfst_desc labels)
    call (
        S.write_blob ctx config_desc.digest config_json config_desc
          (("containerd.io/gc.ref.snapshot." <> sn_name, S.chain_id new_config.diff_ids) ∷ []))
    pure (mfst_desc, config_desc.digest)

  committed_before : Attempt (Unit {0}) → Exec (World S) (Unit {0})
  committed_before (returned _) = pure tt
  committed_before (failed e) = if is_already_exists e then pure tt else throw e

  -- applyDiffLayer: a snapshot of that name may be there already.
  unfoldable pub apply_diff_layer :
      Option S.Ctx → String → String → S.Snapshotter → Descriptor → Exec (World S) (Unit {0})
  unfolding committed_before
  apply_diff_layer ctx name key sn diff_desc = do
    mounts ← call (S.mounts sn ctx key)
    call (S.apply_diff ctx diff_desc mounts)
    committed ← attempt (
        call (
          S.commit sn ctx name key
            (S.with_labels (("containerd.io/snapshot.ref", name) ∷ []) ∷ [])))
    committed_before committed

  -- The configuration and the manifest of the image that the snapshot was mounted from; a snapshot
  -- with no such label starts from the zero values.
  pub base_image : Option S.Ctx → Option String → Exec (World S) (ImageConfig × Option Manifest)
  base_image ctx none = pure (empty_image_config, none)
  base_image ctx (some ref) = do
    img ← call (S.get_image ctx ref)
    config ← read_image_config ctx img
    mfst ← read_manifest ctx img
    pure (config.0, manifest_of mfst)

  create_missing : Option S.Ctx → Image → Attempt Image → Exec (World S) (Unit {0})
  create_missing ctx img (returned _) = pure tt
  create_missing ctx img (failed e) =
      if is_not_found e
      then (do
        created ← attempt (call (S.create_image ctx img))
        wrapping ("failed to create new image " <> img.name) created
        pure tt)
      else throw e

  -- Update of the image record, and Create where there is none.
  unfoldable pub store_image : Option S.Ctx → Image → Exec (World S) (Unit {0})
  unfolding create_missing
  store_image ctx img = do
    updated ← attempt (call (S.update_image ctx img []))
    create_missing ctx img updated

  unfoldable pub commit_leased :
      OciStore S → Option S.Ctx → String → CommitImgOpts S → Exec (World S) Image
  unfolding base_image
  commit_leased c ctx key opt = do
    let sn = S.snapshot_service c.driver
    info ← call (S.stat sn ctx key)
    base ← base_image ctx (label_of info.labels label_snapshot_img_ref)
    diff ← attempt (create_diff ctx key sn opt.d_opts)
    layer ← wrapping "failed to export layer" diff
    time ← call S.now
    let config = generate_commit_image_config S.go_arch S.go_os time base.0 layer.1 opt.i_opts
    applied ← attempt (apply_diff_layer ctx (S.chain_id config.diff_ids) key sn layer.0)
    wrapping "failed to apply diff" applied
    target ← write_contents_for_image ctx c.driver base.1 config layer.0
    created_at ← call S.now
    let img : Image = record {
      name = opt.i_opts.ref;
      target = target.0;
      created_at = created_at;
      labels = img_labels opt.i_opts.labels;
    }
    store_image ctx img
    unpack_func c ctx img []
    infof "Successfully committed image '%s'" (img.name ∷ [])
    pure img

  unfoldable pub commit : OciStore S → String → List (CommitImgOpt S) → Exec (World S) Image
  commit c key opts = guarded c do
    opt ← lift (apply_opts opts no_commit_img_opts)
    made ← attempt (do l ← call (S.with_lease c.ctx commit_lease_opts); check_lease l)
    l ← wrapping "failed to create lease for commit" made
    defer (λ _. none) (commit_leased c l.ctx key opt)
        (finish l "could not remove lease on update image operation")
