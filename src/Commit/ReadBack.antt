-- ===== src/Commit/ReadBack.antt =====
-- Reading what Commit wrote.
use containerdosstore.Prelude.{String, true, Option, none, some, ◌≡◌, ◌≢◌, ◌∙◌, sym, ap}
use containerdosstore.Exec.{ok, lift}
use containerdosstore.Exec.Cases.{if_cases}
use containerdosstore.Exec.Inversion.{bind-returns, ok_injective}
use containerdosstore.Services.{Services}
use containerdosstore.Services.Types.{Digest, Descriptor, Image, ImageConfig, Manifest}
use containerdosstore.World.{World, call}
use containerdosstore.Read.{read_manifest, read_image_config}
use containerdosstore.Commit.{all_layers, write_contents_for_image}
use mathlib.Core.Option.{some-injective}
use containerdosstore.Commit.Blobs.{BlobLaws, Wrote, manifest_for, write_contents_for_image-Wrote}

module _ {S : Services} (C : BlobLaws S) (base : Option Manifest) (config : ImageConfig)
    (diff : Descriptor) where
  module _ (ctx : Option S.Ctx) (img : Image) (v : World S) (mfst : Descriptor)
      (config_digest : Digest) (wrote : Wrote C base config diff mfst config_digest v)
      (target : img.target ≡ mfst) where
    typed_img : S.is_manifest_type img.target.media_type ≡ true
    typed_img =
        ap (λ (d : Descriptor). S.is_manifest_type d.media_type) target
        ∙ ap S.is_manifest_type wrote.typed
        ∙ C.is_manifest

    -- What is read under the image's target is the manifest that was written.
    manifest_bytes-same :
        (b : S.Bytes) → C.blobs v.services img.target.digest ≡ some b → b ≡ wrote.manifest_bytes
    manifest_bytes-same b at =
        some-injective b wrote.manifest_bytes
          (sym at ∙ ap (λ (d : Descriptor). C.blobs v.services d.digest) target ∙ wrote.manifest_at)

    read_manifest-written :
        (r : Option (Manifest × Descriptor))
        → (read_manifest ctx img v).0 ≡ ok r
        → (m : Manifest) × (r ≡ some (m, img.target))
          × (m.layers ≡ all_layers base diff)
          × (m.config.digest ≡ config_digest)
    unfolding read_manifest call
    read_manifest-written r =
        if_cases
          (λ p.
            p.0 ≡ ok r
            → (m : Manifest) × (r ≡ some (m, img.target))
              × (m.layers ≡ all_layers base diff)
              × (m.config.digest ≡ config_digest))
          (S.is_manifest_type img.target.media_type) _ _ v
          (λ _ e.
            let (b, e1, l1, _) = bind-returns (call (S.read_blob ctx img.target)) _ v r e in
            let v1 = (call (S.read_blob ctx img.target) v).1 in
            let (m, e2, l2, _) =
              bind-returns (lift {W = World S} (S.decode_manifest b)) _ v1 r l1 in
            let same = manifest_bytes-same b (C.read_gives ctx img.target v.services b e1) in
            let (layers, config_desc) =
              C.manifest_json (manifest_for C base config diff wrote.config_bytes) m b
                (wrote.manifest_is ∙ ap ok (sym same)) e2 in
            (
              m,
              sym (ok_injective _ r l2),
              layers,
              ap (λ (d : Descriptor). d.digest) config_desc ∙ wrote.digest_is,
            ))
          (λ no e. let yes = typed_img in cc)

    read_image_config-written :
        (c : ImageConfig) (d : Descriptor)
        → (read_image_config ctx img v).0 ≡ ok (c, d)
        → (c.diff_ids ≡ config.diff_ids)
          × (c.architecture ≡ config.architecture)
          × (c.os ≡ config.os)
          × (c.author ≡ config.author)
    unfolding read_image_config call
    read_image_config-written c d e =
        let (desc, e1, l1, _) = bind-returns (call (S.image_config ctx img)) _ v (c, d) e in
        let v1 = (call (S.image_config ctx img) v).1 in
        let (b, e2, l2, _) = bind-returns (call (S.read_blob ctx desc)) _ v1 (c, d) l1 in
        let v2 = (call (S.read_blob ctx desc) v1).1 in
        let (c', e3, l3, _) =
          bind-returns (lift {W = World S} (S.decode_config b)) _ v2 (c, d) l2 in
        let is_c : c' ≡ c = ap (λ (p : ImageConfig × Descriptor). p.0) (ok_injective _ (c, d) l3) in
        let (mb, m, at_m, decoded, named) = C.config_gives ctx img v.services desc typed_img e1 in
        let same_m = manifest_bytes-same mb at_m in
        let (_, config_desc) =
          C.manifest_json (manifest_for C base config diff wrote.config_bytes) m mb
            (wrote.manifest_is ∙ ap ok (sym same_m)) decoded in
        let at : desc.digest ≡ config_digest =
          ap (λ (x : Descriptor). x.digest) (named ∙ config_desc) ∙ wrote.digest_is in
        let same : b ≡ wrote.config_bytes = some-injective b wrote.config_bytes (
          sym (C.read_gives ctx desc v1.services b e2)
          ∙ ap (λ f. f desc.digest) (C.blobs-image_config ctx img v.services)
          ∙ ap (C.blobs v.services) at
          ∙ wrote.config_at) in
        C.config_json config c b (wrote.config_is ∙ ap ok (sym same)) (e3 ∙ ap ok is_c)

  -- What Commit writes, if there was no content of the two digests and these differ, is what is read
  -- back of an image with that target: ReadManifest, where it returns, finds a manifest with the
  -- layers of the base, the new layer behind them, and the digest of the configuration;
  -- ReadImageConfig, where it returns, gives a configuration with the diff ids, the architecture, the
  -- system and the author of the new one.
  pub read-write_contents_for_image :
      (ctx ctx' : Option S.Ctx) (sn_name : String) (w : World S) (img : Image) (mfst : Descriptor)
      (config_digest : Digest) (r : Option (Manifest × Descriptor)) (c : ImageConfig)
      (d : Descriptor)
      → let written = (write_contents_for_image ctx sn_name base config diff w).1 in
        (write_contents_for_image ctx sn_name base config diff w).0 ≡ ok (mfst, config_digest)
        → C.blobs w.services mfst.digest ≡ none
        → C.blobs w.services config_digest ≡ none
        → mfst.digest ≢ config_digest
        → img.target ≡ mfst
        → (read_manifest ctx' img written).0 ≡ ok r
        → (read_image_config ctx' img written).0 ≡ ok (c, d)
        → ((m : Manifest) × (r ≡ some (m, img.target))
            × (m.layers ≡ all_layers base diff)
            × (m.config.digest ≡ config_digest))
          × (c.diff_ids ≡ config.diff_ids)
          × (c.architecture ≡ config.architecture)
          × (c.os ≡ config.os)
          × (c.author ≡ config.author)
  read-write_contents_for_image ctx ctx' sn_name w img mfst config_digest r c d e new new' apart
        target read read' =
      let written = (write_contents_for_image ctx sn_name base config diff w).1 in
      let wrote =
        write_contents_for_image-Wrote C base config diff ctx sn_name w mfst config_digest e new
          new' apart in
      let (ids, arch, os, author) =
        read_image_config-written ctx' img written mfst config_digest wrote target c d read' in
      (
        read_manifest-written ctx' img written mfst config_digest wrote target r read,
        ids,
        arch,
        os,
        author,
      )
