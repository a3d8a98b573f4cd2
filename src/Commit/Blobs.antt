-- ===== src/Commit/Blobs.antt =====
-- What is relied on in the content store: content that is new is stored under its digest and leaves
-- other content alone, a blob that is read is the one that is there, and JSON gives back the fields
-- that are listed here. And the two blobs that Commit writes.
use containerdosstore.Prelude.{String, true, Option, none, some, ◌≡◌, ◌≢◌, ◌∙◌, sym, ap, Map}
use containerdosstore.Exec.{ok, lift}
use containerdosstore.Exec.Inversion.{bind-returns, ok_injective}
use containerdosstore.Services.{Services}
use containerdosstore.Services.Types.{Digest, Descriptor, Image, ImageConfig, Manifest}
use containerdosstore.Services.Frame.{Same}
use containerdosstore.World.{World, call}
use containerdosstore.Commit.{
  all_layers, write_contents_for_image, descriptor_of, media_type_config, media_type_manifest,
}

pub record BlobLaws (S : Services) : Type 0 where
  -- The content that is there.
  pub blobs : S.State → Digest → Option S.Bytes
  pub write_puts :
      (ctx : Option S.Ctx) (ref : String) (b : S.Bytes) (d : Descriptor) (m : Map String)
      (s : S.State)
      → (S.write_blob ctx ref b d m s).0 ≡ ok tt
      → blobs s d.digest ≡ none
      → blobs (S.write_blob ctx ref b d m s).1 d.digest ≡ some b
  pub write_leaves :
      (ctx : Option S.Ctx) (ref : String) (b : S.Bytes) (d : Descriptor) (m : Map String)
      (s : S.State) (g : Digest)
      → g ≢ d.digest
      → blobs (S.write_blob ctx ref b d m s).1 g ≡ blobs s g
  pub read_gives :
      (ctx : Option S.Ctx) (d : Descriptor) (s : S.State) (b : S.Bytes)
      → (S.read_blob ctx d s).0 ≡ ok b
      → blobs s d.digest ≡ some b
  -- The configuration of an image that is a manifest is the one that its manifest names.
  pub is_manifest : S.is_manifest_type media_type_manifest ≡ true
  pub config_gives :
      (ctx : Option S.Ctx) (img : Image) (s : S.State) (d : Descriptor)
      → S.is_manifest_type img.target.media_type ≡ true
      → (S.image_config ctx img s).0 ≡ ok d
      → (b : S.Bytes) × (m : Manifest) × (blobs s img.target.digest ≡ some b)
        × (S.decode_manifest b ≡ ok m)
        × (d ≡ m.config)
  pub blobs-image_config : (ctx : Option S.Ctx) (img : Image) → Same blobs (S.image_config ctx img)
  pub config_json :
      (c c' : ImageConfig) (b : S.Bytes)
      → S.encode_config c ≡ ok b
      → S.decode_config b ≡ ok c'
      → (c'.diff_ids ≡ c.diff_ids)
        × (c'.architecture ≡ c.architecture)
        × (c'.os ≡ c.os)
        × (c'.author ≡ c.author)
  pub manifest_json :
      (m m' : Manifest) (b : S.Bytes)
      → S.encode_manifest m ≡ ok b
      → S.decode_manifest b ≡ ok m'
      → (m'.layers ≡ m.layers) × (m'.config ≡ m.config)

module _ {S : Services} (C : BlobLaws S) (base : Option Manifest) (config : ImageConfig)
    (diff : Descriptor) where
  abbrev pub manifest_for : S.Bytes → Manifest
  manifest_for config_json = record {
    schema_version = 2;
    media_type = media_type_manifest;
    config = descriptor_of S media_type_config config_json;
    layers = all_layers base diff;
    rest = "";
  }

  -- The two blobs that were written.
  pub record Wrote (mfst : Descriptor) (config_digest : Digest) (v : World S) : Type 0 where
    pub config_bytes : S.Bytes
    pub config_is : S.encode_config config ≡ ok config_bytes
    pub config_at : C.blobs v.services config_digest ≡ some config_bytes
    pub digest_is : S.from_bytes config_bytes ≡ config_digest
    pub manifest_bytes : S.Bytes
    pub manifest_is : S.encode_manifest (manifest_for config_bytes) ≡ ok manifest_bytes
    pub manifest_at : C.blobs v.services mfst.digest ≡ some manifest_bytes
    pub typed : mfst.media_type ≡ media_type_manifest

  pub write_contents_for_image-Wrote :
      (ctx : Option S.Ctx) (sn_name : String) (w : World S) (mfst : Descriptor)
      (config_digest : Digest)
      → (write_contents_for_image ctx sn_name base config diff w).0 ≡ ok (mfst, config_digest)
      → C.blobs w.services mfst.digest ≡ none
      → C.blobs w.services config_digest ≡ none
      → mfst.digest ≢ config_digest
      → Wrote mfst config_digest (write_contents_for_image ctx sn_name base config diff w).1
  unfolding write_contents_for_image call
  write_contents_for_image-Wrote ctx sn_name w mfst config_digest e new new' apart =
      let (config_json, e1, l1, s1) =
        bind-returns (lift {W = World S} (S.encode_config config)) _ w _ e in
      let config_desc = descriptor_of S media_type_config config_json in
      let (mfst_json, e2, l2, s2) =
        bind-returns (lift {W = World S} (S.encode_manifest (manifest_for config_json))) _ w _ l1 in
      let mfst_desc = descriptor_of S media_type_manifest mfst_json in
      let (u, e3, l3, s3) =
        bind-returns (call (S.write_blob ctx mfst_desc.digest mfst_json mfst_desc _)) _ w _ l2 in
      let w1 = (call (S.write_blob ctx mfst_desc.digest mfst_json mfst_desc _) w).1 in
      let (u', e4, l4, s4) =
        bind-returns (call (S.write_blob ctx config_desc.digest config_json config_desc _)) _ w1 _
          l3 in
      let w2 = (call (S.write_blob ctx config_desc.digest config_json config_desc _) w1).1 in
      let pair : (mfst_desc, config_desc.digest) ≡ (mfst, config_digest) = ok_injective _ _ l4 in
      let is_m : mfst_desc ≡ mfst = ap (λ (p : Descriptor × Digest). p.0) pair in
      let is_c : config_desc.digest ≡ config_digest = ap (λ (p : Descriptor × Digest). p.1) pair in
      let at_m : C.blobs w1.services mfst_desc.digest ≡ some mfst_json =
        C.write_puts ctx _ mfst_json mfst_desc _ w.services e3
          (ap (λ (d : Descriptor). C.blobs w.services d.digest) is_m ∙ new) in
      let left_c : C.blobs w1.services config_desc.digest ≡ none =
        C.write_leaves ctx _ mfst_json mfst_desc _ w.services config_desc.digest
          (λ q. apart (ap (λ (d : Descriptor). d.digest) (sym is_m) ∙ sym q ∙ is_c))
        ∙ ap (C.blobs w.services) is_c
        ∙ new' in
      let at_c : C.blobs w2.services config_desc.digest ≡ some config_json =
        C.write_puts ctx _ config_json config_desc _ w1.services e4 left_c in
      let still_m : C.blobs w2.services mfst_desc.digest ≡ some mfst_json =
        C.write_leaves ctx _ config_json config_desc _ w1.services mfst_desc.digest
          (λ q. apart (ap (λ (d : Descriptor). d.digest) (sym is_m) ∙ q ∙ is_c))
        ∙ at_m in
      let left : (write_contents_for_image ctx sn_name base config diff w).1 ≡ w2 =
        s1 ∙ s2 ∙ s3 ∙ s4 in
      record {
        config_bytes = config_json;
        config_is = e1;
        config_at =
            ap (λ (v : World S). C.blobs v.services config_digest) left
            ∙ ap (C.blobs w2.services) (sym is_c)
            ∙ at_c;
        digest_is = is_c;
        manifest_bytes = mfst_json;
        manifest_is = e2;
        manifest_at =
            ap (λ (v : World S). C.blobs v.services mfst.digest) left
            ∙ ap (λ (d : Descriptor). C.blobs w2.services d.digest) (sym is_m)
            ∙ still_m;
        typed = ap (λ (d : Descriptor). d.media_type) (sym is_m);
      }
