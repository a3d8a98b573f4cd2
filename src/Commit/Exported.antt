-- ===== src/Commit/Exported.antt =====
-- The layer that Commit exports from a snapshot, and what the target of the new image stands for.
use containerdosstore.Prelude.{
  String, Option, none, some, List, [], ◌∷◌, ◌++◌, ◌≡◌, ◌∙◌, refl, sym, ap,
}
use containerdosstore.Exec.{ok, lift}
use containerdosstore.Exec.Inversion.{bind-returns, ok_injective}
use containerdosstore.Services.{Services}
use containerdosstore.Services.Types.{Digest, Descriptor, ContentInfo, ImageConfig, Manifest}
use containerdosstore.World.{World, call}
use containerdosstore.Commit.{
  all_layers, create_diff, descriptor_of, diff_id_label, label_of, media_type_config,
  media_type_manifest, write_contents_for_image,
}

abbrev pub layers_of : Option Manifest → List Descriptor
layers_of none = []
layers_of (some m) = m.layers

all_layers-layers_of :
    (base : Option Manifest) (diff : Descriptor)
    → all_layers base diff ≡ layers_of base ++ (diff ∷ [])
unfolding all_layers
all_layers-layers_of none diff = refl
all_layers-layers_of (some m) diff = refl

module _ (S : Services) where
  -- The differ made content of the snapshot; the layer has its digest, and the diff id is the digest of
  -- the uncompressed content, which the content store has it labelled with.
  pub record Exported (ctx : Option S.Ctx) (key : String) (sn : S.Snapshotter)
      (opts : List S.DiffOpt) (s : S.State) (layer : Descriptor) (diff_id : Digest) : Type 0 where
    pub content : Descriptor
    pub made : (S.create_diff ctx key sn opts s).0 ≡ ok content
    pub digest : layer.digest ≡ content.digest
    pub info : ContentInfo
    pub informed :
        (S.content_info ctx content.digest (S.create_diff ctx key sn opts s).1).0 ≡ ok info
    pub size : layer.size ≡ info.size
    pub text : String
    pub labelled : label_of info.labels "containerd.io/uncompressed" ≡ some text
    pub parsed : S.parse_digest text ≡ ok diff_id

  -- The descriptor is that of a manifest, with the layers of the base and the new one, whose
  -- configuration is the given one.
  pub record Describes (target : Descriptor) (config : ImageConfig) (base : List Descriptor)
      (layer : Descriptor) : Type 0 where
    pub config_json : S.Bytes
    pub encoded_config : S.encode_config config ≡ ok config_json
    pub manifest : Manifest
    pub manifest_json : S.Bytes
    pub encoded_manifest : S.encode_manifest manifest ≡ ok manifest_json
    pub refers : manifest.config ≡ descriptor_of S media_type_config config_json
    pub layers : manifest.layers ≡ base ++ (layer ∷ [])
    pub target-is : target ≡ descriptor_of S media_type_manifest manifest_json

module _ {S : Services} where
  diff_id_label-ok :
      (o : Option String) (w : World S) (text : String)
      → (diff_id_label o w).0 ≡ ok text
      → o ≡ some text
  unfolding diff_id_label
  diff_id_label-ok none w text e = cc
  diff_id_label-ok (some t) w text e = ap some (ok_injective t text e)

  pub create_diff-Exported :
      (ctx : Option S.Ctx) (key : String) (sn : S.Snapshotter) (opts : List S.DiffOpt) (w : World S)
      (layer : Descriptor × Digest)
      → (create_diff ctx key sn opts w).0 ≡ ok layer
      → Exported S ctx key sn opts w.services layer.0 layer.1
  unfolding create_diff call
  create_diff-Exported ctx key sn opts w layer e =
      let m = call (S.create_diff ctx key sn opts) in
      let (content, e1, l1, _) = bind-returns m _ w layer e in
      let w1 = (m w).1 in
      let m' = call (S.content_info ctx content.digest) in
      let (info, e2, l2, _) = bind-returns m' _ w1 layer l1 in
      let w2 = (m' w1).1 in
      let label = diff_id_label {S = S} (label_of info.labels "containerd.io/uncompressed") in
      let (text, e3, l3, _) = bind-returns label _ w2 layer l2 in
      let (diff_id, e4, l4, _) =
        bind-returns (lift {W = World S} (S.parse_digest text)) _ (label w2).1 layer l3 in
      let is = sym (ok_injective _ layer l4) in
      record {
        content = content;
        made = e1;
        digest = ap (λ (p : Descriptor × Digest). p.0.digest) is;
        info = info;
        informed = e2;
        size = ap (λ (p : Descriptor × Digest). p.0.size) is;
        text = text;
        labelled = diff_id_label-ok _ w2 text e3;
        parsed = e4 ∙ ap (λ (p : Descriptor × Digest). ok p.1) (sym is);
      }

  pub write_contents_for_image-Describes :
      (ctx : Option S.Ctx) (sn_name : String) (base : Option Manifest) (config : ImageConfig)
      (diff : Descriptor) (w : World S) (target : Descriptor × Digest)
      → (write_contents_for_image ctx sn_name base config diff w).0 ≡ ok target
      → Describes S target.0 config (layers_of base) diff
  unfolding write_contents_for_image
  write_contents_for_image-Describes ctx sn_name base config diff w target e =
      let (config_json, e1, l1, _) =
        bind-returns (lift {W = World S} (S.encode_config config)) _ w target e in
      let manifest : Manifest = record {
        schema_version = 2;
        media_type = media_type_manifest;
        config = descriptor_of S media_type_config config_json;
        layers = all_layers base diff;
        rest = "";
      } in
      let (mfst_json, e2, l2, _) =
        bind-returns (lift {W = World S} (S.encode_manifest manifest)) _ _ target l1 in
      let (_, _, l3, _) = bind-returns (call _) _ _ target l2 in
      let (_, _, l4, _) = bind-returns (call _) _ _ target l3 in
      record {
        config_json = config_json;
        encoded_config = e1;
        manifest = manifest;
        manifest_json = mfst_json;
        encoded_manifest = e2;
        refers = refl;
        layers = all_layers-layers_of base diff;
        target-is = ap (λ (p : Descriptor × Digest). p.0) (sym (ok_injective _ target l4));
      }
