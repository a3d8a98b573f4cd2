-- ===== src/Commit/Stored.antt =====
-- The manifest of a commit in the content store, and what is relied on there: writing content that is
-- new stores it with its labels, and content that is there already keeps its own.
use containerdosstore.Prelude.{
  ℕ, ◌+◌, String, Option, none, some, [], ◌∷◌, ◌≡◌, ◌∙◌, sym, ap, get_elem?, Map, lookup,
}
use containerdosstore.Exec.{Exec, ok, lift, pure, ◌>>◌}
use containerdosstore.Exec.Inversion.{bind-ok, bind-world, ok_injective}
use containerdosstore.Services.{Services}
use containerdosstore.Services.Types.{Digest, Descriptor, Manifest, ImageConfig}
use containerdosstore.World.{World, call}
use containerdosstore.Commit.{
  all_layers, layer_labels, write_contents_for_image, descriptor_of, media_type_config,
  media_type_manifest,
}
use containerdosstore.Commit.References.{content_label, labels-refer}

pub record ContentLaws (S : Services) : Type 0 where
  -- The labels of the content that is there.
  pub labels : S.State → Digest → Option (Map String)
  pub write_stores :
      (ctx : Option S.Ctx) (ref : String) (b : S.Bytes) (d : Descriptor) (m : Map String)
      (s : S.State)
      → (S.write_blob ctx ref b d m s).0 ≡ ok tt
      → labels s d.digest ≡ none
      → labels (S.write_blob ctx ref b d m s).1 d.digest ≡ some m
  pub write_keeps :
      (ctx : Option S.Ctx) (ref : String) (b : S.Bytes) (d : Descriptor) (m : Map String)
      (s : S.State) (g : Digest) (m' : Map String)
      → labels s g ≡ some m'
      → labels (S.write_blob ctx ref b d m s).1 g ≡ some m'

module _ {S : Services} (C : ContentLaws S) where
  module _ (ctx : Option S.Ctx) (d config_desc : Descriptor) (mfst_json config_json : S.Bytes)
      (labels config_labels : Map String) where
    abbrev two_writes : Exec (World S) (Descriptor × Digest)
    two_writes = do
      call (S.write_blob ctx d.digest mfst_json d labels)
      call (S.write_blob ctx config_desc.digest config_json config_desc config_labels)
      pure (d, config_desc.digest)

    -- The second write leaves the labels of the first.
    two_writes-ok :
        (w : World S) (mfst : Descriptor) (config_digest : Digest)
        → (two_writes w).0 ≡ ok (mfst, config_digest)
        → C.labels w.services mfst.digest ≡ none
        → (C.labels (two_writes w).1.services mfst.digest ≡ some labels)
          × (config_desc.digest ≡ config_digest)
    unfolding call
    two_writes-ok w mfst config_digest e new =
        let put = call (S.write_blob ctx d.digest mfst_json d labels) in
        let next =
          call (S.write_blob ctx config_desc.digest config_json config_desc config_labels) in
        let (u, e1, left1) = bind-ok put _ w e in
        let w1 = (put w).1 in
        let (u', e2, left2) = bind-ok next _ w1 left1 in
        let pair : (d, config_desc.digest) ≡ (mfst, config_digest) = ok_injective _ _ left2 in
        let is_mfst : d ≡ mfst = ap (λ (p : Descriptor × Digest). p.0) pair in
        let stored : C.labels w1.services d.digest ≡ some labels =
          C.write_stores ctx d.digest mfst_json d labels w.services e1
            (ap (λ (x : Descriptor). C.labels w.services x.digest) is_mfst ∙ new) in
        (
          ap (λ (x : World S). C.labels x.services mfst.digest)
                (bind-world put _ w u e1 ∙ bind-world next _ w1 u' e2)
              ∙ ap (λ (x : Descriptor). C.labels (next w1).1.services x.digest) (sym is_mfst)
              ∙ C.write_keeps ctx config_desc.digest config_json config_desc config_labels
                  w1.services d.digest labels stored,
          ap (λ (p : Descriptor × Digest). p.1) pair,
        )

  written :
      (ctx : Option S.Ctx) (sn_name : String) (base : Option Manifest) (config : ImageConfig)
      (diff : Descriptor) (w : World S) (mfst : Descriptor) (config_digest : Digest)
      → (write_contents_for_image ctx sn_name base config diff w).0 ≡ ok (mfst, config_digest)
      → C.labels w.services mfst.digest ≡ none
      → C.labels (write_contents_for_image ctx sn_name base config diff w).1.services mfst.digest
        ≡ some (
            layer_labels 0
              (all_layers base diff)
              (("containerd.io/gc.ref.content.0", config_digest) ∷ []))
  unfolding write_contents_for_image
  written ctx sn_name base config diff w mfst config_digest e new =
      let encode = lift {W = World S} (S.encode_config config) in
      let (config_json, e1, left1) = bind-ok encode _ w e in
      let config_desc = descriptor_of S media_type_config config_json in
      let layers = all_layers base diff in
      let new_mfst : Manifest = record {
        schema_version = 2;
        media_type = media_type_manifest;
        config = config_desc;
        layers = layers;
        rest = "";
      } in
      let encode' = lift {W = World S} (S.encode_manifest new_mfst) in
      let (mfst_json, e2, left2) = bind-ok encode' _ w left1 in
      let labels_for =
        λ (g : Digest). layer_labels 0 layers (("containerd.io/gc.ref.content.0", g) ∷ []) in
      let (stored, is_config) =
        two_writes-ok ctx (descriptor_of S media_type_manifest mfst_json) config_desc mfst_json
          config_json (labels_for config_desc.digest) _ w mfst config_digest left2 new in
      ap (λ (x : World S). C.labels x.services mfst.digest)
        (bind-world encode _ w config_json e1 ∙ bind-world encode' _ w mfst_json e2)
      ∙ stored
      ∙ ap (λ g. some (labels_for g)) is_config

  -- The manifest that Commit writes, if there was no content of its digest, is in the content store with
  -- labels that refer to its configuration and to every layer, those of the base and the new one:
  -- the label with number 0 holds the digest of the configuration, and that with number n + 1 the
  -- digest of the layer at position n.
  pub labels-write_contents_for_image :
      (ctx : Option S.Ctx) (sn_name : String) (base : Option Manifest) (config : ImageConfig)
      (diff : Descriptor) (w : World S) (mfst : Descriptor) (config_digest : Digest) (n : ℕ)
      (layer : Descriptor)
      → (write_contents_for_image ctx sn_name base config diff w).0 ≡ ok (mfst, config_digest)
      → C.labels w.services mfst.digest ≡ none
      → get_elem? (all_layers base diff) n ≡ some layer
      → (m : Map String) × (C.labels
            (write_contents_for_image ctx sn_name base config diff w).1.services
            mfst.digest
          ≡ some m)
        × (lookup "containerd.io/gc.ref.content.0" m ≡ some config_digest)
        × (lookup (content_label (n + 1)) m ≡ some layer.digest)
  labels-write_contents_for_image ctx sn_name base config diff w mfst config_digest n layer e new
        at =
      let (first, nth) = labels-refer config_digest (all_layers base diff) n layer at in
      (
        layer_labels 0 (all_layers base diff)
            (("containerd.io/gc.ref.content.0", config_digest) ∷ []),
        written ctx sn_name base config diff w mfst config_digest e new,
        first,
        nth,
      )
