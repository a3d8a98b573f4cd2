-- ===== src/Read.antt =====
-- ReadImageConfig, ReadIndex and ReadManifest of pkg/ocistore/ociStore.go: the configuration, the
-- index and the manifest of an image, from the content store. Where the source returns a descriptor
-- beside an error it is not modelled: no caller reads it.
pub mod Search
use containerdosstore.Prelude.{
  Bool, Option, none, some, List, [], ◌∷◌, ◌==◌, ◌&&◌, if◌then◌else◌, nat_eq,
}
use containerdosstore.Exec.{Exec, failed, returned, attempt, pure, lift, panics, ◌>>=◌}
use containerdosstore.Services.{Services}
use containerdosstore.Services.Types.{Descriptor, Image, ImageConfig, Manifest, Index}
use containerdosstore.World.{World, call}

-- reflect.DeepEqual of two descriptors
unfoldable pub same_descriptor : Descriptor → Descriptor → Bool
same_descriptor a b =
    a.media_type == b.media_type
    && (a.digest == b.digest && (nat_eq a.size b.size && a.rest == b.rest))

module _ {S : Services} where
  unfoldable pub read_image_config :
      Option S.Ctx → Image → Exec (World S) (ImageConfig × Descriptor)
  read_image_config ctx img = do
    desc ← call (S.image_config ctx img)
    p ← call (S.read_blob ctx desc)
    config ← lift (S.decode_config p)
    pure (config, desc)

  -- `none` stands for the two nil results at an image that is no index.
  unfoldable pub read_index : Option S.Ctx → Image → Exec (World S) (Option (Index × Descriptor))
  read_index ctx img =
      if S.is_index_type img.target.media_type
      then (do
        b ← call (S.read_blob ctx img.target)
        idx ← lift (S.decode_index b)
        pure (some (idx, img.target)))
      else pure none

  -- The loop over the index: a manifest that cannot be read is passed over, one that cannot be
  -- decoded is an error.
  unfoldable pub find_manifest :
      Option S.Ctx → Descriptor → List Descriptor → Exec (World S) (Option (Manifest × Descriptor))
  find_manifest ctx config [] = pure none
  find_manifest ctx config (desc ∷ descs) = do
    read ← attempt (call (S.read_blob ctx desc))
    let rest = find_manifest ctx config descs
    elim read [
      | failed e ↦ rest
      | returned b ↦ do
        mani ← lift (S.decode_manifest b)
        if same_descriptor config mani.config then pure (some (mani, desc)) else rest
    ]

  -- `idx.Manifests` of an index that is nil would panic.
  unfoldable pub search_index :
      Option S.Ctx
      → Descriptor
      → Option (Index × Descriptor)
      → Exec (World S) (Option (Manifest × Descriptor))
  unfolding find_manifest
  search_index ctx config none = panics
  search_index ctx config (some (idx, _)) = find_manifest ctx config idx.manifests

  unfoldable pub read_manifest :
      Option S.Ctx → Image → Exec (World S) (Option (Manifest × Descriptor))
  unfolding search_index read_index
  read_manifest ctx img =
      if S.is_manifest_type img.target.media_type
      then (do
        b ← call (S.read_blob ctx img.target)
        mani ← lift (S.decode_manifest b)
        pure (some (mani, img.target)))
      else if S.is_index_type img.target.media_type
      then (do
        idx ← read_index ctx img
        config ← call (S.image_config ctx img)
        search_index ctx config idx)
      else pure none
