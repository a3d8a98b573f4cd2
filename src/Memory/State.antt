-- ===== src/Memory/State.antt =====
-- The state of the services in memory.
use containerdosstore.Prelude.{ℕ, String, List, Map}
use containerdosstore.Services.Types.{Image, Info, ImageConfig, Manifest, Index}

pub data Blob : Type 0 where
  config_blob : ImageConfig → Blob
  manifest_blob : Manifest → Blob
  index_blob : Index → Blob
  junk : Blob

pub record Store : Type 0 where
  pub held : List String
  pub fresh : ℕ
  pub images : List Image
  pub table : List Info
  pub blobs : Map Blob
  -- The labels of the blobs that were written with some.
  pub labels : Map (Map String)
  pub mounted : List String
