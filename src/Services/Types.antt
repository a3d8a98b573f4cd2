-- ===== src/Services/Types.antt =====
-- The data that passes between the program and the services: the fields that the program reads or
-- writes. `rest` stands for the fields that it only carries along and compares.
use containerdosstore.Prelude.{ℕ, String, Option, List, Map, Bool}

abbrev pub Digest : Type 0
Digest = String

-- ocispec.Descriptor
pub record Descriptor : Type 0 where
  pub media_type : String
  pub digest : Digest
  pub size : ℕ
  pub rest : String

-- images.Image, and the client.Image that client.NewImage makes of it. A map may be nil.
pub record Image : Type 0 where
  pub name : String
  pub target : Descriptor
  pub created_at : ℕ
  pub labels : Option (Map String)

-- snapshots.Info
pub record Info : Type 0 where
  pub name : String
  pub parent : String
  pub labels : Option (Map String)
  pub rest : String

-- content.Info
pub record ContentInfo : Type 0 where
  pub size : ℕ
  pub labels : Option (Map String)

-- ocispec.ImageConfig; a slice may be nil.
pub record RunConfig : Type 0 where
  pub cmd : Option (List String)
  pub entrypoint : Option (List String)
  pub rest : String

-- ocispec.History
pub record History : Type 0 where
  pub created : Option ℕ
  pub created_by : String
  pub author : String
  pub comment : String
  pub empty_layer : Bool

-- ocispec.Image
pub record ImageConfig : Type 0 where
  pub architecture : String
  pub os : String
  pub variant : String
  pub created : Option ℕ
  pub author : String
  pub config : RunConfig
  pub rootfs_type : String
  pub diff_ids : List Digest
  pub history : List History

-- ocispec.Manifest
pub record Manifest : Type 0 where
  pub schema_version : ℕ
  pub media_type : String
  pub config : Descriptor
  pub layers : List Descriptor
  pub rest : String

-- ocispec.Index
pub record Index : Type 0 where
  pub manifests : List Descriptor
