-- ===== src/Image/Laws.antt =====
-- The images by name, and what the program relies on in the calls that it deletes an image with. An
-- image that is unpacked is one whose chain of layers has a snapshot.
use containerdosstore.Prelude.{
  String, Bool, Option, none, some, List, [], ◌∷◌, ◌==◌, ◌≡◌, if◌then◌else◌, is_some,
}
use containerdosstore.Exec.{ok}
use containerdosstore.Services.{Services}
use containerdosstore.Services.Types.{Digest, Image}
use containerdosstore.Services.Frame.{Same, LeaseFrame}
use containerdosstore.Snapshots.Table.{SnapshotLaws, find}
use containerdosstore.Snapshots.Pruning.{TableFrame}

unfoldable pub found_image : String → List Image → Option Image
found_image k [] = none
found_image k (i ∷ is) = if i.name == k then some i else found_image k is

unfoldable pub without : String → List Image → List Image
without k [] = []
without k (i ∷ is) = let rest = without k is in if i.name == k then rest else i ∷ rest

pub record ImageLaws {S : Services} {sn : S.Snapshotter} (L : SnapshotLaws S sn) : Type 0 where
  pub tables : TableFrame L
  pub images : S.State → List Image
  pub layers : S.State → Image → List Digest
  -- The calls other than that of the image service leave the images alone; leases and reading an
  -- image leave its layers alone.
  pub image_leases : LeaseFrame S images
  pub layer_leases : LeaseFrame S layers
  pub images-get_image : (ctx : Option S.Ctx) (k : String) → Same images (S.get_image ctx k)
  pub layers-get_image : (ctx : Option S.Ctx) (k : String) → Same layers (S.get_image ctx k)
  pub images-is_unpacked :
      (ctx : Option S.Ctx) (i : Image) (driver : String) → Same images (S.is_unpacked ctx i driver)
  pub layers-is_unpacked :
      (ctx : Option S.Ctx) (i : Image) (driver : String) → Same layers (S.is_unpacked ctx i driver)
  pub images-root_fs : (ctx : Option S.Ctx) (i : Image) → Same images (S.root_fs ctx i)
  pub images-stat : (ctx : Option S.Ctx) (k : String) → Same images (S.stat sn ctx k)
  pub images-remove : (ctx : Option S.Ctx) (k : String) → Same images (S.remove sn ctx k)
  -- What the calls return.
  pub get_image_found :
      (ctx : Option S.Ctx) (k : String) (s : S.State) (i : Image)
      → (S.get_image ctx k s).0 ≡ ok i
      → found_image k (images s) ≡ some i
  pub root_fs_layers :
      (ctx : Option S.Ctx) (i : Image) (s : S.State) (ds : List Digest)
      → (S.root_fs ctx i s).0 ≡ ok ds
      → ds ≡ layers s i
  pub delete_image_deletes :
      (ctx : Option S.Ctx) (k : String) (os : List S.DeleteOpt) (s : S.State)
      → (S.delete_image ctx k os s).0 ≡ ok tt
      → images (S.delete_image ctx k os s).1 ≡ without k (images s)

-- IsUnpacked of a driver looks the chain up among the driver's snapshots.
pub record UnpackedLaws (S : Services) (driver : String) : Type 0 where
  pub snapshots : SnapshotLaws S (S.snapshot_service driver)
  pub laws : ImageLaws snapshots
  pub is_unpacked_tells :
      (ctx : Option S.Ctx) (i : Image) (s : S.State) (b : Bool)
      → (S.is_unpacked ctx i driver s).0 ≡ ok b
      → b ≡ is_some (find (S.chain_id (laws.layers s i)) (snapshots.table s))
