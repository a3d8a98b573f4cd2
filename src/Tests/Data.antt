-- ===== src/Tests/Data.antt =====
-- The store, the images and the worlds of the tests.
use containerdosstore.Prelude.{ℕ, String, List, [], ◌∷◌, none, some, false}
use containerdosstore.Services.Types.{Image, Info, Descriptor, Manifest}
use containerdosstore.World.{World, call, log_at}
use containerdosstore.Exec.{◌>>=◌, attempt, on_error, defer, closing, apply_opts}
use containerdosstore.Memory.{memory, memory_runs, Store, manifest_blob}
use containerdosstore.OciStore.{OciStore, guarded, leased, acquire, finish}
use containerdosstore.Image.{delete_func}
use containerdosstore.Snapshots.{list_snapshots_func, label_snapshot_func, assign_all}
use containerdosstore.Snapshots.Chain.{remove_snapshots_chain}
use containerdosstore.Import.{import_func, import_file_func, single_image, del_imgs, del_img}
use containerdosstore.Unpack.{unpack_func}
use containerdosstore.Mount.{mount_leased, with_mount_unpack}
use containerdosstore.Pull.{filter_pull_unpack, found, drop_first}
use containerdosstore.Commit.{
  commit_leased, create_diff, write_contents_for_image, apply_diff_layer, store_image,
}
use containerdosstore.Commit.Config.{generate_commit_image_config}
use containerdosstore.Read.{read_manifest, read_image_config}

-- What a test opens to run the program.
unfoldable pub program_runs : ℕ
unfolding memory_runs ◌>>=◌ attempt call log_at on_error defer closing apply_opts guarded leased
    acquire finish delete_func remove_snapshots_chain import_func import_file_func single_image
    unpack_func mount_leased del_imgs del_img generate_commit_image_config commit_leased create_diff
    write_contents_for_image apply_diff_layer store_image read_manifest read_image_config
    list_snapshots_func label_snapshot_func assign_all with_mount_unpack filter_pull_unpack found
    drop_first
program_runs = 0

abbrev pub snapshot : String → String → Info
snapshot k parent = record { name = k; parent = parent; labels = none; rest = "committed" }

-- top stands on mid, mid and other stand on base.
abbrev pub layers : List Info
layers =
    snapshot "base" "" ∷ snapshot "mid" "base" ∷ snapshot "other" "base" ∷ snapshot "top" "mid" ∷ []

abbrev pub descriptor : String → String → Descriptor
descriptor media_type digest = record {
  media_type = media_type;
  digest = digest;
  size = 1;
  rest = "";
}

abbrev pub config_desc : Descriptor
config_desc = descriptor "config" "cfg"

-- An image of one layer, "top", which is unpacked.
abbrev pub image : Image
image = record {
  name = "img";
  target = descriptor "manifest" "mfst";
  created_at = 0;
  labels = none;
}

abbrev pub manifest : Manifest
manifest = record {
  schema_version = 2;
  media_type = "manifest";
  config = descriptor "manifest" "mfst";
  layers = descriptor "layer" "top" ∷ [];
  rest = "";
}

abbrev pub services : Store
services = record {
  held = "lease-0" ∷ [];
  fresh = 1;
  images = image ∷ [];
  table = layers;
  blobs = ("mfst", manifest_blob manifest) ∷ [];
  labels = [];
  mounted = [];
}

abbrev pub world : World memory
world = record { services = services; log = [] }

abbrev pub fresh_store : OciStore memory
fresh_store = record {
  root = "/var";
  driver = "overlayfs";
  namespace = "elemental-system";
  platform = tt;
  ctx = none;
  db = none;
  cli = none;
}

abbrev pub store : OciStore memory
store = record fresh_store { ctx = some false; db = some tt; cli = some tt }
