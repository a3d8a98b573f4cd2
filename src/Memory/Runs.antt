-- ===== src/Memory/Runs.antt =====
-- The services over the state in memory.
use containerdosstore.Prelude.{
  ℕ, String, Bool, Option, none, List, [], ◌==◌, Map, lookup, insert, decimal,
}
use containerdosstore.Exec.{ok}
use containerdosstore.Services.{Services}
use containerdosstore.Services.Types.{Image}
use containerdosstore.Snapshots.Table.{find, has_child, erase}
use containerdosstore.Image.Laws.{found_image, without}
use containerdosstore.Services.Deletion.{is_held, without_id}
use containerdosstore.Memory.State.{Store, Blob, config_blob, manifest_blob}
unfoldable pub use containerdosstore.Memory.Calls.{
  with_ctx, give, missing, drop_id, lease_id, take_lease, memory_lease, memory_release,
  delete_lease, found_or, get_image, put_image, update_image, delete_image, add_images, chain_of,
  config_of, layers_of, unpacked, stat, remove, labels_of, add_snapshot, prepare, mounts, replace,
  update, commit_found, commit, read_blob, put_new, write_blob, is_manifest_type, config_desc_of,
  image_config, digest_of, decode_config, decode_manifest, decode_index, mount_all, unmount_all,
  image_named, open_file, new_diff, diff_info,
}

-- What a test or a proof opens to run the services in memory.
unfoldable pub memory_runs : ℕ
unfolding with_ctx give missing is_held drop_id lease_id take_lease memory_lease memory_release
    delete_lease found_image without without_id found_or get_image put_image update_image
    delete_image add_images chain_of config_of layers_of unpacked stat remove labels_of add_snapshot
    prepare mounts replace update commit_found commit read_blob put_new write_blob is_manifest_type
    config_desc_of image_config digest_of decode_config decode_manifest decode_index mount_all
    unmount_all image_named open_file new_diff diff_info find has_child erase lookup insert decimal
memory_runs = 0

abbrev pub memory : Services
memory = record {
  State = Store;
  Ctx = Bool;
  Db = Unit;
  Client = Unit;
  Done = Option String;
  Platform = Unit;
  Snapshotter = String;
  Mounts = String;
  Unpacker = Unit;
  Bytes = Blob;
  Reader = List Image;
  SnapshotOpt = Map String;
  DiffOpt = Unit;
  ApplyOpt = Unit;
  ClientImportOpt = Unit;
  RemoteOpt = Bool;
  DeleteOpt = Unit;
  default_strict = tt;
  with_namespace = λ ctx ns. ctx;
  new_snapshotter = give;
  bolt_open = λ path. give tt;
  new_content_store = λ path. give tt;
  db_init = λ ctx db. with_ctx ctx (λ _. give tt);
  new_client = λ db sn p. give tt;
  with_lease = memory_lease;
  release = memory_release;
  delete_lease = λ ctx k. with_ctx ctx (λ _. delete_lease k);
  get_image = λ ctx k. with_ctx ctx (λ _. get_image k);
  list_images = λ ctx fs. with_ctx ctx (λ _ s. (ok s.images, s));
  update_image = λ ctx i fs. with_ctx ctx (λ _. update_image i);
  create_image = λ ctx i. with_ctx ctx (λ _. put_image i);
  delete_image = λ ctx k os. with_ctx ctx (λ _. delete_image k);
  import_images = λ ctx r os. with_ctx ctx (λ _. add_images r);
  pull_image = λ ctx ref os. with_ctx ctx (λ _. put_image (image_named ref));
  is_unpacked = λ ctx i driver. with_ctx ctx (λ _. unpacked i);
  root_fs = λ ctx i. with_ctx ctx (λ _. layers_of i);
  image_config = λ ctx i. with_ctx ctx (λ _. image_config i);
  is_pull_unpack = λ o. o;
  snapshot_service = λ driver. driver;
  with_labels = λ m. m;
  stat = λ sn ctx k. with_ctx ctx (λ _. stat k);
  update = λ sn ctx i fs. with_ctx ctx (λ _. update i);
  mounts = λ sn ctx k. with_ctx ctx (λ _. mounts k);
  prepare = λ sn ctx k p os. with_ctx ctx (λ _. prepare k p os);
  view = λ sn ctx k p os. with_ctx ctx (λ _. prepare k p os);
  commit = λ sn ctx name k os. with_ctx ctx (λ _. commit name k os);
  remove = λ sn ctx k. with_ctx ctx (λ _. remove k);
  walk = λ sn ctx fs. with_ctx ctx (λ _ s. (ok (s.table, none), s));
  read_blob = λ ctx d. with_ctx ctx (λ _. read_blob d);
  write_blob = λ ctx ref b d m. with_ctx ctx (λ _. write_blob b d m);
  content_info = λ ctx d. with_ctx ctx (λ _. diff_info d);
  create_diff = λ ctx k sn os. with_ctx ctx (λ _. new_diff k);
  apply_diff = λ ctx d m. with_ctx ctx (λ _. give tt);
  mount_all = mount_all;
  unmount_all = λ target flags. unmount_all target;
  open_file = open_file;
  close_file = λ r. give tt;
  new_unpacker = λ ctx p driver sn sos aos. with_ctx ctx (λ _. give tt);
  children = λ ctx d. give [];
  filter_platforms = λ h p. h;
  handlers = λ hs ctx d. give [];
  unpack_handler = λ u h. h;
  walk_not_empty = λ ctx h d. with_ctx ctx (λ _. give tt);
  wait = λ u. give tt;
  chain_id = chain_of;
  from_bytes = digest_of;
  parse_digest = ok;
  size_of = λ b. 1;
  is_manifest_type = is_manifest_type;
  is_index_type = λ t. t == "index";
  decode_config = decode_config;
  decode_manifest = decode_manifest;
  decode_index = decode_index;
  encode_config = λ c. ok (config_blob c);
  encode_manifest = λ m. ok (manifest_blob m);
  now = give 0;
  nanosecond = give 42;
  random_bytes = give (1, 2, 3);
  format_time = decimal;
  go_arch = "amd64";
  go_os = "linux";
}
