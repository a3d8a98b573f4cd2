-- ===== src/Memory/Calls.antt =====
-- The calls on the state in memory: leases, images, snapshots and content. A context is a Boolean:
-- whether it carries a lease.
use containerdosstore.Prelude.{
  is_some, ◌+◌, String, ◌<>◌, Bool, true, false, Option, none, some, List, [], ◌∷◌, ◌++◌, ◌==◌,
  ◌||◌, if◌then◌else◌, Map, lookup, insert, decimal, map,
}
use containerdosstore.Exec.{
  failure, message, not_found, already_exists, failed_precondition, other, Outcome, ok, err, panic,
  Exec,
}
use containerdosstore.Services.{LeaseOpt, with_id, Leased}
use containerdosstore.Services.Types.{
  Digest, Descriptor, Image, Info, ContentInfo, ImageConfig, Manifest, Index,
}
use containerdosstore.Snapshots.Table.{Table, find, has_child, erase}
use containerdosstore.Image.Laws.{found_image, without}
use containerdosstore.Services.Deletion.{is_held, without_id}
use containerdosstore.Memory.State.{Store, Blob, config_blob, manifest_blob, index_blob, junk}

-- A call with a nil context panics.
unfoldable pub with_ctx : {A : Type 0} → Option Bool → (Bool → Exec Store A) → Exec Store A
with_ctx none m s = (panic, s)
with_ctx (some ctx) m s = m ctx s

unfoldable pub give : {A : Type 0} → A → Exec Store A
give a s = (ok a, s)

unfoldable pub missing : {A : Type 0} → String → Exec Store A
missing what s = (err (failure not_found (what <> ": not found")), s)

unfoldable pub drop_id : String → List String → List String
drop_id k [] = []
drop_id k (j ∷ ks) = let rest = drop_id k ks in if j == k then ks else j ∷ rest

unfoldable pub lease_id : String → List LeaseOpt → String
lease_id default [] = default
lease_id default (with_id k ∷ os) = k
lease_id default (_ ∷ os) = lease_id default os

unfoldable pub take_lease : String → Exec Store (Leased Bool (Option String))
take_lease k s =
    if is_held k s.held
    then (
      ok (record {
        ctx = some false;
        done = some none;
        error = some (failure already_exists (k <> ": already exists"));
      }),
      s,
    )
    else (
      ok (record { ctx = some true; done = some (some k); error = none }),
      record s { held = k ∷ s.held; fresh = s.fresh + 1 },
    )

unfoldable pub memory_lease : Option Bool → List LeaseOpt → Exec Store (Leased Bool (Option String))
memory_lease none os s = (panic, s)
memory_lease (some true) os s = (ok (record { ctx = some true; done = some none; error = none }), s)
memory_lease (some false) os s = take_lease (lease_id ("lease-" <> decimal s.fresh) os) s

unfoldable pub memory_release : Option String → Option Bool → Exec Store (Unit {0})
memory_release none ctx s = (ok tt, s)
memory_release (some k) ctx s = (ok tt, record s { held = drop_id k s.held })

unfoldable pub delete_lease : String → Exec Store (Unit {0})
delete_lease k s =
    if is_held k s.held
    then (ok tt, record s { held = without_id k s.held })
    else (err (failure not_found "lease: not found"), s)

-- Images
unfoldable pub found_or {ℓ} : {A : Type ℓ} → Option A → String → Outcome A
found_or none what = err (failure not_found (what <> ": not found"))
found_or (some a) what = ok a

unfoldable pub get_image : String → Exec Store Image
get_image k s = (found_or (found_image k s.images) k, s)

unfoldable pub put_image : Image → Exec Store Image
put_image i s = (ok i, record s { images = without i.name s.images ++ (i ∷ []) })

unfoldable pub update_image : Image → Exec Store Image
update_image i s = if is_some (found_image i.name s.images) then put_image i s else missing i.name s

unfoldable pub delete_image : String → Exec Store (Unit {0})
delete_image k s =
    if is_some (found_image k s.images)
    then (ok tt, record s { images = without k s.images })
    else missing k s

unfoldable pub add_images : List Image → Exec Store (List Image)
add_images is s = (ok is, record s { images = s.images ++ is })

-- The chain id of one diff id is that diff id.
unfoldable pub chain_of : List Digest → Digest
chain_of [] = ""
chain_of (d ∷ []) = d
chain_of (d ∷ ds) = d <> ("/" <> chain_of ds)

unfoldable pub config_of : Option Blob → List Digest
config_of (some (config_blob c)) = c.diff_ids
config_of (some (manifest_blob m)) = map (λ l. l.digest) m.layers
config_of _ = []

unfoldable pub layers_of : Image → Exec Store (List Digest)
layers_of i s = (ok (config_of (lookup i.target.digest s.blobs)), s)

unfoldable pub unpacked : Image → Exec Store Bool
unpacked i s =
    (ok (is_some (find (chain_of (config_of (lookup i.target.digest s.blobs))) s.table)), s)

-- Snapshots
unfoldable pub stat : String → Exec Store Info
stat k s = (found_or (find k s.table) k, s)

unfoldable pub remove : String → Exec Store (Unit {0})
remove k s =
    if is_some (find k s.table)
    then (if has_child k s.table
        then (err (failure failed_precondition "cannot remove snapshot with child"), s)
        else (ok tt, record s { table = erase k s.table }))
    else missing k s

unfoldable pub labels_of : List (Map String) → Option (Map String)
labels_of [] = none
labels_of (m ∷ ms) = some m

unfoldable pub add_snapshot : String → String → List (Map String) → Exec Store String
add_snapshot k parent ms s =
    let i : Info = record { name = k; parent = parent; labels = labels_of ms; rest = "active" } in
    (ok k, record s { table = s.table ++ (i ∷ []) })

unfoldable pub prepare : String → String → List (Map String) → Exec Store String
prepare k parent ms s =
    if k == ""
    then (err (failure other "key required"), s)
    else if is_some (find k s.table)
    then (err (failure already_exists (k <> ": already exists")), s)
    else if parent == ""
    then add_snapshot k parent ms s
    else if is_some (find parent s.table)
    then add_snapshot k parent ms s
    else missing parent s

unfoldable pub mounts : String → Exec Store String
mounts k s = if is_some (find k s.table) then (ok k, s) else missing k s

unfoldable pub replace : Info → Table → Table
replace i [] = []
replace i (j ∷ t) = let rest = replace i t in if j.name == i.name then i ∷ rest else j ∷ rest

unfoldable pub update : Info → Exec Store Info
update i s =
    if is_some (find i.name s.table)
    then (ok i, record s { table = replace i s.table })
    else missing i.name s

unfoldable pub commit_found : Option Info → String → List (Map String) → Exec Store (Unit {0})
commit_found none name ms s = missing name s
commit_found (some i) name ms s =
    let j : Info = record i { name = name; labels = labels_of ms; rest = "committed" } in
    (ok tt, record s { table = erase i.name s.table ++ (j ∷ []) })

unfoldable pub commit : String → String → List (Map String) → Exec Store (Unit {0})
commit name k ms s =
    if is_some (find name s.table)
    then (err (failure already_exists (name <> ": already exists")), s)
    else commit_found (find k s.table) name ms s

-- Content
unfoldable pub read_blob : Descriptor → Exec Store Blob
read_blob d s = (found_or (lookup d.digest s.blobs) d.digest, s)

-- Content that is there is left as it is.
unfoldable pub put_new {ℓ} : {V : Type ℓ} → String → V → Map V → Map V
put_new k v m = if is_some (lookup k m) then m else insert k v m

unfoldable pub write_blob : Blob → Descriptor → Map String → Exec Store (Unit {0})
write_blob b d m s =
    (ok tt, record s { blobs = put_new d.digest b s.blobs; labels = put_new d.digest m s.labels })

unfoldable pub is_manifest_type : String → Bool
is_manifest_type t = t == "manifest" || t == "application/vnd.docker.distribution.manifest.v2+json"

unfoldable pub config_desc_of : Option Blob → Outcome Descriptor
config_desc_of (some (manifest_blob m)) = ok m.config
config_desc_of _ = err (failure not_found "manifest: not found")

unfoldable pub image_config : Image → Exec Store Descriptor
image_config i s = (
  if is_manifest_type i.target.media_type
      then config_desc_of (lookup i.target.digest s.blobs)
      else ok i.target,
  s,
)

unfoldable pub digest_of : Blob → Digest
digest_of (config_blob c) = "sha256:config-" <> chain_of c.diff_ids
digest_of (manifest_blob m) = "sha256:manifest-" <> chain_of (map (λ l. l.digest) m.layers)
digest_of (index_blob i) = "sha256:index"
digest_of junk = "sha256:junk"

unfoldable pub decode_config : Blob → Outcome ImageConfig
decode_config (config_blob c) = ok c
decode_config _ = err (message "invalid configuration")

unfoldable pub decode_manifest : Blob → Outcome Manifest
decode_manifest (manifest_blob m) = ok m
decode_manifest _ = err (message "invalid manifest")

unfoldable pub decode_index : Blob → Outcome Index
decode_index (index_blob i) = ok i
decode_index _ = err (message "invalid index")

-- Mounting on "/bad" fails.
unfoldable pub mount_all : String → String → Exec Store (Unit {0})
mount_all m target s =
    if target == "/bad"
    then (err (failure other "no such mount point"), s)
    else (ok tt, record s { mounted = target ∷ s.mounted })

unfoldable pub unmount_all : String → Exec Store (Unit {0})
unmount_all target s = (ok tt, record s { mounted = drop_id target s.mounted })

-- A file is an archive with the images that its name says.
unfoldable pub image_named : String → Image
image_named k = record {
  name = k;
  target = record { media_type = "manifest"; digest = k; size = 1; rest = "" };
  created_at = 0;
  labels = none;
}

unfoldable pub open_file : String → Exec Store (List Image)
open_file file s =
    if file == "two.tar"
    then (ok (image_named "one" ∷ image_named "two" ∷ []), s)
    else if file == "one.tar"
    then (ok (image_named "one" ∷ []), s)
    else (err (failure not_found "no such file"), s)

unfoldable pub new_diff : String → Exec Store Descriptor
new_diff k s =
    (ok (record { media_type = "layer"; digest = "sha256:diff-" <> k; size = 7; rest = "" }), s)

unfoldable pub diff_info : Digest → Exec Store ContentInfo
diff_info d s =
    (ok (record { size = 7; labels = some (("containerd.io/uncompressed", d) ∷ []) }), s)
