-- ===== src/Tests/Written.antt =====
-- What a commit wrote, read back.
use containerdosstore.Prelude.{Option, some, true, [], ◌∷◌, ◌≡◌, refl, arith, eq_iff}
use containerdosstore.Exec.{ok}
use containerdosstore.Services.Types.{Descriptor, Image, Manifest}
use containerdosstore.World.{World}
use containerdosstore.Commit.{
  commit, with_img_commit_opts, label_of, write_contents_for_image, all_layers, media_type_manifest,
  media_type_config, descriptor_of,
}
use containerdosstore.Commit.ReadBack.{read-write_contents_for_image}
use containerdosstore.Read.{read_manifest, read_image_config}
use containerdosstore.Memory.{memory, config_blob}
use containerdosstore.Memory.Blobs.{memory_blobs}
use containerdosstore.Tests.Data.{store, program_runs, world, image, manifest, descriptor}
use containerdosstore.Tests.Commits.{
  made, layer_of_diff, written_manifest, write_run, commit_opts, committed, commit_image,
}
use containerdosstore.Image.{get}
use containerdosstore.Commit.Got.{get-commit}
use containerdosstore.Memory.ImageStore.{memory_image_store}

abbrev new_image : Image
new_image = record image { name = "new"; target = written_manifest }

abbrev after : World memory
after =
    (write_contents_for_image (some true) "overlayfs" (some manifest) made layer_of_diff world).1

abbrev config_desc : Descriptor
config_desc = descriptor_of memory media_type_config (config_blob made)

abbrev new_manifest : Manifest
new_manifest = record manifest {
  media_type = media_type_manifest;
  config = config_desc;
  layers = descriptor "layer" "top" ∷ layer_of_diff ∷ [];
}

read_manifest_run :
    (read_manifest (some true) new_image after).0 ≡ ok (some (new_manifest, written_manifest))
unfolding program_runs
read_manifest_run = refl

read_config_run : (read_image_config (some true) new_image after).0 ≡ ok (made, config_desc)
unfolding program_runs
read_config_run = refl

read-write_contents_for_image_example :
    ((m : Manifest) × (◌≡◌ {A = Option (Manifest × Descriptor)}
        (some (new_manifest, written_manifest))
        (some (m, written_manifest)))
      × (m.layers ≡ all_layers (some manifest) layer_of_diff)
      × (m.config.digest ≡ "sha256:config-top/new"))
    × (made.diff_ids ≡ made.diff_ids)
    × (made.architecture ≡ made.architecture)
    × (made.os ≡ made.os)
    × (made.author ≡ made.author)
unfolding memory_blobs program_runs
read-write_contents_for_image_example =
    read-write_contents_for_image memory_blobs (some manifest) made layer_of_diff (some true)
      (some true) "overlayfs" world new_image written_manifest "sha256:config-top/new"
      (some (new_manifest, written_manifest)) made config_desc write_run refl refl
      (λ e. ground (arith, eq_iff written_manifest.digest "sha256:config-top/new", e)) refl
      read_manifest_run read_config_run

-- The commit of a test, and the image that the store then has under its name.
committed_get : (get store "new" (commit store "top" commit_opts world).1).0 ≡ ok committed
unfolding get commit program_runs with_img_commit_opts
committed_get = refl

get-commit_example :
    (committed.name ≡ committed.name)
    × (committed.target ≡ committed.target)
    × (label_of committed.labels "a" ≡ label_of committed.labels "a")
get-commit_example =
    get-commit memory_image_store store "top" commit_opts world committed committed "a" commit_image
      committed_get
