-- ===== src/Tests/Commits.antt =====
-- A commit of a snapshot, and what it adds.
use containerdosstore.Exec.{ok, apply_opts}
use containerdosstore.Prelude.{Map, lookup, String, some, List, [], ◌∷◌, ◌≡◌, refl, true}
use containerdosstore.Services.Types.{Image, Descriptor, ImageConfig}
use containerdosstore.Memory.{manifest_blob, config_blob, memory}
use containerdosstore.Memory.Content.{memory_content}
use containerdosstore.Commit.{
  write_contents_for_image, descriptor_of, media_type_manifest, media_type_config, all_layers,
  commit, CommitImgOpt, CommitImgOpts, no_commit_img_opts, media_type_layer_gzip,
  with_img_commit_opts,
}
use containerdosstore.Commit.References.{content_label}
use containerdosstore.Commit.Stored.{labels-write_contents_for_image}
use containerdosstore.Tests.Data.{
  manifest, descriptor, program_runs, snapshot, store, world, services,
}
use containerdosstore.Commit.Leases.{commit-held}
use containerdosstore.Memory.Laws.{memory_leases, memory_snapshots}
use containerdosstore.Memory.Committing.{memory_commits}
use containerdosstore.Commit.Snapshot.{Committed, commit-Committed}
use containerdosstore.Commit.Config.{generate_commit_image_config, no_img_opts, empty_image_config}
use containerdosstore.Commit.Images.{Stores, commit-Stores}
use containerdosstore.Memory.ImageStore.{memory_image_store}

abbrev base : ImageConfig
base = record empty_image_config { author = "anna"; diff_ids = "top" ∷ []; os = "linux" }

abbrev pub made : ImageConfig
made = generate_commit_image_config "arm64" "plan9" 7 base "new" no_img_opts

abbrev pub commit_opts : List (CommitImgOpt memory)
commit_opts = with_img_commit_opts (record no_img_opts { ref = "new" }) ∷ []

-- The snapshot that is committed goes, and one of the name of the chain takes its place.
commit_run :
    (commit store "top" commit_opts world).1.services.table
    ≡ snapshot "base" ""
      ∷ snapshot "mid" "base"
      ∷ snapshot "other" "base"
      ∷ record (snapshot "sha256:diff-top" "mid") {
        labels = some (("containerd.io/snapshot.ref", "sha256:diff-top") ∷ []);
      }
      ∷ []
unfolding commit program_runs with_img_commit_opts
commit_run = refl

commit-held_example : (commit store "top" commit_opts world).1.services.held ≡ "lease-0" ∷ []
unfolding memory_leases
commit-held_example = commit-held memory_leases store "top" commit_opts world

abbrev pub layer_of_diff : Descriptor
layer_of_diff = descriptor "layer" "new"

abbrev pub written_manifest : Descriptor
written_manifest = descriptor_of memory media_type_manifest (
    manifest_blob (record manifest {
      media_type = media_type_manifest;
      config = descriptor_of memory media_type_config (config_blob made);
      layers = descriptor "layer" "top" ∷ layer_of_diff ∷ [];
    }))

pub write_run :
    (write_contents_for_image (some true) "overlayfs" (some manifest) made layer_of_diff world).0
    ≡ ok (written_manifest, "sha256:config-top/new")
unfolding program_runs
write_run = refl

-- The new layer is at position 1.
labels-write_contents_for_image_example :
    (m : Map String) × (memory_content.labels
        (write_contents_for_image
          (some true)
          "overlayfs"
          (some manifest)
          made
          layer_of_diff
          world).1.services
        written_manifest.digest
      ≡ some m)
    × (lookup "containerd.io/gc.ref.content.0" m ≡ some "sha256:config-top/new")
    × (lookup (content_label 2) m ≡ some "new")
unfolding program_runs memory_content all_layers
labels-write_contents_for_image_example =
    labels-write_contents_for_image memory_content (some true) "overlayfs" (some manifest) made
      layer_of_diff world written_manifest "sha256:config-top/new" 1 layer_of_diff write_run refl
      refl

abbrev pub new_opts : CommitImgOpts memory
new_opts = record no_commit_img_opts { i_opts = record no_img_opts { ref = "new" } }

abbrev pub first_config : ImageConfig
first_config =
    generate_commit_image_config "amd64" "linux" 0 empty_image_config "sha256:diff-top" no_img_opts

-- The image that the run returns.
abbrev pub committed : Image
committed = record {
  name = "new";
  target = descriptor_of memory media_type_manifest (
      manifest_blob (record manifest {
        media_type = media_type_manifest;
        config = descriptor_of memory media_type_config (config_blob first_config);
        layers =
            record layer_of_diff {
              media_type = media_type_layer_gzip;
              digest = "sha256:diff-top";
              size = 7;
            }
            ∷ [];
      }));
  created_at = 0;
  labels = some [];
}

pub commit_image : (commit store "top" commit_opts world).0 ≡ ok committed
unfolding commit program_runs with_img_commit_opts
commit_image = refl

commit-Stores_example :
    (committed.name ≡ "new")
    × Stores committed services.images (commit store "top" commit_opts world).1.services.images
unfolding with_img_commit_opts program_runs memory_image_store
commit-Stores_example =
    commit-Stores memory_image_store store "top" commit_opts new_opts world committed refl
      commit_image

commit-Committed_example :
    Committed store
      (memory_snapshots "overlayfs")
      (memory_commits "overlayfs")
      "top"
      []
      world
      committed
      (commit store "top" commit_opts world).1.services.table
unfolding memory_snapshots with_img_commit_opts apply_opts
commit-Committed_example =
    commit-Committed store (memory_snapshots "overlayfs") (memory_commits "overlayfs") "top"
      commit_opts new_opts world committed refl commit_image
