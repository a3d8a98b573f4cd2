-- ===== src/Tests/Reads.antt =====
-- Searching an index, and a mount that fails on a snapshot that was there before.
use containerdosstore.Prelude.{true, false, some, [], ◌∷◌, ◌≡◌, refl}
use containerdosstore.Exec.{ok}
use containerdosstore.Services.Types.{Descriptor}
use containerdosstore.Memory.{memory}
use containerdosstore.Read.{find_manifest, same_descriptor}
use containerdosstore.Read.Search.{Matches, find_manifest-Matches}
use containerdosstore.Mount.{mount}
use containerdosstore.Tests.Data.{program_runs, world, store, image, manifest, descriptor, snapshot}

abbrev wanted : Descriptor
wanted = descriptor "manifest" "mfst"

-- The first manifest cannot be read, and is passed over.
search_run :
    (find_manifest {S = memory}
      (some true)
      wanted
      (descriptor "manifest" "gone" ∷ wanted ∷ [])
      world).0
    ≡ ok (some (manifest, wanted))
unfolding find_manifest same_descriptor program_runs
search_run = refl

find_manifest-Matches_example :
    Matches memory (some true) wanted (descriptor "manifest" "gone" ∷ wanted ∷ []) manifest wanted
find_manifest-Matches_example =
    find_manifest-Matches {S = memory} (some true) wanted
      (descriptor "manifest" "gone" ∷ wanted ∷ []) world manifest wanted search_run

-- The snapshot "top" was there before the mount, and is gone after it has failed.
lost_snapshot :
    (mount store (some image) "/bad" "top" false [] world).1.services.table
    ≡ snapshot "base" "" ∷ snapshot "mid" "base" ∷ snapshot "other" "base" ∷ []
unfolding mount program_runs
lost_snapshot = refl
