-- ===== src/Tests/Mounts.antt =====
-- Mount at concrete data, and the labels of a snapshot.
use containerdosstore.Prelude.{
  String, some, [], ◌∷◌, ◌≡◌, ◌⊎◌, refl, lookup, arith, eq_iff, inl, inr, ap, sym, Map, true, none,
  pos, false,
}
use containerdosstore.Exec.{failure, other, ok, Error}
use containerdosstore.Services.Types.{Info}
use containerdosstore.Memory.Laws.{memory_snapshots, memory_leases}
use containerdosstore.Memory.Images.{memory_mounts}
use containerdosstore.Snapshots.Table.{find}
use containerdosstore.Mount.{mount, mount_key, umount, no_mount_opts}
use containerdosstore.Memory.{memory}
use containerdosstore.FilePath.{trim, dashed}
use containerdosstore.Mount.Key.{unique_part, target_part, encode_to_string}
use containerdosstore.Mount.Slashes.{NoSlash, mount_key-NoSlash}
use containerdosstore.Snapshots.Labels.{read, contains, keys}
use containerdosstore.World.{World}
use containerdosstore.Memory.Deletion.{memory_deletion}
use containerdosstore.Services.Deletion.{without_id}
use containerdosstore.Memory.Named.{memory_named}
use containerdosstore.Mount.RoundTrip.{umount-mount}
use containerdosstore.Mount.Adding.{Based, mount-Added}
use containerdosstore.Mount.Laws.{Added}
use containerdosstore.Mount.Released.{held-umount}
use containerdosstore.Mount.Found.{mount-Found}
use containerdosstore.Tests.Data.{program_runs, world, store, image, services}

mount_run : (mount store (some image) "/mnt" "active" false [] world).0 ≡ ok "active"
unfolding mount program_runs
mount_run = refl

mount-Found_example :
    (◌≡◌ {A = String} "active" "" ⊎ ◌≡◌ {A = String} "active" "active")
    × ((i : Info) × (find "active"
            (mount store (some image) "/mnt" "active" false [] world).1.services.table
          ≡ some i))
unfolding memory_snapshots
mount-Found_example =
    mount-Found store (memory_snapshots "overlayfs") (memory_mounts "overlayfs") (some image) "/mnt"
      "active" false [] world "active" mount_run

abbrev mount_error : Error
mount_error = failure other "no such mount point"

-- The snapshot top was there before.
made_up_key : (mount_key {S = memory} "" "/run/rootfs/" world).0 ≡ ok "42-AQID-run-rootfs"
unfolding mount_key program_runs unique_part target_part encode_to_string trim dashed
made_up_key = refl

mount_key-NoSlash_example : NoSlash "42-AQID-run-rootfs"
mount_key-NoSlash_example = mount_key-NoSlash "/run/rootfs/" world "42-AQID-run-rootfs" made_up_key

abbrev old_labels : Map String
old_labels = ("a", "1") ∷ ("b", "2") ∷ []

abbrev new_labels : Map String
new_labels = ("c", "3") ∷ ("d", "4") ∷ []

label_of_new :
    (j : String)
    → contains j (keys new_labels) ≡ true
    → ◌≡◌ {A = String} "c" j ⊎ ◌≡◌ {A = String} "d" j
label_of_new j e = ground (arith, eq_iff "c" j, eq_iff "d" j)

new_labels-fresh :
    (j : String) → contains j (keys new_labels) ≡ true → read j (some old_labels) ≡ none
unfolding lookup
new_labels-fresh j e = elim (label_of_new j e) [
  | inl q ↦ ap (λ x. read x (some old_labels)) (sym q)
  | inr q ↦ ap (λ x. read x (some old_labels)) (sym q)
]

abbrev mounted : World memory
mounted = (mount store (some image) "/mnt" "active" false [] world).1

-- The mount and its end: the leases are those of before.
mount_and_umount_run :
    (umount 9 store "/mnt" "active" (pos 1) mounted).1.services.held ≡ services.held
unfolding mount umount program_runs
mount_and_umount_run = refl

held-umount_example :
    (umount 9 store "/mnt" "active" (pos 1) mounted).1.services.held
    ≡ without_id "active" mounted.services.held
unfolding mount umount program_runs memory_leases
held-umount_example =
    held-umount store memory_leases memory_deletion 9 "/mnt" "active" (pos 1) mounted refl refl refl

-- The mount of a new key and its end; the snapshot mid is there as before.
umount_ok : (umount 9 store "/mnt" "active" (pos 1) mounted).0 ≡ ok tt
unfolding mount umount program_runs
umount_ok = refl

umount-mount_example :
    (find "mid" (umount 9 store "/mnt" "active" (pos 1) mounted).1.services.table
      ≡ find "mid" services.table)
    × ((umount 9 store "/mnt" "active" (pos 1) mounted).1.services.held ≡ services.held)
unfolding mount umount program_runs memory_snapshots memory_leases memory_named
umount-mount_example =
    umount-mount store (memory_snapshots "overlayfs") (memory_mounts "overlayfs") memory_leases
      memory_deletion memory_named (some image) "/mnt" "active" false [] no_mount_opts world
      "active" 9 "mid" refl refl refl refl refl refl mount_run (omega arith) umount_ok

mount-Added_example :
    (p : String) × Based store
      (memory_snapshots "overlayfs")
      (memory_mounts "overlayfs")
      (some image)
      p
    × Added "active" p services.table mounted.services.table
unfolding mount program_runs memory_snapshots
mount-Added_example =
    mount-Added store (memory_snapshots "overlayfs") (memory_mounts "overlayfs") (some image) "/mnt"
      "active" false [] no_mount_opts world "active" refl refl refl mount_run
