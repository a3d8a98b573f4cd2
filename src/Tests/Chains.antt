-- ===== src/Tests/Chains.antt =====
-- Removing a chain of snapshots, and the labels of a snapshot.
use containerdosstore.Prelude.{
  String, none, some, [], ◌∷◌, ◌≡◌, ◌≢◌, ◌≤◌, ◌+◌, refl, arith, negsuc, pos, length, false, Map,
  lookup, ap, sym, ◌∙◌, ◌⊎◌, inl, inr,
}
use containerdosstore.Services.Types.{Info}
use containerdosstore.Exec.{ok, exhausted}
use containerdosstore.World.{World}
use containerdosstore.Memory.{memory}
use containerdosstore.Memory.Laws.{memory_snapshots}
use containerdosstore.Snapshots.{assign_all, non_nil}
use containerdosstore.Snapshots.Table.{find}
use containerdosstore.Snapshots.Chain.{remove_snapshots_chain}
use containerdosstore.Snapshots.Prune.{IsUnique, IsClosed, Ancestor, self, up}
use containerdosstore.Snapshots.Description.{prune_all}
use containerdosstore.Snapshots.Removal.{
  remove_snapshots_chain-ends, table-remove_snapshots_chain, find-remove_snapshots_chain,
  length-remove_snapshots_chain,
}
use containerdosstore.Snapshots.Labels.{lookup-assign_all, or_else, read}
use containerdosstore.Tests.Data.{program_runs, world, layers, snapshot}

after : World memory
unfolding remove_snapshots_chain program_runs
after = (remove_snapshots_chain 9 (some false) "overlayfs" "top" (negsuc 0) world).1

-- base stays for the sake of other.
chain_run : after.services.table ≡ snapshot "base" "" ∷ snapshot "other" "base" ∷ []
unfolding after
chain_run = refl

chain_short :
    (remove_snapshots_chain 9 (some false) "overlayfs" "top" (pos 0) world).1.services.table
    ≡ snapshot "base" "" ∷ snapshot "mid" "base" ∷ snapshot "other" "base" ∷ []
unfolding remove_snapshots_chain program_runs
chain_short = refl

-- A snapshot of the table has one of these parents.
parent_of :
    (k : String) (i : Info)
    → find k layers ≡ some i
    → (i.parent ≡ "") ⊎ (i.parent ≡ "base") ⊎ (i.parent ≡ "mid")
unfolding find
parent_of k i e = ground arith

found_at : (k j : String) → k ≡ j → find j layers ≢ none → find k layers ≢ none
found_at k j p h e = h (ap (λ x. find x layers) (sym p) ∙ e)

layers-IsClosed : IsClosed layers
unfolding find
layers-IsClosed k i e p = elim (parent_of k i e) [
  | inl q ↦ absurd (p q)
  | inr (inl q) ↦ found_at i.parent "base" q (λ r. cc)
  | inr (inr q) ↦ found_at i.parent "mid" q (λ r. cc)
]

remove_snapshots_chain-ends_example :
    (remove_snapshots_chain 9 (some false) "overlayfs" "top" (negsuc 0) world).0 ≢ exhausted
unfolding memory_snapshots
remove_snapshots_chain-ends_example =
    remove_snapshots_chain-ends (memory_snapshots "overlayfs") (some false) 9 "top" (negsuc 0) world
      (omega arith)

table-remove_snapshots_chain_example :
    (remove_snapshots_chain 9 (some false) "overlayfs" "top" (negsuc 0) world).1.services.table
    ≡ prune_all layers "top" (negsuc 0)
unfolding remove_snapshots_chain program_runs memory_snapshots
table-remove_snapshots_chain_example =
    table-remove_snapshots_chain (memory_snapshots "overlayfs") (some false) 9 "top" (negsuc 0)
      world (omega arith) refl

parent-ne_other : (k : String) (i : Info) → find k layers ≡ some i → i.parent ≢ "other"
parent-ne_other k i e q = elim (parent_of k i e) [
  | inl p ↦ cc
  | inr (inl p) ↦ cc
  | inr (inr p) ↦ cc
]

-- Nothing stands on other.
above_other : (k j : String) → Ancestor layers k j → j ≡ "other" → k ≡ "other"
above_other k j self q = q
above_other k j (up i e a) q = absurd (parent-ne_other k i e (above_other i.parent j a q))

top-ne_other : ◌≢◌ {A = String} "top" "other"
top-ne_other q = cc

find-remove_snapshots_chain_example :
    find "other"
      (remove_snapshots_chain 9 (some false) "overlayfs" "top" (negsuc 0) world).1.services.table
    ≡ find "other" layers
unfolding memory_snapshots
find-remove_snapshots_chain_example =
    find-remove_snapshots_chain (memory_snapshots "overlayfs") (some false) 9 "top" (negsuc 0) world
      "other" (λ a. top-ne_other (above_other "top" "other" a refl))

pub layers-IsUnique : IsUnique layers
unfolding find
layers-IsUnique = (refl, (refl, (refl, (refl, tt))))

length-remove_snapshots_chain_example :
    length layers
    ≤ length
        (remove_snapshots_chain 9 (some false) "overlayfs" "top" (pos 1) world).1.services.table
      + 1
      + 1
unfolding memory_snapshots
length-remove_snapshots_chain_example =
    length-remove_snapshots_chain (memory_snapshots "overlayfs") (some false) 9 "top" 1 world
      layers-IsUnique

abbrev old_labels : Map String
old_labels = ("a", "1") ∷ ("b", "2") ∷ []

abbrev new_labels : Map String
new_labels = ("b", "3") ∷ ("c", "4") ∷ []

lookup-assign_all_example :
    (m : Map String) × (assign_all (non_nil (some old_labels)) new_labels ≡ ok (some m))
    × ((k : String) → lookup k m ≡ or_else (lookup k new_labels) (read k (some old_labels)))
unfolding lookup
lookup-assign_all_example = lookup-assign_all (some old_labels) new_labels (refl, (refl, tt))
