-- ===== src/Snapshots/Labels.antt =====
-- The maps that LabelSnapshot and RemoveSnapshotLabels hand to Update.
use containerdosstore.Prelude.{
  String, Bool, true, false, Option, none, some, List, [], ◌∷◌, ◌==◌, ◌≡◌, refl, arith, eq_iff,
  if◌then◌else◌, Map, lookup, insert, remove, lookup-insert, lookup-remove,
}
use containerdosstore.Exec.{ok}
use containerdosstore.Snapshots.{assign_all, delete_all, non_nil}

-- A map that may be nil, read at a key.
abbrev pub read : String → Option (Map String) → Option String
read k none = none
read k (some m) = lookup k m

-- `range` over a Go map meets each key once.
abbrev pub IsMap : Map String → Type 0
IsMap [] = Unit
IsMap ((k, v) ∷ m) = (lookup k m ≡ none) × IsMap m

abbrev pub or_else : Option String → Option String → Option String
or_else none b = b
or_else (some a) b = some a

abbrev pub contains : String → List String → Bool
contains k [] = false
contains k (j ∷ js) = if j == k then true else contains k js

abbrev pub keys : Map String → List String
keys [] = []
keys ((k, v) ∷ m) = k ∷ keys m

merged : Map String → Map String → Map String
merged m [] = m
merged m ((k, v) ∷ labels) = merged (insert k v m) labels

assign_all-merged :
    (m labels : Map String) → assign_all (some m) labels ≡ ok (some (merged m labels))
unfolding assign_all merged
assign_all-merged m [] = refl
assign_all-merged m ((k, v) ∷ labels) = assign_all-merged (insert k v m) labels

lookup-merged :
    (k : String) (m labels : Map String)
    → IsMap labels
    → lookup k (merged m labels) ≡ or_else (lookup k labels) (lookup k m)
unfolding merged lookup
lookup-merged k m [] u = refl
lookup-merged k m ((j, v) ∷ labels) (fresh, u) =
    ground
      (arith, lookup-merged k (insert j v m) labels u, lookup-insert j k v m, eq_iff j k, fresh)

lookup-delete_all-some :
    (k : String) (m : Map String) (ks : List String)
    → read k (delete_all (some m) ks) ≡ (if contains k ks then none else lookup k m)
unfolding delete_all
lookup-delete_all-some k m [] = refl
lookup-delete_all-some k m (j ∷ ks) =
    ground (arith, lookup-delete_all-some k (remove j m) ks, lookup-remove j k m)

-- The label loop of LabelSnapshot, after its nil check, does not panic. It gives a map in which a
-- label that is set has its new value, and every other label its old one. The new labels are a map:
-- no key stands in them twice.
pub lookup-assign_all :
    (m : Option (Map String)) (labels : Map String)
    → IsMap labels
    → (m' : Map String) × (assign_all (non_nil m) labels ≡ ok (some m'))
      × ((k : String) → lookup k m' ≡ or_else (lookup k labels) (read k m))
unfolding lookup
lookup-assign_all none labels u =
    (merged [] labels, assign_all-merged [] labels, λ k. lookup-merged k [] labels u)
lookup-assign_all (some m) labels u =
    (merged m labels, assign_all-merged m labels, λ k. lookup-merged k m labels u)

-- The loop of RemoveSnapshotLabels leaves a map without the given keys, and with every other label
-- as it was.
pub read-delete_all :
    (k : String) (m : Option (Map String)) (ks : List String)
    → read k (delete_all (non_nil m) ks) ≡ (if contains k ks then none else read k m)
unfolding lookup
read-delete_all k none ks = lookup-delete_all-some k [] ks
read-delete_all k (some m) ks = lookup-delete_all-some k m ks
