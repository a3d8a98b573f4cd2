-- ===== src/Snapshots/Description.antt =====
-- What removeSnapshotsChain is to leave of the table, told from the tree of snapshots and a number, and
-- that the rounds of `prune` come to it.
use containerdosstore.Prelude.{
  ℕ, zero, suc, ◌≤◌, ◌<◌, ℤ, pos, negsuc, String, false, none, some, [], ◌∷◌, ◌==◌, ◌≡◌, inl, inr,
  arith, length, Option-cases, if◌then◌else◌,
}
use containerdosstore.Services.Types.{Info}
use containerdosstore.Snapshots.Table.{Table, find, has_child, erase}
use containerdosstore.Snapshots.Prune.{prune, length-erase_found}

-- What is to be left, told without the walk's depth: the snapshot k and at most n of the snapshots above
-- it go, one after the other, up to the first that is missing or has children.
unfoldable pub take_off : ℕ → Table → String → Table
take_off zero t k = elim (find k t) [ none ↦ t | some i ↦ if has_child k t then t else erase k t ]
take_off (suc n) t k = elim (find k t) [
  | none ↦ t
  | some i ↦
      let up = take_off n (erase k t) i.parent in
      if has_child k t then t else if i.parent == "" then erase k t else up
]

-- A depth that is not negative is the number of snapshots above; a negative one is no limit, and
-- there are fewer above than there are in the table.
unfoldable pub prune_all : Table → String → ℤ → Table
unfolding take_off
prune_all t k (pos n) = take_off n t k
prune_all t k (negsuc _) = take_off (length t) t k

pub prune_all-missing : (t : Table) (k : String) (d : ℤ) → find k t ≡ none → prune_all t k d ≡ t
unfolding prune_all take_off
prune_all-missing t k (pos zero) e = ground (arith, e)
prune_all-missing t k (pos (suc n)) e = ground (arith, e)
prune_all-missing [] k (negsuc n) e = ground (arith, e)
prune_all-missing (i ∷ t) k (negsuc n) e = ground (arith, e)

-- The key alone.
pub prune_all-one :
    (t : Table) (k : String) (i : Info)
    → find k t ≡ some i
    → has_child k t ≡ false
    → prune_all t k (pos 0) ≡ erase k t
unfolding prune_all take_off
prune_all-one t k i e h = ground (arith, e, h)

-- The rounds of the walk, where they are enough for the table, leave that.
prune-take_off :
    (m : ℕ) (t : Table) (k : String) (n : ℕ) → length t < m → prune m t k (pos n) ≡ take_off n t k
unfolding prune take_off
prune-take_off zero t k n h = absurd (omega arith)
prune-take_off (suc m) t k zero h = elim (Option-cases (find k t)) [
  | inl e ↦ ground (arith, e)
  | inr (i, e) ↦ ground (arith, e)
]
prune-take_off (suc m) t k (suc n) h = elim (Option-cases (find k t)) [
  | inl e ↦ ground (arith, e)
  | inr (i, e) ↦
      ground (arith, e, length-erase_found k t i e, prune-take_off m (erase k t) i.parent n)
]

prune-unlimited :
    (m : ℕ) (t : Table) (k : String) (n b : ℕ)
    → length t < m
    → length t ≤ b
    → prune m t k (negsuc n) ≡ take_off b t k
unfolding prune take_off
prune-unlimited zero t k n b h l = absurd (omega arith)
prune-unlimited (suc m) t k n zero h l = elim (Option-cases (find k t)) [
  | inl e ↦ ground (arith, e)
  | inr (i, e) ↦ absurd (omega (arith, length-erase_found k t i e))
]
prune-unlimited (suc m) t k n (suc b) h l = elim (Option-cases (find k t)) [
  | inl e ↦ ground (arith, e)
  | inr (i, e) ↦
      ground (arith, e, length-erase_found k t i e, prune-unlimited m (erase k t) i.parent n b)
]

pub prune-prune_all :
    (m : ℕ) (t : Table) (k : String) (d : ℤ) → length t < m → prune m t k d ≡ prune_all t k d
unfolding prune_all
prune-prune_all m t k (pos n) h = prune-take_off m t k n h
prune-prune_all m t k (negsuc n) h = prune-unlimited m t k n (length t) h (omega arith)
