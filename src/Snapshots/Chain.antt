-- ===== src/Snapshots/Chain.antt =====
-- removeSnapshotsChain of pkg/ocistore/snapshots.go: removes a snapshot, then its parent, and so on
-- up, at most `depth` parents where `depth` is not negative.
use containerdosstore.Prelude.{
  ℕ, zero, suc, ◌+◌, ℤ, pos, negsuc, String, Bool, true, false, Option, [], ◌∷◌, ◌||◌, decimal,
  ◌==◌, if◌then◌else◌,
}
use containerdosstore.Exec.{
  wrapped, exhausted, Exec, Attempt, failed, returned, attempt, pure, throw, lift, is_not_found,
  is_failed_precondition, ◌>>=◌, ◌>>◌,
}
use containerdosstore.Services.{Services}
use containerdosstore.Services.Types.{Info}
use containerdosstore.World.{World, call, debugf, warnf}

abbrev pub is_zero : ℤ → Bool
is_zero (pos zero) = true
is_zero _ = false

-- `else if depth > 0 { depth-- }`
abbrev pub lower : ℤ → ℤ
lower (pos zero) = pos zero
lower (pos (suc n)) = pos n
lower (negsuc n) = negsuc n

module _ {S : Services} where
  -- What the walk does after Stat and Remove; `up` is the recursive call on the parent.
  after_remove :
      Info → ℤ → Exec (World S) (Unit {0}) → Attempt (Unit {0}) → Exec (World S) (Unit {0})
  after_remove info depth up (returned _) =
      if info.parent == "" || is_zero depth then pure tt else up
  after_remove info depth up (failed e) =
      if is_failed_precondition e then pure tt else throw (wrapped "error removing snapshot" e)

  after_stat :
      String → (Info → Exec (World S) (Unit {0})) → Attempt Info → Exec (World S) (Unit {0})
  after_stat key remove_it (returned info) = remove_it info
  after_stat key remove_it (failed e) =
      if is_not_found e
      then warnf "stopped walking chain, snapshot '%s' not found" (key ∷ [])
      else throw e

  -- `walkFunc`. The captured variable `depth` is an argument; the fuel bounds the recursion.
  unfoldable pub walk_chain :
      ℕ → S.Snapshotter → Option S.Ctx → String → ℕ → ℤ → Exec (World S) (Unit {0})
  unfolding after_remove after_stat
  walk_chain zero sn ctx key step depth = lift exhausted
  walk_chain (suc fuel) sn ctx key step depth = do
    debugf "removing snapshots chain step %d" (decimal step ∷ [])
    found ← attempt (call (S.stat sn ctx key))
    after_stat key
        (λ info. do
          removed ← attempt (call (S.remove sn ctx key))
          after_remove info depth (walk_chain fuel sn ctx info.parent (step + 1) (lower depth))
              removed)
        found

  unfoldable pub remove_snapshots_chain :
      ℕ → Option S.Ctx → S.Snapshotter → String → ℤ → Exec (World S) (Unit {0})
  unfolding walk_chain
  remove_snapshots_chain fuel ctx sn key depth = walk_chain fuel sn ctx key 0 depth
