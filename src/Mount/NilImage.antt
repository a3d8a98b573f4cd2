-- ===== src/Mount/NilImage.antt =====
-- The errors of Mount where the image is nil, as MountFromScratch passes it.
use containerdosstore.Prelude.{String, Bool, Option, none, List, ◌≢◌}
use containerdosstore.Exec.{
  Error, Outcome, err, after_defer, attempt, Attempt, failed, returned, is_not_found,
}
use containerdosstore.Exec.Cases.{on_error_cases, bind_cases, attempt-ne-err, if_cases}
use containerdosstore.Services.{Services}
use containerdosstore.World.{World, call, log_at}
use containerdosstore.OciStore.{OciStore}
use containerdosstore.Mount.{report_cleanup, mount_snapshot, mount_target}

module _ {S : Services} where
  -- An outcome that is no error.
  abbrev NoError : {A : Type 0} → Outcome A × World S → Type 0
  NoError p = (e : Error) → p.0 ≢ err e

  mount_snapshot-NoError :
      (c : OciStore S) (ctx : Option S.Ctx) (key parent : String) (readonly : Bool)
      (opts : List S.SnapshotOpt) (w : World S)
      → NoError (mount_snapshot c ctx none key readonly parent opts w)
  unfolding mount_snapshot
  mount_snapshot-NoError c ctx key parent readonly opts w =
      on_error_cases NoError _ _ w (λ a _ e q. cc) (λ x _ e q. cc) (λ _ e q. cc) (λ _ e q. cc)

  report_cleanup-ne-err :
      (a : Attempt (Unit {0})) (w : World S) (e : Error) → (report_cleanup a w).0 ≢ err e
  unfolding report_cleanup log_at
  report_cleanup-ne-err (returned x) w e q = cc
  report_cleanup-ne-err (failed y) w e q =
      if_cases (λ p. p.0 ≢ err e) (is_not_found y) _ _ w (λ _ r. cc) (λ _ r. cc) q

  mount_target-NoError :
      (c : OciStore S) (ctx : Option S.Ctx) (target key : String) (mounts : S.Mounts) (w : World S)
      → NoError (mount_target c ctx none target key mounts w)
  unfolding mount_target
  mount_target-NoError c ctx target key mounts w =
      on_error_cases NoError (call (S.mount_all mounts target)) _ w (λ a _ e q. cc)
        (λ x _ e.
          bind_cases (λ p. after_defer {A = Unit {0}} (err x) p.0 ≢ err e)
            (attempt (call (S.remove (S.snapshot_service c.driver) ctx key))) _ _
            (λ removed _.
              bind_cases (λ p. after_defer {A = Unit {0}} (err x) p.0 ≢ err e)
                (report_cleanup removed) _ _ (λ _ _ q. cc)
                (λ y r. absurd (report_cleanup-ne-err removed _ y r)) (λ _ q. cc) (λ _ q. cc))
            (λ y r. absurd (attempt-ne-err _ _ y r)) (λ _ q. cc) (λ _ q. cc))
        (λ _ e q. cc) (λ _ e q. cc)

  -- With the nil image of MountFromScratch neither making the snapshot nor mounting it ever returns an
  -- error, whatever the snapshotter and the mount answer.
  pub nil_image-NoError :
      (c : OciStore S) (ctx : Option S.Ctx) (target key parent : String) (readonly : Bool)
      (opts : List S.SnapshotOpt) (mounts : S.Mounts) (w : World S) (e : Error)
      → ((mount_snapshot c ctx none key readonly parent opts w).0 ≢ err e)
        × ((mount_target c ctx none target key mounts w).0 ≢ err e)
  nil_image-NoError c ctx target key parent readonly opts mounts w e = (
    mount_snapshot-NoError c ctx key parent readonly opts w e,
    mount_target-NoError c ctx target key mounts w e,
  )
