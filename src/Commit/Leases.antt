-- ===== src/Commit/Leases.antt =====
-- The lease of Commit.
use containerdosstore.Prelude.{String, Option, none, List, ◌++◌, ◌≡◌, ◌∙◌, refl}
use containerdosstore.Exec.{
  Outcome, Attempt, failed, returned, attempt, lift, apply_opts, defer, ◌>>=◌,
}
use containerdosstore.Exec.Cases.{try_cases, bind_cases, if_cases, defer_world}
use containerdosstore.Services.{Services}
use containerdosstore.Services.Types.{Image}
use containerdosstore.Services.Frame.{frame_rules}
use containerdosstore.Services.Leases.{LeaseLaws}
use containerdosstore.World.{World, call}
use containerdosstore.OciStore.{OciStore, guarded, is_initiated, check_lease, finish}
use containerdosstore.OciStore.Leasing.{KeepsLeases, KeepsLeases-held, take-Acquired, finish-held}
use containerdosstore.Unpack.Leases.{unpack_func-KeepsLeases}
use containerdosstore.Commit.Views.{
  Frame-ReadFrame, base_image-Shows, create_diff-Shows, wrapping-Shows, apply_diff_layer-Shows,
  write_contents_for_image-Shows,
}
use containerdosstore.Commit.{
  CommitImgOpts, CommitImgOpt, create_missing, store_image, commit_leased, commit,
  commit_lease_opts, wrapping, no_commit_img_opts,
}

module _ {S : Services} (L : LeaseLaws S) where
  create_missing-KeepsLeases :
      (ctx : Option S.Ctx) (img : Image) (a : Attempt Image)
      → KeepsLeases L (create_missing {S = S} ctx img a)
  unfolding create_missing
  create_missing-KeepsLeases ctx img (returned x) l = search frame_rules
  create_missing-KeepsLeases ctx img (failed e) l =
      search (frame_rules, L.frame.create_image) depth 9

  store_image-KeepsLeases :
      (ctx : Option S.Ctx) (img : Image) → KeepsLeases L (store_image {S = S} ctx img)
  unfolding store_image
  store_image-KeepsLeases ctx img l =
      search (frame_rules, L.frame.update_image, create_missing-KeepsLeases) depth 9

  commit_leased-KeepsLeases :
      (c : OciStore S) (ctx : Option S.Ctx) (key : String) (opt : CommitImgOpts S)
      → KeepsLeases L (commit_leased c ctx key opt)
  unfolding commit_leased
  commit_leased-KeepsLeases c ctx key opt l =
      let R = Frame-ReadFrame L.frame in
      search
        (
          frame_rules,
          L.frame.stat,
          L.frame.now,
          base_image-Shows R l,
          create_diff-Shows R l,
          wrapping-Shows R l,
          apply_diff_layer-Shows R l (S.snapshot_service c.driver)
              (L.commit (S.snapshot_service c.driver)),
          write_contents_for_image-Shows R l,
          store_image-KeepsLeases,
          unpack_func-KeepsLeases L,
        )
        depth 40

  -- The rest of Commit, from the lease on.
  commit_taken :
      (c : OciStore S) (key warning text : String) (opt : CommitImgOpts S) (w : World S)
      → L.held
          ((do
            made ← attempt (call (S.with_lease c.ctx commit_lease_opts) >>= check_lease)
            l ← wrapping text made
            defer (λ _. none) (commit_leased c l.ctx key opt) (finish l warning))
            w).1.services
        ≡ L.held w.services
  commit_taken c key warning text opt w =
      let h = L.held w.services in
      let Q = λ (p : Outcome Image × World S). L.held p.1.services ≡ h in
      let m = call (S.with_lease c.ctx commit_lease_opts) >>= check_lease in
      let taken = take-Acquired L c commit_lease_opts w in
      let w1 = (m w).1 in
      try_cases Q m _ w
        (λ l e.
          bind_cases Q (wrapping text (returned l)) _ w1
            (λ k q.
              let (d, done, held) = taken.0 k (e ∙ q) in
              let body = commit_leased c k.ctx key opt in
              let after = (body w1).1 in
              let kept : L.held after.services ≡ L.ids_of d ++ h =
                KeepsLeases-held L body (commit_leased-KeepsLeases c k.ctx key opt) w1 ∙ held in
              defer_world (λ v. L.held v.services ≡ h) (λ _. none) body (finish k warning) w1
                (λ x. finish-held L k d warning x after h done kept))
            (λ _ q. cc) (λ q. cc) (λ q. cc))
        (λ x e.
          bind_cases Q (wrapping text (failed x)) _ w1 (λ k q. cc) (λ y q. taken.1 (λ l r. cc))
            (λ q. cc) (λ q. cc))
        (λ e. taken.1 (λ l q. cc)) (λ e. taken.1 (λ l q. cc))

  -- If no call of `done` fails, Commit ends with the leases that it began with, whether it returns,
  -- fails or panics.
  pub commit-held :
      (c : OciStore S) (key : String) (opts : List (CommitImgOpt S)) (w : World S)
      → L.held (commit c key opts w).1.services ≡ L.held w.services
  unfolding commit guarded
  commit-held c key opts w =
      let Q = λ (p : Outcome Image × World S). L.held p.1.services ≡ L.held w.services in
      if_cases Q (is_initiated c) _ _ w
        (λ _.
          bind_cases Q (lift (apply_opts opts no_commit_img_opts)) _ w
            (λ opt _. commit_taken c key _ _ opt w) (λ _ _. refl) (λ _. refl) (λ _. refl))
        (λ _. refl)

  -- The same as a rule.
  pub commit-KeepsLeases :
      (c : OciStore S) (key : String) (opts : List (CommitImgOpt S))
      → KeepsLeases L (commit c key opts)
  commit-KeepsLeases c key opts l = record {
    at = λ w h. record { shown = commit-held c key opts w ∙ h.shown };
  }
