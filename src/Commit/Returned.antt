-- ===== src/Commit/Returned.antt =====
-- Where an image that Commit returns comes from: the steps that ran before the return, and the world
-- that each of them left.
use containerdosstore.Prelude.{String, Option, none, List, ◌≡◌, ◌∙◌, refl, sym, subst}
use containerdosstore.Exec.{Exec, ok, lift, apply_opts, ◌>>=◌}
use containerdosstore.Exec.Inversion.{bind-returns, defer-ok}
use containerdosstore.Services.{Services, Leased}
use containerdosstore.Services.Types.{Digest, Descriptor, Image, Info, ImageConfig, Manifest}
use containerdosstore.World.{World, call}
use containerdosstore.OciStore.{OciStore, label_snapshot_img_ref, check_lease, finish}
use containerdosstore.OciStore.Steady.{guarded-ok}
use containerdosstore.Commit.{
  CommitImgOpts, CommitImgOpt, no_commit_img_opts, label_of, base_image, create_diff, commit_leased,
  commit, commit_lease_opts,
}
use containerdosstore.Commit.Steps.{wrapped-returns, Applied, applying, applying-Applied}

module _ {S : Services} (c : OciStore S) where
  module _ (ctx : Option S.Ctx) (opt : CommitImgOpts S) where
    pub record Made (key : String) (img : Image) (w left : World S) : Type 0 where
      pub info : Info
      pub base : ImageConfig × Option Manifest
      pub layer : Descriptor × Digest
      pub statted : World S
      pub statted-is : statted ≡ (call (S.stat (S.snapshot_service c.driver) ctx key) w).1
      pub stat-is : (call (S.stat (S.snapshot_service c.driver) ctx key) w).0 ≡ ok info
      pub based : World S
      pub based-is :
          based ≡ (base_image {S = S} ctx (label_of info.labels label_snapshot_img_ref) statted).1
      pub base-is :
          (base_image {S = S} ctx (label_of info.labels label_snapshot_img_ref) statted).0 ≡ ok base
      pub diffed : World S
      pub diffed-is :
          diffed ≡ (create_diff ctx key (S.snapshot_service c.driver) opt.d_opts based).1
      pub layer-is :
          (create_diff ctx key (S.snapshot_service c.driver) opt.d_opts based).0 ≡ ok layer
      pub applied : Applied c ctx opt key base layer img diffed left

    pub commit_leased-Made :
        (key : String) (w : World S) (img : Image)
        → (commit_leased c ctx key opt w).0 ≡ ok img
        → Made key img w (commit_leased c ctx key opt w).1
    unfolding commit_leased
    commit_leased-Made key w img e =
        let sn = S.snapshot_service c.driver in
        let (info, e1, l1, s1) = bind-returns (call (S.stat sn ctx key)) _ w img e in
        let w1 = (call (S.stat sn ctx key) w).1 in
        let basing = base_image {S = S} ctx (label_of info.labels label_snapshot_img_ref) in
        let (base, e2, l2, s2) = bind-returns basing _ w1 img l1 in
        let w2 = (basing w1).1 in
        let diffing = create_diff ctx key sn opt.d_opts in
        let (layer, e3, l3, s3) =
          wrapped-returns _ diffing (λ l. applying c ctx opt key base l) w2 img l2 in
        let w3 = (diffing w2).1 in
        record {
          info = info;
          base = base;
          layer = layer;
          statted = w1;
          statted-is = refl;
          stat-is = e1;
          based = w2;
          based-is = refl;
          base-is = e2;
          diffed = w3;
          diffed-is = refl;
          layer-is = e3;
          applied =
              subst (Applied c ctx opt key base layer img w3) (sym (s1 ∙ s2 ∙ s3))
                (applying-Applied c ctx opt key base layer w3 img l3);
        }

  abbrev pub taking : Exec (World S) (Leased S.Ctx S.Done)
  taking = call (S.with_lease c.ctx commit_lease_opts) >>= check_lease

  module _ (key : String) (opts : List (CommitImgOpt S)) (w : World S) (img : Image) where
    -- The steps of commit on the way to the return of the image.
    pub record Returned : Type 0 where
      pub opt : CommitImgOpts S
      pub options : apply_opts opts no_commit_img_opts ≡ ok opt
      pub lease : Leased S.Ctx S.Done
      pub lease-is : (taking w).0 ≡ ok lease
      pub leased : World S
      pub leased-is : leased ≡ (taking w).1
      pub ended : World S
      pub made : Made lease.ctx opt key img leased ended
      pub left :
          (commit c key opts w).1
          ≡ (finish lease "could not remove lease on update image operation" none ended).1

    pub commit-Returned : (commit c key opts w).0 ≡ ok img → Returned
    unfolding commit
    commit-Returned e =
        let (_, run, same) = guarded-ok c _ w img e in
        let options = lift {W = World S} (apply_opts opts no_commit_img_opts) in
        let (opt, e1, l1, s1) = bind-returns options _ w img run in
        let (l, e2, l2, s2) = wrapped-returns _ taking _ w img l1 in
        let w1 = (taking w).1 in
        let body = commit_leased c l.ctx key opt in
        let (ran, ended) =
          defer-ok (λ _. none) body (finish l "could not remove lease on update image operation") w1
            img l2 in
        record {
          opt = opt;
          options = e1;
          lease = l;
          lease-is = e2;
          leased = w1;
          leased-is = refl;
          ended = (body w1).1;
          made = commit_leased-Made l.ctx opt key w1 img ran;
          left = same ∙ s1 ∙ s2 ∙ ended;
        }
