-- ===== src/Commit/Images.antt =====
-- The image record that Commit stores, and what is relied on there: Update and Create of the image
-- store put the record under its name, and leave the other images as they are; where they fail they
-- leave all of them. Update keeps the time at which the image was created.
use containerdosstore.Prelude.{
  String, ◌==◌, Option, none, some, List, [], if◌then◌else◌, ◌≡◌, ◌∙◌, sym, ap, subst,
}
use containerdosstore.Exec.{Outcome, Error, failed, ok, err, throw, apply_opts, is_not_found, ◌>>=◌}
use containerdosstore.Exec.Cases.{try_cases, if_cases}
use containerdosstore.Exec.Inversion.{ok_injective}
use containerdosstore.Services.{Services}
use containerdosstore.Services.Types.{Image}
use containerdosstore.Services.Frame.{Same, LeaseFrame, Keeps-call, Keeps-shown}
use containerdosstore.World.{World, call}
use containerdosstore.OciStore.{OciStore, finish, label_snapshot_img_ref}
use containerdosstore.OciStore.Steady.{finish-Shows}
use containerdosstore.Image.Laws.{found_image}
use containerdosstore.Unpack.{unpack_func}
use containerdosstore.Unpack.Views.{UnpackFrame, unpack_func-Shows}
use containerdosstore.Commit.{
  CommitImgOpts, CommitImgOpt, no_commit_img_opts, base_image, create_diff, apply_diff_layer,
  write_contents_for_image, create_missing, store_image, commit, label_of,
}
use containerdosstore.Commit.Steps.{new_config}
use containerdosstore.Commit.Returned.{commit-Returned, Made, taking}
use containerdosstore.Commit.Views.{
  taking-Shows, ReadFrame, base_image-Shows, create_diff-Shows, apply_diff_layer-Shows,
  write_contents_for_image-Shows,
}

-- The images after the record i has been stored among `before`.
pub record Stores (i : Image) (before after : List Image) : Type 0 where
  pub image : Image
  pub name : image.name ≡ i.name
  pub target : image.target ≡ i.target
  pub labels : (k : String) → label_of image.labels k ≡ label_of i.labels k
  pub finds :
      (j : String)
      → found_image j after ≡ (if i.name == j then some image else found_image j before)

pub record ImageStoreLaws (S : Services) : Type 0 where
  pub images : S.State → List Image
  pub leases : LeaseFrame S images
  pub reads : ReadFrame S images
  pub unpacks : UnpackFrame S images
  pub images-commit :
      (sn : S.Snapshotter) (ctx : Option S.Ctx) (name k : String) (os : List S.SnapshotOpt)
      → Same images (S.commit sn ctx name k os)
  pub get_gives :
      (ctx : Option S.Ctx) (k : String) (s : S.State) (i : Image)
      → (S.get_image ctx k s).0 ≡ ok i
      → found_image k (images s) ≡ some i
  pub update_stores :
      (ctx : Option S.Ctx) (i : Image) (s : S.State) (i' : Image)
      → (S.update_image ctx i [] s).0 ≡ ok i'
      → Stores i (images s) (images (S.update_image ctx i [] s).1)
  pub update_fails :
      (ctx : Option S.Ctx) (i : Image) (s : S.State) (e : Error)
      → (S.update_image ctx i [] s).0 ≡ err e
      → images (S.update_image ctx i [] s).1 ≡ images s
  pub create_stores :
      (ctx : Option S.Ctx) (i : Image) (s : S.State) (i' : Image)
      → (S.create_image ctx i s).0 ≡ ok i'
      → Stores i (images s) (images (S.create_image ctx i s).1)

module _ {S : Services} (I : ImageStoreLaws S) where
  abbrev images : World S → List Image
  images w = I.images w.services

  create_missing-Stores :
      (ctx : Option S.Ctx) (img : Image) (e : Error) (w : World S)
      → (create_missing ctx img (failed e) w).0 ≡ ok tt
      → Stores img (images w) (images (create_missing ctx img (failed e) w).1)
  unfolding create_missing call ◌>>=◌
  create_missing-Stores ctx img e w =
      let Q =
        λ (p : Outcome (Unit {0}) × World S). p.0 ≡ ok tt → Stores img (images w) (images p.1) in
      if_cases Q (is_not_found e) _ (throw e) w
        (λ _.
          try_cases Q (call (S.create_image ctx img)) _ w
            (λ i q _. I.create_stores ctx img w.services i q) (λ x _ q. cc) (λ _ q. cc) (λ _ q. cc))
        (λ _ q. cc)

  store_image-Stores :
      (ctx : Option S.Ctx) (img : Image) (w : World S)
      → (store_image ctx img w).0 ≡ ok tt
      → Stores img (images w) (images (store_image ctx img w).1)
  unfolding store_image call
  store_image-Stores ctx img w =
      let update = call (S.update_image ctx img []) in
      try_cases (λ p. p.0 ≡ ok tt → Stores img (images w) (images p.1)) update _ w
        (λ i q _. I.update_stores ctx img w.services i q)
        (λ x q r.
          subst (λ is. Stores img is (images (create_missing ctx img (failed x) (update w).1).1))
            (I.update_fails ctx img w.services x q)
            (create_missing-Stores ctx img x (update w).1 r))
        (λ _ q. cc) (λ _ q. cc)

  module _ (c : OciStore S) where
    -- Up to the image record.
    images-before :
        (ctx : Option S.Ctx) (key : String) (opt : CommitImgOpts S) (img : Image) (w left : World S)
        (m : Made c ctx opt key img w left)
        → images m.applied.stored.stamped ≡ images w
    images-before ctx key opt img w left m =
        let a = m.applied in
        let R = I.reads in
        let sn = S.snapshot_service c.driver in
        let config = new_config c a.time m.base.0 m.layer.1 opt in
        ap images a.stored.stamped-is
        ∙ Keeps-shown I.images (call S.now) (λ b. Keeps-call _ R.now) a.written
        ∙ ap images a.written-is
        ∙ Keeps-shown I.images (write_contents_for_image ctx c.driver m.base.1 config m.layer.0)
            (λ b. write_contents_for_image-Shows R b ctx c.driver m.base.1 config m.layer.0)
            a.applied
        ∙ ap images a.applied-is
        ∙ Keeps-shown I.images (apply_diff_layer ctx (S.chain_id config.diff_ids) key sn m.layer.0)
            (λ b.
              apply_diff_layer-Shows R b sn (I.images-commit sn) ctx (S.chain_id config.diff_ids)
                key m.layer.0)
            a.timed
        ∙ ap images a.timed-is
        ∙ Keeps-shown I.images (call S.now) (λ b. Keeps-call _ R.now) m.diffed
        ∙ ap images m.diffed-is
        ∙ Keeps-shown I.images (create_diff ctx key sn opt.d_opts)
            (λ b. create_diff-Shows R b ctx key sn opt.d_opts) m.based
        ∙ ap images m.based-is
        ∙ Keeps-shown I.images (base_image ctx (label_of m.info.labels label_snapshot_img_ref))
            (λ b. base_image-Shows R b ctx (label_of m.info.labels label_snapshot_img_ref))
            m.statted
        ∙ ap images m.statted-is
        ∙ Keeps-shown I.images (call (S.stat sn ctx key)) (λ b. Keeps-call _ (R.stat sn ctx key)) w

    made-Stores :
        (ctx : Option S.Ctx) (key : String) (opt : CommitImgOpts S) (img : Image) (w left : World S)
        → Made c ctx opt key img w left
        → (img.name ≡ opt.i_opts.ref) × Stores img (images w) (images left)
    made-Stores ctx key opt img w left m =
        let t = m.applied.stored in
        let put = (store_image ctx img t.stamped).1 in
        let after : images left ≡ images put =
          ap I.images t.stored-is
          ∙ Keeps-shown I.images (unpack_func c ctx img [])
              (λ b. unpack_func-Shows I.unpacks b c ctx img []) put in
        (
          ap (λ (i : Image). i.name) t.image-is,
          subst (Stores img (images w)) (sym after) (
              subst (λ is. Stores img is (images put)) (images-before ctx key opt img w left m)
                (store_image-Stores ctx img t.stamped t.store-is)),
        )

    -- Commit that returns an image returns one of the name that the options give, and leaves it under
    -- that name among the images, with its target and its labels, whether an image of that name was
    -- there before or not; every other image is found, or missing, as before.
    pub commit-Stores :
        (key : String) (opts : List (CommitImgOpt S)) (opt : CommitImgOpts S) (w : World S)
        (img : Image)
        → apply_opts opts no_commit_img_opts ≡ ok opt
        → (commit c key opts w).0 ≡ ok img
        → (img.name ≡ opt.i_opts.ref)
          × Stores img (I.images w.services) (I.images (commit c key opts w).1.services)
    commit-Stores key opts opt w img options e =
        let r = commit-Returned c key opts w img e in
        let warning : String = "could not remove lease on update image operation" in
        let same_opt : r.opt ≡ opt = ok_injective r.opt opt (sym r.options ∙ options) in
        let (name, stores) = made-Stores r.lease.ctx key r.opt img r.leased r.ended r.made in
        let after : images (commit c key opts w).1 ≡ images r.ended =
          ap images r.left
          ∙ Keeps-shown I.images (finish r.lease warning none)
              (λ b. finish-Shows I.leases b r.lease warning none) r.ended in
        let before : images r.leased ≡ images w =
          ap images r.leased-is
          ∙ Keeps-shown I.images (taking c) (λ b. taking-Shows I.leases b c) w in
        (
          name ∙ ap (λ (o : CommitImgOpts S). o.i_opts.ref) same_opt,
          subst (Stores img (images w)) (sym after)
              (subst (λ is. Stores img is (images r.ended)) before stores),
        )
