-- ===== src/Commit/Steps.antt =====
-- The end of Commit, from the layer on, where it returns an image: the steps that ran, and the world
-- that each of them left.
use containerdosstore.Prelude.{ℕ, String, Option, [], ◌∷◌, ◌≡◌, ◌∙◌, refl, sym, ap, subst}
use containerdosstore.Exec.{Exec, Attempt, failed, returned, attempt, ok, pure, ◌>>=◌, ◌>>◌}
use containerdosstore.Exec.Cases.{attempt-world}
use containerdosstore.Exec.Inversion.{bind-returns, attempt-ok, ok_injective}
use containerdosstore.Services.{Services}
use containerdosstore.Services.Types.{Digest, Descriptor, Image, ImageConfig, Manifest}
use containerdosstore.World.{World, call, infof, log_at}
use containerdosstore.OciStore.{OciStore}
use containerdosstore.Unpack.{unpack_func}
use containerdosstore.Commit.{
  CommitImgOpts, wrapping, img_labels, apply_diff_layer, write_contents_for_image, store_image,
}
use containerdosstore.Commit.Config.{generate_commit_image_config}

module _ {W A : Type 0} where
  wrapping-ok :
      (text : String) (a : Attempt A) (w : W) (x : A)
      → (wrapping text a w).0 ≡ ok x
      → (a ≡ returned x) × ((wrapping text a w).1 ≡ w)
  wrapping-ok text (returned y) w x e = (ap returned (ok_injective y x e), refl)
  wrapping-ok text (failed y) w x e = cc

module _ {W A B : Type 0} where
  -- A call whose error is wrapped returns what the call returns.
  pub wrapped-returns :
      (text : String) (m : Exec W A) (f : A → Exec W B) (w : W) (b : B)
      → ((attempt m >>= λ a. wrapping text a >>= f) w).0 ≡ ok b
      → (x : A) × ((m w).0 ≡ ok x)
        × ((f x (m w).1).0 ≡ ok b)
        × (((attempt m >>= λ a. wrapping text a >>= f) w).1 ≡ (f x (m w).1).1)
  wrapped-returns text m f w b e =
      let (a, ran, left, whole) = bind-returns (attempt m) _ w b e in
      let w1 = (attempt m w).1 in
      let (x, fine, rest, whole1) = bind-returns (wrapping text a) f w1 b left in
      let (is, same) = wrapping-ok text a w1 x fine in
      let world : (wrapping text a w1).1 ≡ (m w).1 = same ∙ attempt-world m w in
      (
        x,
        attempt-ok m w x (ran ∙ ap ok is),
        ap (λ v. (f x v).0) (sym world) ∙ rest,
        whole ∙ whole1 ∙ ap (λ v. (f x v).1) world,
      )

module _ {S : Services} (c : OciStore S) where
  abbrev pub new_config : ℕ → ImageConfig → Digest → CommitImgOpts S → ImageConfig
  new_config time base diff_id opt =
      generate_commit_image_config S.go_arch S.go_os time base diff_id opt.i_opts

  abbrev pub new_image : CommitImgOpts S → Descriptor → ℕ → Image
  new_image opt target created_at = record {
    name = opt.i_opts.ref;
    target = target;
    created_at = created_at;
    labels = img_labels opt.i_opts.labels;
  }

  module _ (ctx : Option S.Ctx) (opt : CommitImgOpts S) where
    -- The end of Commit: the image record, and its unpacking.
    abbrev pub storing : Descriptor → Exec (World S) Image
    storing target = do
      created_at ← call S.now
      store_image ctx (new_image opt target created_at)
      unpack_func c ctx (new_image opt target created_at) []
      infof "Successfully committed image '%s'" (opt.i_opts.ref ∷ [])
      pure (new_image opt target created_at)

    -- From the layer on.
    abbrev pub applying :
        String → ImageConfig × Option Manifest → Descriptor × Digest → Exec (World S) Image
    applying key base layer = do
      time ← call S.now
      applied ← attempt (
          apply_diff_layer ctx (S.chain_id (new_config time base.0 layer.1 opt).diff_ids) key
            (S.snapshot_service c.driver) layer.0)
      wrapping "failed to apply diff" applied
      target ←
          write_contents_for_image ctx c.driver base.1 (new_config time base.0 layer.1 opt) layer.0
      storing target.0

    pub record Stored (target : Descriptor) (img : Image) (w left : World S) : Type 0 where
      pub created_at : ℕ
      pub image-is : img ≡ new_image opt target created_at
      pub stamped : World S
      pub stamped-is : stamped ≡ (call S.now w).1
      pub store-is : (store_image ctx img stamped).0 ≡ ok tt
      pub unpack-is : (unpack_func c ctx img [] (store_image ctx img stamped).1).0 ≡ ok tt
      pub stored-is :
          left.services ≡ (unpack_func c ctx img [] (store_image ctx img stamped).1).1.services

    storing-Stored :
        (target : Descriptor) (w : World S) (img : Image)
        → (storing target w).0 ≡ ok img
        → Stored target img w (storing target w).1
    unfolding log_at
    storing-Stored target w img e =
        let (created_at, e1, l1, s1) = bind-returns (call S.now) _ w img e in
        let w1 = (call S.now w).1 in
        let image = new_image opt target created_at in
        let (u, e2, l2, s2) = bind-returns (store_image ctx image) _ w1 img l1 in
        let w2 = (store_image ctx image w1).1 in
        let (u', e3, l3, s3) = bind-returns (unpack_func c ctx image []) _ w2 img l2 in
        let w3 = (unpack_func c ctx image [] w2).1 in
        let say = infof "Successfully committed image '%s'" (image.name ∷ []) in
        let (u'', e4, l4, s4) = bind-returns say (λ _. pure {W = World S} image) w3 img l3 in
        let is : image ≡ img = ok_injective image img l4 in
        record {
          created_at = created_at;
          image-is = sym is;
          stamped = w1;
          stamped-is = refl;
          store-is = ap (λ i. (store_image ctx i w1).0) (sym is) ∙ e2;
          unpack-is = ap (λ i. (unpack_func c ctx i [] (store_image ctx i w1).1).0) (sym is) ∙ e3;
          stored-is =
              ap (λ (v : World S). v.services) (s1 ∙ s2 ∙ s3 ∙ s4)
              ∙ ap (λ i. (unpack_func c ctx i [] (store_image ctx i w1).1).1.services) is;
        }

    pub record Applied (key : String) (base : ImageConfig × Option Manifest)
        (layer : Descriptor × Digest) (img : Image) (w left : World S) : Type 0 where
      pub time : ℕ
      pub target : Descriptor × Digest
      pub timed : World S
      pub timed-is : timed ≡ (call S.now w).1
      pub applied : World S
      pub applied-is :
          applied
          ≡ (apply_diff_layer ctx
              (S.chain_id (new_config time base.0 layer.1 opt).diff_ids)
              key
              (S.snapshot_service c.driver)
              layer.0
              timed).1
      pub apply-is :
          (apply_diff_layer ctx
            (S.chain_id (new_config time base.0 layer.1 opt).diff_ids)
            key
            (S.snapshot_service c.driver)
            layer.0
            timed).0
          ≡ ok tt
      pub written : World S
      pub written-is :
          written
          ≡ (write_contents_for_image ctx c.driver base.1
              (new_config time base.0 layer.1 opt)
              layer.0
              applied).1
      pub write-is :
          (write_contents_for_image ctx c.driver base.1
            (new_config time base.0 layer.1 opt)
            layer.0
            applied).0
          ≡ ok target
      pub stored : Stored target.0 img written left

    pub applying-Applied :
        (key : String) (base : ImageConfig × Option Manifest) (layer : Descriptor × Digest)
        (w : World S) (img : Image)
        → (applying key base layer w).0 ≡ ok img
        → Applied key base layer img w (applying key base layer w).1
    applying-Applied key base layer w img e =
        let (time, e1, l1, s1) = bind-returns (call S.now) _ w img e in
        let w1 = (call S.now w).1 in
        let config = new_config time base.0 layer.1 opt in
        let apply =
          apply_diff_layer ctx (S.chain_id config.diff_ids) key (S.snapshot_service c.driver)
            layer.0 in
        let (u, e2, l2, s2) = wrapped-returns _ apply _ w1 img l1 in
        let w2 = (apply w1).1 in
        let writing = write_contents_for_image ctx c.driver base.1 config layer.0 in
        let (target, e3, l3, s3) = bind-returns writing (λ t. storing t.0) w2 img l2 in
        let w3 = (writing w2).1 in
        record {
          time = time;
          target = target;
          timed = w1;
          timed-is = refl;
          applied = w2;
          applied-is = refl;
          apply-is = e2;
          written = w3;
          written-is = refl;
          write-is = e3;
          stored =
              subst (Stored target.0 img w3) (sym (s1 ∙ s2 ∙ s3))
                (storing-Stored target.0 w3 img l3);
        }
