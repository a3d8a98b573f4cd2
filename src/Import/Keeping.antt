-- ===== src/Import/Keeping.antt =====
-- What the end of SingleImportFile, after the import, leaves of the images where the archive has
-- several.
use containerdosstore.Prelude.{
  ℕ, String, Bool, false, Option, none, List, [], ◌∷◌, ◌++◌, ◌==◌, ◌||◌, ◌≡◌, ◌∙◌, refl, ap,
  if◌then◌else◌, arith, eq_iff, length, decimal,
}
use containerdosstore.Exec.{Error, Exec, ok, pure, ◌>>◌}
use containerdosstore.Exec.Cases.{try_cases}
use containerdosstore.Exec.Inversion.{bind-ok, bind-world, ok_injective}
use containerdosstore.Services.{Services}
use containerdosstore.Services.Types.{Image}
use containerdosstore.Services.Frame.{frame_rules, Keeps-shown}
use containerdosstore.World.{World, warnf, infof}
use containerdosstore.OciStore.{OciStore}
use containerdosstore.Image.{delete_func}
use containerdosstore.Image.Names.{images-delete_func}
use containerdosstore.Image.Laws.{found_image, without, UnpackedLaws}
use containerdosstore.Import.{del_img, del_imgs, keep_deleted, keep_first, single_image}

abbrev without_all : List Image → List Image → List Image
without_all [] is = is
without_all (i ∷ rest) is = without_all rest (without i.name is)

-- Whether one of the images has that name.
unfoldable pub is_named : String → List Image → Bool
is_named k [] = false
is_named k (i ∷ is) = i.name == k || is_named k is

found_image-without :
    (k j : String) (is : List Image)
    → found_image j (without k is) ≡ (if k == j then none else found_image j is)
unfolding found_image without
found_image-without k j [] = ground arith
found_image-without k j (i ∷ is) =
    ground (arith, found_image-without k j is, eq_iff i.name k, eq_iff i.name j, eq_iff k j)

found_image-without_all :
    (k : String) (rest is : List Image)
    → found_image k (without_all rest is) ≡ (if is_named k rest then none else found_image k is)
unfolding is_named
found_image-without_all k [] is = refl
found_image-without_all k (i ∷ rest) is =
    ground
      (arith, found_image-without_all k rest (without i.name is), found_image-without i.name k is)

append-nil {ℓ} : {A : Type ℓ} (xs ys : List A) → xs ++ ys ≡ [] → (xs ≡ []) × (ys ≡ [])
append-nil [] ys e = (refl, e)
append-nil (x ∷ xs) ys e = cc

module _ {S : Services} (c : OciStore S) (U : UnpackedLaws S c.driver) (ctx : Option S.Ctx) where
  abbrev images : World S → List Image
  images w = U.laws.images w.services

  -- Without an error the image has been deleted.
  images-del_img :
      (fuel : ℕ) (img : Image) (w : World S)
      → (del_img fuel c ctx img w).0 ≡ ok []
      → images (del_img fuel c ctx img w).1 ≡ without img.name (images w)
  unfolding del_img
  images-del_img fuel img w =
      let m = delete_func fuel c ctx img.name [] in
      try_cases (λ p. p.0 ≡ ok [] → images p.1 ≡ without img.name (images w)) m _ w
        (λ a h q. images-delete_func c U ctx fuel img.name [] w h)
        (λ e h q. let (_, _, r) = bind-ok _ _ _ q in cc) (λ h q. cc) (λ h q. cc)

  -- The errors that were there stay; without any, each image has been deleted.
  images-del_imgs :
      (fuel : ℕ) (imgs : List Image) (errs : List Error) (w : World S)
      → (del_imgs fuel c ctx imgs errs w).0 ≡ ok []
      → (errs ≡ []) × (images (del_imgs fuel c ctx imgs errs w).1 ≡ without_all imgs (images w))
  unfolding del_imgs
  images-del_imgs fuel [] errs w e = (ok_injective errs [] e, refl)
  images-del_imgs fuel (img ∷ imgs) errs w e =
      let m = del_img fuel c ctx img in
      let (new, e1, left) = bind-ok m _ w e in
      let (none_new, rest) = images-del_imgs fuel imgs (errs ++ new) (m w).1 left in
      let (no_errs, no_new) = append-nil errs new none_new in
      (
        no_errs,
        ap images (bind-world m (λ x. del_imgs fuel c ctx imgs (errs ++ x)) w new e1)
            ∙ rest
            ∙ ap (without_all imgs) (images-del_img fuel img w (e1 ∙ ap ok no_new)),
      )

  keep_deleted-nil :
      (fuel : ℕ) (first : Image) (errs : List Error) (w : World S)
      → (keep_deleted fuel c ctx first errs w).0 ≡ ok tt
      → (errs ≡ []) × ((keep_deleted fuel c ctx first errs w).1 ≡ w)
  unfolding keep_deleted
  keep_deleted-nil fuel first [] w e = (refl, refl)
  keep_deleted-nil fuel first (x ∷ xs) w e = let (_, _, q) = bind-ok _ _ _ e in cc

  images-keep_first :
      (fuel : ℕ) (first : Image) (rest : List Image) (w : World S)
      → (keep_first fuel c ctx first rest w).0 ≡ ok tt
      → images (keep_first fuel c ctx first rest w).1 ≡ without_all rest (images w)
  unfolding keep_first
  images-keep_first fuel first [] w e = refl
  images-keep_first fuel first (img ∷ imgs) w e =
      let warn =
        warnf {S = S} "imported '%d' images. Only keeping first one"
          (decimal (length (first ∷ img ∷ imgs)) ∷ []) in
      let (u, e1, left1) = bind-ok warn _ w e in
      let w1 = (warn w).1 in
      let drop = del_imgs fuel c ctx (img ∷ imgs) [] in
      let (errs, e2, left2) = bind-ok drop _ w1 left1 in
      let w2 = (drop w1).1 in
      let (no_errs, same) = keep_deleted-nil fuel first errs w2 left2 in
      let (_, gone) = images-del_imgs fuel (img ∷ imgs) [] w1 (e2 ∙ ap ok no_errs) in
      let whole =
        bind-world warn _ w u e1 ∙ bind-world drop (keep_deleted fuel c ctx first) w1 errs e2 in
      ap images (whole ∙ same)
      ∙ gone
      ∙ ap (without_all (img ∷ imgs)) (Keeps-shown U.laws.images warn (λ b. search frame_rules) w)

  -- Where an image is returned, it is the first of the imported ones, and a name is found among the
  -- images as before the others were deleted, or not at all if one of them has it.
  pub found_image-single_image :
      (fuel : ℕ) (file : String) (imgs : List Image) (w : World S) (img : Image)
      → (single_image fuel c ctx file imgs w).0 ≡ ok img
      → (rest : List Image) × (imgs ≡ img ∷ rest)
        × ((k : String)
            → found_image k (images (single_image fuel c ctx file imgs w).1)
              ≡ (if is_named k rest then none else found_image k (images w)))
  unfolding single_image
  found_image-single_image fuel file [] w img e = let (_, _, q) = bind-ok _ _ w e in cc
  found_image-single_image fuel file (first ∷ rest) w img e =
      let keep = keep_first fuel c ctx first rest in
      let tell =
        infof {S = S} "Successfully imported '%s' image from '%s'" (first.name ∷ file ∷ []) in
      let end : Exec (World S) Image = tell >> pure first in
      let (u, kept, left) = bind-ok keep _ w e in
      let (_, _, e2) = bind-ok tell _ _ left in
      let same : first ≡ img = ok_injective first img e2 in
      let ended : images (end (keep w).1).1 ≡ images (keep w).1 =
        Keeps-shown U.laws.images end (λ b. search frame_rules) (keep w).1 in
      (
        rest,
        ap (λ (i : Image). i ∷ rest) same,
        λ k.
            ap (λ x. found_image k (images x)) (bind-world keep (λ _. end) w u kept)
            ∙ ap (found_image k) (ended ∙ images-keep_first fuel first rest w kept)
            ∙ found_image-without_all k rest (images w),
      )
