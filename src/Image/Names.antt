-- ===== src/Image/Names.antt =====
-- What deleting an image does to the images.
use containerdosstore.Prelude.{ℕ, String, Bool, true, false, Option, List, negsuc, ◌≡◌, ◌∙◌, ap}
use containerdosstore.Exec.{ok}
use containerdosstore.Exec.Inversion.{bind-ok, bind-world}
use containerdosstore.Exec.Keeps.{Keeps, Keeps-bind}
use containerdosstore.Services.{Services}
use containerdosstore.Services.Types.{Image}
use containerdosstore.Services.Frame.{Shows, frame_rules, Keeps-call, Keeps-shown}
use containerdosstore.World.{World, call}
use containerdosstore.OciStore.{OciStore}
use containerdosstore.Snapshots.Views.{remove_snapshots_chain-Shows}
use containerdosstore.Image.{remove_unpacked, delete_func}
use containerdosstore.Image.Laws.{without, UnpackedLaws}

module _ {S : Services} (c : OciStore S) (U : UnpackedLaws S c.driver) (ctx : Option S.Ctx) where
  abbrev images : World S → List Image
  images w = U.laws.images w.services

  remove_unpacked-Shows :
      (fuel : ℕ) (img : Image) (b : Bool) (is : List Image)
      → Keeps (Shows {S = S} U.laws.images is) (remove_unpacked fuel c ctx img b)
  unfolding remove_unpacked
  remove_unpacked-Shows fuel img false is = search frame_rules
  remove_unpacked-Shows fuel img true is =
      Keeps-bind _ _
        (λ ds.
          remove_snapshots_chain-Shows U.laws.images (S.snapshot_service c.driver)
            U.laws.images-stat U.laws.images-remove is fuel ctx (S.chain_id ds) (negsuc 0))
        (Keeps-call _ (U.laws.images-root_fs ctx img))

  -- The images of other names stay.
  pub images-delete_func :
      (fuel : ℕ) (name : String) (os : List S.DeleteOpt) (w : World S)
      → (delete_func fuel c ctx name os w).0 ≡ ok tt
      → images (delete_func fuel c ctx name os w).1 ≡ without name (images w)
  unfolding delete_func call
  images-delete_func fuel name os w e =
      let get = call (S.get_image ctx name) in
      let (img, e1, left1) = bind-ok get _ w e in
      let w1 = (get w).1 in
      let ask = call (S.is_unpacked ctx img c.driver) in
      let (b, e2, left2) = bind-ok ask _ w1 left1 in
      let w2 = (ask w1).1 in
      let clear = remove_unpacked fuel c ctx img b in
      let (u, e3, left3) = bind-ok clear _ w2 left2 in
      let w3 = (clear w2).1 in
      let rest = λ (_ : Unit {0}). call (S.delete_image ctx name os) in
      ap images
        (bind-world get _ w img e1 ∙ bind-world ask _ w1 b e2 ∙ bind-world clear rest w2 u e3)
      ∙ U.laws.delete_image_deletes ctx name os w3.services left3
      ∙ ap (without name) (
          Keeps-shown U.laws.images clear (remove_unpacked-Shows fuel img b) w2
          ∙ U.laws.images-is_unpacked ctx img c.driver w1.services
          ∙ U.laws.images-get_image ctx name w.services)
