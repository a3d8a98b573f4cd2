-- ===== src/Import/Single.antt =====
-- SingleImportFile as a whole: which image it returns, and which it leaves.
use containerdosstore.Prelude.{String, Option, none, List, [], ◌∷◌, ◌≡◌, if◌then◌else◌}
use containerdosstore.Exec.{Error, ok}
use containerdosstore.Exec.Keeps.{Keeps}
use containerdosstore.Services.{Services, Leased}
use containerdosstore.Services.Types.{Image}
use containerdosstore.World.{World}
use containerdosstore.OciStore.{OciStore, acquire, report}
use containerdosstore.Image.Laws.{found_image, UnpackedLaws}
use containerdosstore.Import.{ImportOpt, import_file_func}
use containerdosstore.Import.Keeping.{is_named}

module _ {S : Services} (c : OciStore S) (U : UnpackedLaws S c.driver) where
  abbrev images : World S → List Image
  images w = U.laws.images w.services

  -- With the lease taken, importFile returned the image first, and maybe others behind it. The images
  -- are then those that it left, without those that have the name of one of the others.
  pub record Single (file : String) (opts : List (ImportOpt S)) (img : Image) (w after : World S)
      : Type 0 where
    pub lease : Leased S.Ctx S.Done
    pub leased : World S
    pub leased-is :
        leased ≡ (acquire c [] (report "failed to create lease to import image: %v") w).1
    pub rest : List Image
    pub error : Option Error
    pub imported : (import_file_func c lease.ctx file opts leased).0 ≡ ok (img ∷ rest, error)
    pub left :
        (k : String)
        → found_image k (images after) ≡ (
            if is_named k rest
            then none
            else found_image k (images (import_file_func c lease.ctx file opts leased).1))
