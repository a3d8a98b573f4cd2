-- ===== src/Import/Leases.antt =====
-- The lease of the methods of import.go.
use containerdosstore.Prelude.{ℕ, String, Bool, true, false, Option, none, some, List, [], ◌∷◌}
use containerdosstore.Exec.{Error}
use containerdosstore.Services.Types.{Image}
use containerdosstore.Services.{Services}
use containerdosstore.Services.Frame.{frame_rules}
use containerdosstore.Services.Leases.{LeaseLaws}
use containerdosstore.OciStore.{OciStore}
use containerdosstore.OciStore.Leasing.{KeepsLeases, leased-KeepsLeases, guarded-KeepsLeases}
use containerdosstore.Unpack.Leases.{unpack_func-KeepsLeases}
use containerdosstore.Image.Leases.{delete_func-KeepsLeases}
use containerdosstore.Import.{
  ImportOpts, ImportOpt, import_unpack, import_loop, import_func, import_file_func, report_import,
  del_img, del_imgs, keep_deleted, keep_first, single_image, import_reader, import_file,
  single_import_file,
}

module _ {S : Services} (L : LeaseLaws S) where
  import_unpack-KeepsLeases :
      (c : OciStore S) (ctx : Option S.Ctx) (opt : ImportOpts S) (img : Image) (b : Bool)
      → KeepsLeases L (import_unpack c ctx opt img b)
  unfolding import_unpack
  import_unpack-KeepsLeases c ctx opt img false l = search frame_rules
  import_unpack-KeepsLeases c ctx opt img true l =
      search (frame_rules, unpack_func-KeepsLeases L) depth 9

  import_loop-KeepsLeases :
      (c : OciStore S) (ctx : Option S.Ctx) (opt : ImportOpts S) (todo done : List Image)
      (errs : List Error)
      → KeepsLeases L (import_loop c ctx opt todo done errs)
  unfolding import_loop
  import_loop-KeepsLeases c ctx opt [] done errs l = search frame_rules
  import_loop-KeepsLeases c ctx opt (img ∷ todo) done errs l =
      search (frame_rules, import_unpack-KeepsLeases, import_loop-KeepsLeases c ctx opt todo)

  pub import_func-KeepsLeases :
      (c : OciStore S) (ctx : Option S.Ctx) (r : S.Reader) (os : List (ImportOpt S))
      → KeepsLeases L (import_func c ctx r os)
  unfolding import_func
  import_func-KeepsLeases c ctx r os l =
      search (frame_rules, L.frame.import_images, import_loop-KeepsLeases) depth 9

  pub import_file_func-KeepsLeases :
      (c : OciStore S) (ctx : Option S.Ctx) (file : String) (os : List (ImportOpt S))
      → KeepsLeases L (import_file_func c ctx file os)
  unfolding import_file_func
  import_file_func-KeepsLeases c ctx file os l =
      search (frame_rules, L.frame.open_file, L.frame.close_file, import_func-KeepsLeases) depth 9

  report_import-KeepsLeases :
      (e : Option Error) (format : String) (args : List String)
      → KeepsLeases L (report_import {S = S} e format args)
  unfolding report_import
  report_import-KeepsLeases none format args l = search frame_rules
  report_import-KeepsLeases (some e) format args l = search frame_rules

  del_img-KeepsLeases :
      (fuel : ℕ) (c : OciStore S) (ctx : Option S.Ctx) (img : Image)
      → KeepsLeases L (del_img fuel c ctx img)
  unfolding del_img
  del_img-KeepsLeases fuel c ctx img l = search (frame_rules, delete_func-KeepsLeases L) depth 9

  del_imgs-KeepsLeases :
      (fuel : ℕ) (c : OciStore S) (ctx : Option S.Ctx) (imgs : List Image) (errs : List Error)
      → KeepsLeases L (del_imgs fuel c ctx imgs errs)
  unfolding del_imgs
  del_imgs-KeepsLeases fuel c ctx [] errs l = search frame_rules
  del_imgs-KeepsLeases fuel c ctx (img ∷ imgs) errs l =
      search (frame_rules, del_img-KeepsLeases, del_imgs-KeepsLeases fuel c ctx imgs)

  keep_deleted-KeepsLeases :
      (fuel : ℕ) (c : OciStore S) (ctx : Option S.Ctx) (first : Image) (errs : List Error)
      → KeepsLeases L (keep_deleted fuel c ctx first errs)
  unfolding keep_deleted
  keep_deleted-KeepsLeases fuel c ctx first [] l = search frame_rules
  keep_deleted-KeepsLeases fuel c ctx first (e ∷ es) l = search (frame_rules, del_img-KeepsLeases)

  keep_first-KeepsLeases :
      (fuel : ℕ) (c : OciStore S) (ctx : Option S.Ctx) (first : Image) (rest : List Image)
      → KeepsLeases L (keep_first fuel c ctx first rest)
  unfolding keep_first
  keep_first-KeepsLeases fuel c ctx first [] l = search frame_rules
  keep_first-KeepsLeases fuel c ctx first (img ∷ rest) l =
      search (frame_rules, del_imgs-KeepsLeases, keep_deleted-KeepsLeases) depth 9

  pub single_image-KeepsLeases :
      (fuel : ℕ) (c : OciStore S) (ctx : Option S.Ctx) (file : String) (imgs : List Image)
      → KeepsLeases L (single_image fuel c ctx file imgs)
  unfolding single_image
  single_image-KeepsLeases fuel c ctx file [] l = search frame_rules
  single_image-KeepsLeases fuel c ctx file (first ∷ rest) l =
      search (frame_rules, keep_first-KeepsLeases) depth 9

  pub import_reader-KeepsLeases :
      (c : OciStore S) (r : S.Reader) (os : List (ImportOpt S))
      → KeepsLeases L (import_reader c r os)
  unfolding import_reader
  import_reader-KeepsLeases c r os = guarded-KeepsLeases L c _ (
      leased-KeepsLeases L c _ _ _ _ (λ e l. search frame_rules)
        (λ ctx l. search (frame_rules, import_func-KeepsLeases, report_import-KeepsLeases) depth 9))

  pub import_file-KeepsLeases :
      (c : OciStore S) (file : String) (os : List (ImportOpt S))
      → KeepsLeases L (import_file c file os)
  unfolding import_file
  import_file-KeepsLeases c file os = guarded-KeepsLeases L c _ (
      leased-KeepsLeases L c _ _ _ _ (λ e l. search frame_rules)
        (λ ctx l.
          search (frame_rules, import_file_func-KeepsLeases, report_import-KeepsLeases) depth 9))

  pub single_import_file-KeepsLeases :
      (fuel : ℕ) (c : OciStore S) (file : String) (os : List (ImportOpt S))
      → KeepsLeases L (single_import_file fuel c file os)
  unfolding single_import_file
  single_import_file-KeepsLeases fuel c file os = guarded-KeepsLeases L c _ (
      leased-KeepsLeases L c _ _ _ _ (λ e l. search frame_rules)
        (λ ctx l.
          search
            (
              frame_rules, import_file_func-KeepsLeases, report_import-KeepsLeases,
              single_image-KeepsLeases,
            )
            depth 9))
