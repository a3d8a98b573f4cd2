-- ===== src/Import.antt =====
-- pkg/ocistore/import.go: importing images from an archive.
pub mod Leases
pub mod Outcomes
pub mod Keeping
pub mod Single
pub mod Loop
use containerdosstore.Prelude.{
  ℕ, String, Bool, true, false, Option, none, some, List, [], ◌∷◌, ◌++◌, length, decimal,
}
use containerdosstore.Exec.{
  Error, message, Outcome, ok, Exec, Attempt, failed, returned, attempt, pure, throw, lift, closing,
  apply_opts, ◌>>=◌, ◌>>◌,
}
use containerdosstore.Services.{Services}
use containerdosstore.Services.Types.{Image}
use containerdosstore.World.{World, call, infof, errorf, warnf}
use containerdosstore.OciStore.{OciStore, guarded, leased, report, report_on}
use containerdosstore.Unpack.{ApplyCommitOpt, unpack_func}
use containerdosstore.Image.{delete_func}

pub record ImportOpts (S : Services) : Type 0 where
  pub i_opts : List S.ClientImportOpt
  pub a_opts : List (ApplyCommitOpt S)
  pub unpack : Bool

abbrev pub ImportOpt : Services → Type 0
ImportOpt S = ImportOpts S → Outcome (ImportOpts S)

-- Images and an error side by side, as importFunc returns them.
abbrev pub Imported : Type 0
Imported = List Image × Option Error

abbrev pub import_result : List Image × List Error → Imported
import_result (images, []) = (images, none)
import_result (images, e ∷ es) = (images, some (message "failed unpacking some image"))

-- The errors before the first image are returned beside no images.
abbrev pub no_images : Attempt Imported → Imported
no_images (returned r) = r
no_images (failed e) = ([], some e)

module _ {S : Services} where
  abbrev pub no_import_opts : ImportOpts S
  no_import_opts = record { i_opts = []; a_opts = []; unpack = false }

  unfoldable pub with_import_unpack : ImportOpt S
  with_import_unpack i = ok (record i { unpack = true })

  unfoldable pub with_import_opts : List S.ClientImportOpt → ImportOpt S
  with_import_opts opts i = ok (record i { i_opts = i.i_opts ++ opts })

  unfoldable pub with_import_apply_commit_opts : List (ApplyCommitOpt S) → ImportOpt S
  with_import_apply_commit_opts opts i = ok (record i { a_opts = i.a_opts ++ opts })

  -- Unpacks one image if that is asked for; an error is reported and kept.
  pub import_unpack :
      OciStore S → Option S.Ctx → ImportOpts S → Image → Bool → Exec (World S) (List Error)
  import_unpack c ctx opt img false = pure []
  import_unpack c ctx opt img true = do
    unpacked ← attempt (unpack_func c ctx img opt.a_opts)
    elim unpacked [
      | failed e ↦ do report_on "failed to unpack image '%s': %v" img.name e; pure (e ∷ [])
      | returned _ ↦ pure []
    ]

  -- The loop over the imported images: those seen, and the errors of unpacking them.
  pub import_loop :
      OciStore S
      → Option S.Ctx
      → ImportOpts S
      → List Image
      → List Image
      → List Error
      → Exec (World S) (List Image × List Error)
  unfolding import_unpack
  import_loop c ctx opt [] images errs = pure (images, errs)
  import_loop c ctx opt (img ∷ imgs) images errs = do
    new ← import_unpack c ctx opt img opt.unpack
    import_loop c ctx opt imgs (images ++ (img ∷ [])) (errs ++ new)

  unfoldable pub import_func :
      OciStore S → Option S.Ctx → S.Reader → List (ImportOpt S) → Exec (World S) Imported
  unfolding import_loop
  import_func c ctx reader opts = do
    r ← attempt (do
      opt ← lift (apply_opts opts no_import_opts)
      imgs ← call (S.import_images ctx reader opt.i_opts)
      seen ← import_loop c ctx opt imgs [] []
      pure (import_result seen))
    pure (no_images r)

  -- The images of a file that is open, which is closed afterwards.
  import_opened :
      OciStore S → Option S.Ctx → List (ImportOpt S) → Attempt S.Reader → Exec (World S) Imported
  import_opened c ctx opts (failed e) = pure ([], some e)
  import_opened c ctx opts (returned r) = closing (import_func c ctx r opts) (call (S.close_file r))

  unfoldable pub import_file_func :
      OciStore S → Option S.Ctx → String → List (ImportOpt S) → Exec (World S) Imported
  unfolding import_opened
  import_file_func c ctx file opts = do
    opened ← attempt (call (S.open_file file))
    import_opened c ctx opts opened

  -- `if err != nil { c.log.Error... }`, and on it goes.
  pub report_import : Option Error → String → List String → Exec (World S) (Unit {0})
  report_import none format args = pure tt
  report_import (some e) format args = errorf format args

  unfoldable pub import_reader :
      OciStore S → S.Reader → List (ImportOpt S) → Exec (World S) (List Image)
  unfolding report_import
  import_reader c reader opts = guarded c (
      leased c [] (report "failed to create lease to import image: %v")
        "could not remove lease on import operation"
        λ ctx. do
          r ← import_func c ctx reader opts
          report_import r.1 "failed importing from reader interface" []
          infof "Successfully imported %d image(s)" (decimal (length r.0) ∷ [])
          pure r.0)

  unfoldable pub import_file :
      OciStore S → String → List (ImportOpt S) → Exec (World S) (List Image)
  unfolding report_import
  import_file c file opts = guarded c (
      leased c [] (report "failed to create lease to import image: %v")
        "could not remove lease on import operation"
        λ ctx. do
          r ← import_file_func c ctx file opts
          report_import r.1 "failed importing from file '%s'" (file ∷ [])
          infof "Successfully imported %d image(s) from '%s'" (decimal (length r.0) ∷ file ∷ [])
          pure r.0)

  -- `delImg`: the error of a deletion, after it is reported.
  unfoldable pub del_img : ℕ → OciStore S → Option S.Ctx → Image → Exec (World S) (List Error)
  del_img fuel c ctx img = do
    deleted ← attempt (delete_func fuel c ctx img.name [])
    elim deleted [
      | failed e ↦ do report_on "cound not delete imported image '%s': %v" img.name e; pure (e ∷ [])
      | returned _ ↦ pure []
    ]

  -- `for _, img := range images[1:] { delImg(img) }`
  unfoldable pub del_imgs :
      ℕ → OciStore S → Option S.Ctx → List Image → List Error → Exec (World S) (List Error)
  del_imgs fuel c ctx [] errs = pure errs
  del_imgs fuel c ctx (img ∷ imgs) errs = do
    new ← del_img fuel c ctx img
    del_imgs fuel c ctx imgs (errs ++ new)

  keep_deleted : ℕ → OciStore S → Option S.Ctx → Image → List Error → Exec (World S) (Unit {0})
  keep_deleted fuel c ctx first [] = pure tt
  keep_deleted fuel c ctx first (e ∷ es) = do
    del_img fuel c ctx first
    throw (message "failed removing imported images")

  -- Keeps the first of several images.
  unfoldable pub keep_first :
      ℕ → OciStore S → Option S.Ctx → Image → List Image → Exec (World S) (Unit {0})
  unfolding keep_deleted
  keep_first fuel c ctx first [] = pure tt
  keep_first fuel c ctx first (img ∷ rest) = do
    warnf "imported '%d' images. Only keeping first one"
        (decimal (length (first ∷ img ∷ rest)) ∷ [])
    errs ← del_imgs fuel c ctx (img ∷ rest) []
    keep_deleted fuel c ctx first errs

  unfoldable pub single_image :
      ℕ → OciStore S → Option S.Ctx → String → List Image → Exec (World S) Image
  unfolding keep_first
  single_image fuel c ctx file [] = do
    errorf "no images imported from file '%s'" (file ∷ [])
    throw (message "something went wrong, no images imported")
  single_image fuel c ctx file (first ∷ rest) = do
    keep_first fuel c ctx first rest
    infof "Successfully imported '%s' image from '%s'" (first.name ∷ file ∷ [])
    pure first

  unfoldable pub single_import_file :
      ℕ → OciStore S → String → List (ImportOpt S) → Exec (World S) Image
  unfolding report_import
  single_import_file fuel c file opts = guarded c (
      leased c [] (report "failed to create lease to import image: %v")
        "could not remove lease on import operation"
        λ ctx. do
          r ← import_file_func c ctx file opts
          report_import r.1 "failed importing from file '%s'" (file ∷ [])
          single_image fuel c ctx file r.0)
