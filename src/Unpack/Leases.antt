-- ===== src/Unpack/Leases.antt =====
-- The lease of Unpack.
use containerdosstore.Prelude.{Option, List}
use containerdosstore.Services.Types.{Image}
use containerdosstore.Services.{Services}
use containerdosstore.Services.Frame.{frame_rules}
use containerdosstore.Services.Leases.{LeaseLaws}
use containerdosstore.OciStore.{OciStore}
use containerdosstore.OciStore.Leasing.{KeepsLeases, leased-KeepsLeases, guarded-KeepsLeases}
use containerdosstore.Unpack.Views.{UnpackFrame, unpack_func-Shows}
use containerdosstore.Unpack.{ApplyCommitOpt, unpack_func, unpack}

module _ {S : Services} (L : LeaseLaws S) where
  UnpackFrame-held : UnpackFrame S L.held
  UnpackFrame-held = record {
    is_unpacked = L.frame.is_unpacked;
    new_unpacker = L.new_unpacker;
    walk_not_empty = L.walk_not_empty;
    wait = L.wait;
  }

  pub unpack_func-KeepsLeases :
      (c : OciStore S) (ctx : Option S.Ctx) (img : Image) (os : List (ApplyCommitOpt S))
      → KeepsLeases L (unpack_func c ctx img os)
  unpack_func-KeepsLeases c ctx img os l = unpack_func-Shows UnpackFrame-held l c ctx img os

  pub unpack-KeepsLeases :
      (c : OciStore S) (img : Image) (os : List (ApplyCommitOpt S))
      → KeepsLeases L (unpack c img os)
  unfolding unpack
  unpack-KeepsLeases c img os = guarded-KeepsLeases L c _ (
      leased-KeepsLeases L c _ _ _ _ (λ e l. search frame_rules)
        (λ ctx l. search (frame_rules, unpack_func-KeepsLeases) depth 9))
