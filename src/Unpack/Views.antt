-- ===== src/Unpack/Views.antt =====
-- Unpacking, as seen by a view of the services that it leaves alone.
use containerdosstore.Prelude.{String, Bool, true, false, Option, List}
use containerdosstore.Exec.{Exec, Attempt, failed, returned, apply_opts}
use containerdosstore.Exec.Keeps.{
  Keeps, Keeps-bind, Keeps-attempt, Keeps-throw, Keeps-lift, Keeps-pure,
}
use containerdosstore.Services.{Services}
use containerdosstore.Services.Types.{Descriptor, Image}
use containerdosstore.Services.Frame.{Same, Shows, Keeps-call}
use containerdosstore.World.{World, call}
use containerdosstore.OciStore.{OciStore}
use containerdosstore.Unpack.{
  no_apply_commit_opts, ApplyCommitOpt, settle, unpack_missing, unpack_unless, unpack_func,
}

-- The calls of the unpacker do not change the view.
pub record UnpackFrame (S : Services) {B : Type 0} (f : S.State → B) : Type 0 where
  pub is_unpacked :
      (ctx : Option S.Ctx) (img : Image) (driver : String) → Same f (S.is_unpacked ctx img driver)
  pub new_unpacker :
      (ctx : Option S.Ctx) (p : S.Platform) (driver : String) (sn : S.Snapshotter)
      (sos : List S.SnapshotOpt) (aos : List S.ApplyOpt)
      → Same f (S.new_unpacker ctx p driver sn sos aos)
  pub walk_not_empty :
      (ctx : Option S.Ctx) (h : Option S.Ctx → Descriptor → Exec S.State (List Descriptor))
      (d : Descriptor)
      → Same f (S.walk_not_empty ctx h d)
  pub wait : (u : S.Unpacker) → Same f (S.wait u)

-- A property of the world that the calls of the unpacker keep.
pub record UnpackKeeps (S : Services) (P : World S → Type 0) : Type 0 where
  pub asks :
      (ctx : Option S.Ctx) (img : Image) (driver : String)
      → Keeps P (call {S = S} (S.is_unpacked ctx img driver))
  pub makes :
      (ctx : Option S.Ctx) (p : S.Platform) (driver : String) (sn : S.Snapshotter)
      (sos : List S.SnapshotOpt) (aos : List S.ApplyOpt)
      → Keeps P (call {S = S} (S.new_unpacker ctx p driver sn sos aos))
  pub walks :
      (ctx : Option S.Ctx) (h : Option S.Ctx → Descriptor → Exec S.State (List Descriptor))
      (d : Descriptor)
      → Keeps P (call {S = S} (S.walk_not_empty ctx h d))
  pub waits : (u : S.Unpacker) → Keeps P (call {S = S} (S.wait u))

module _ {S : Services} {P : World S → Type 0} (U : UnpackKeeps S P) where
  settle-Keeps : (u : S.Unpacker) (a : Attempt (Unit {0})) → Keeps P (settle {S = S} u a)
  unfolding settle
  settle-Keeps u (returned x) = U.waits u
  settle-Keeps u (failed e) =
      Keeps-bind _ _ (λ a. Keeps-throw e) (Keeps-attempt (call (S.wait u)) (U.waits u))

  unpack_missing-Keeps :
      (c : OciStore S) (ctx : Option S.Ctx) (img : Image) (os : List (ApplyCommitOpt S))
      → Keeps P (unpack_missing c ctx img os)
  unfolding unpack_missing
  unpack_missing-Keeps c ctx img os =
      Keeps-bind _ _
        (λ opt.
          Keeps-bind _ _
            (λ unpacker.
              Keeps-bind _ _ (λ walked. settle-Keeps unpacker walked)
                (Keeps-attempt _ (U.walks ctx _ img.target)))
            (U.makes ctx c.platform c.driver _ opt.s_opts opt.a_opts))
        (Keeps-lift (apply_opts os no_apply_commit_opts))

  unpack_unless-Keeps :
      (done : Bool) (c : OciStore S) (ctx : Option S.Ctx) (img : Image)
      (os : List (ApplyCommitOpt S))
      → Keeps P (unpack_unless done (unpack_missing c ctx img os))
  unfolding unpack_unless
  unpack_unless-Keeps true c ctx img os = Keeps-pure tt
  unpack_unless-Keeps false c ctx img os = unpack_missing-Keeps c ctx img os

  pub unpack_func-Keeps :
      (c : OciStore S) (ctx : Option S.Ctx) (img : Image) (os : List (ApplyCommitOpt S))
      → Keeps P (unpack_func c ctx img os)
  unfolding unpack_func
  unpack_func-Keeps c ctx img os =
      Keeps-bind _ _ (λ done. unpack_unless-Keeps done c ctx img os) (U.asks ctx img c.driver)

module _ {S : Services} {B : Type 0} {f : S.State → B} (U : UnpackFrame S f) (b : B) where
  pub unpack_func-Shows :
      (c : OciStore S) (ctx : Option S.Ctx) (img : Image) (os : List (ApplyCommitOpt S))
      → Keeps (Shows {S = S} f b) (unpack_func c ctx img os)
  unpack_func-Shows = unpack_func-Keeps (record {
    asks = λ ctx img driver. Keeps-call _ (U.is_unpacked ctx img driver);
    makes = λ ctx p driver sn sos aos. Keeps-call _ (U.new_unpacker ctx p driver sn sos aos);
    walks = λ ctx h d. Keeps-call _ (U.walk_not_empty ctx h d);
    waits = λ u. Keeps-call _ (U.wait u);
  })
