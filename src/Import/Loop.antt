-- ===== src/Import/Loop.antt =====
-- The loop over the imported images, against unpacking one image after another.
use containerdosstore.Prelude.{
  List, [], ◌∷◌, ◌++◌, Option, ◌≡◌, ◌∙◌, sym, ap, refl, fun_ext, Bool, true, false, if◌then◌else◌,
}
use mathlib.Core.List.{append_assoc, append-nil}
use containerdosstore.Exec.{Error, Exec, Attempt, failed, returned, attempt, pure, ◌>>=◌, ◌>>◌}
use containerdosstore.Exec.Cases.{bind_cong, bind_assoc}
use containerdosstore.Services.{Services}
use containerdosstore.Services.Types.{Image}
use containerdosstore.World.{World}
use containerdosstore.OciStore.{OciStore, report_on}
use containerdosstore.Unpack.{unpack_func}
use containerdosstore.Import.{ImportOpts, import_unpack, import_loop}

module _ {W : Type 0} where
  added_none :
      (images : List Image) (errs : List Error) (w : W)
      → pure {W = W} {A = List Image × List Error} (images, errs) w
        ≡ (pure {W = W} [] >>= (λ news. pure (images ++ [], errs ++ news))) w
  unfolding ◌>>=◌
  added_none images errs w = cc (append-nil images, append-nil errs)

  added :
      (img : Image) (imgs images : List Image) (errs new rest : List Error) (w : W)
      → pure {W = W} {A = List Image × List Error}
          ((images ++ (img ∷ [])) ++ imgs, (errs ++ new) ++ rest)
          w
        ≡ (pure {W = W} (new ++ rest) >>= (λ news. pure (images ++ (img ∷ imgs), errs ++ news))) w
  unfolding ◌>>=◌
  added img imgs images errs new rest w =
      cc (append_assoc images (img ∷ []) imgs, append_assoc errs new rest)

module _ {S : Services} (c : OciStore S) (ctx : Option S.Ctx) (opt : ImportOpts S) where
  errors_of : Attempt (Unit {0}) → List Error
  errors_of (failed e) = e ∷ []
  errors_of (returned u) = []

  tell : Image → Attempt (Unit {0}) → Exec (World S) (Unit {0})
  tell img (failed e) = report_on "failed to unpack image '%s': %v" img.name e
  tell img (returned u) = pure tt

  -- Where unpacking is asked for, its outcome is told, and its error, if there is one, returned.
  abbrev pub unpack_one : Image → Exec (World S) (List Error)
  unfolding errors_of tell
  unpack_one img =
      if opt.unpack
      then (do
        outcome ← attempt (unpack_func c ctx img opt.a_opts)
        tell img outcome
        pure (errors_of outcome))
      else pure []

  abbrev pub unpack_each : List Image → Exec (World S) (List Error)
  unpack_each [] = pure []
  unpack_each (img ∷ imgs) = do new ← unpack_one img; rest ← unpack_each imgs; pure (new ++ rest)

  import_unpack-one :
      (img : Image) (w : World S) → import_unpack c ctx opt img opt.unpack w ≡ unpack_one img w
  unfolding import_unpack errors_of tell ◌>>=◌
  import_unpack-one img w = go opt.unpack
    where
      told :
          (a : Attempt (Unit {0})) (v : World S)
          → elim a as (λ _. Exec (World S) (List Error)) [
            | failed e ↦ do report_on "failed to unpack image '%s': %v" img.name e; pure (e ∷ [])
            | returned _ ↦ pure []
          ]
              v
            ≡ (tell img a >> pure (errors_of a)) v
      told (failed e) v = refl
      told (returned u) v = refl

      go :
          (b : Bool)
          → import_unpack c ctx opt img b w
            ≡ (if b
                  then (do
                    outcome ← attempt (unpack_func c ctx img opt.a_opts)
                    tell img outcome
                    pure (errors_of outcome))
                  else pure [])
                w
      go false = refl
      go true =
          bind_cong (attempt (unpack_func c ctx img opt.a_opts)) _ _ w
            (λ a. told a (attempt (unpack_func c ctx img opt.a_opts) w).1)

  -- The loop, which carries the images seen and the errors along, is the one that unpacks each image
  -- in turn, if that is asked for, and then adds to them all images in their order, and the errors
  -- of all that could not be unpacked in theirs.
  pub import_loop-each :
      (imgs images : List Image) (errs : List Error) (w : World S)
      → import_loop c ctx opt imgs images errs w
        ≡ (unpack_each imgs >>= (λ news. pure (images ++ imgs, errs ++ news))) w
  unfolding import_loop
  import_loop-each [] images errs w = added_none images errs w
  import_loop-each (img ∷ imgs) images errs w =
      let unpack = unpack_one img in
      let each = unpack_each imgs in
      let add = λ (news : List Error). pure {W = World S} (images ++ (img ∷ imgs), errs ++ news) in
      ap
        (λ (m : Exec (World S) (List Error)).
          (m >>= (λ new. import_loop c ctx opt imgs (images ++ (img ∷ [])) (errs ++ new))) w)
        (fun_ext (import_unpack-one img))
      ∙ bind_cong unpack _ _ w (λ new.
        import_loop-each imgs (images ++ (img ∷ [])) (errs ++ new) (unpack w).1
        ∙ bind_cong each _ _ (unpack w).1
            (λ rest. added img imgs images errs new rest (each (unpack w).1).1)
        ∙ sym (bind_assoc each (λ rest. pure {W = World S} (new ++ rest)) add (unpack w).1))
      ∙ sym (bind_assoc unpack (λ new. each >>= (λ rest. pure {W = World S} (new ++ rest))) add w)
