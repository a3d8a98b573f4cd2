-- ===== src/Commit/Got.antt =====
-- Commit, and Get of the image that it returned.
use containerdosstore.Prelude.{String, some, List, ◌≡◌, ◌∙◌, sym, ap, arith, eq_iff}
use containerdosstore.Exec.{ok}
use containerdosstore.Services.{Services}
use containerdosstore.Services.Types.{Image}
use containerdosstore.World.{World, call}
use containerdosstore.OciStore.{OciStore}
use containerdosstore.OciStore.Steady.{guarded-ok}
use containerdosstore.Image.{get}
use containerdosstore.Image.Laws.{found_image}
use containerdosstore.Commit.{CommitImgOpt, commit, label_of}
use containerdosstore.Commit.Images.{ImageStoreLaws, Stores, commit-Stores}
use containerdosstore.Commit.Returned.{commit-Returned}
use mathlib.Core.Option.{some-injective}

-- What is found under the name of a record that was stored.
Stores-found :
    (i j : Image) (before after : List Image) (s : Stores i before after)
    → found_image i.name after ≡ some j
    → s.image ≡ j
Stores-found i j before after s e =
    some-injective s.image j (ground (arith, s.finds i.name, eq_iff i.name i.name, e))

module _ {S : Services} (I : ImageStoreLaws S) (c : OciStore S) where
  get-found :
      (name : String) (w : World S) (j : Image)
      → (get c name w).0 ≡ ok j
      → found_image name (I.images w.services) ≡ some j
  unfolding get call
  get-found name w j e =
      let (_, run, _) = guarded-ok c (call (S.get_image c.ctx name)) w j e in
      I.get_gives c.ctx name w.services j run

  -- Get of the name of an image that Commit returned, where it returns an image, returns one with the
  -- target and the labels of that image.
  pub get-commit :
      (key : String) (opts : List (CommitImgOpt S)) (w : World S) (img j : Image) (k : String)
      → (commit c key opts w).0 ≡ ok img
      → (get c img.name (commit c key opts w).1).0 ≡ ok j
      → (j.name ≡ img.name)
        × (j.target ≡ img.target)
        × (label_of j.labels k ≡ label_of img.labels k)
  get-commit key opts w img j k e got =
      let r = commit-Returned c key opts w img e in
      let (_, stores) = commit-Stores I c key opts r.opt w img r.options e in
      let is = Stores-found img j _ _ stores (get-found img.name (commit c key opts w).1 j got) in
      (
        ap (λ (i : Image). i.name) (sym is) ∙ stores.name,
        ap (λ (i : Image). i.target) (sym is) ∙ stores.target,
        ap (λ (i : Image). label_of i.labels k) (sym is) ∙ stores.labels k,
      )
