-- ===== src/Image/Removal.antt =====
-- What Delete without an error leaves of the images and of the table of snapshots.
use containerdosstore.Prelude.{
  is_some, ℕ, ◌<◌, negsuc, String, Bool, true, false, Option, none, some, List, [], ◌∷◌, ◌≡◌, ◌∙◌,
  refl, sym, ap, length, subst,
}
use containerdosstore.Exec.{Exec, ok, on_error, ◌>>◌}
use containerdosstore.Exec.Inversion.{bind-ok, bind-world, on_error-ok}
use containerdosstore.Services.{Services}
use containerdosstore.Services.Types.{Digest, Image}
use containerdosstore.Services.Frame.{Same, LeaseFrame, frame_rules, Keeps-shown}
use containerdosstore.World.{World, call, infof}
use containerdosstore.OciStore.{OciStore, acquire, finish, report, report_on}
use containerdosstore.OciStore.Steady.{leased-ok, guarded-ok, acquire-Shows, finish-Shows}
use containerdosstore.Snapshots.Table.{Table, find}
use containerdosstore.Snapshots.Chain.{remove_snapshots_chain}
use containerdosstore.Snapshots.Removal.{table-remove_snapshots_chain}
use containerdosstore.Snapshots.Description.{prune_all, prune_all-missing}
use containerdosstore.Image.{remove_unpacked, delete_func, delete}
use containerdosstore.Image.Names.{images-delete_func}
use containerdosstore.Image.Laws.{found_image, without, UnpackedLaws}

is_some-false {ℓ} : {A : Type ℓ} (o : Option A) → is_some o ≡ false → o ≡ none
is_some-false none e = refl
is_some-false (some a) e = cc

module _ {S : Services} (c : OciStore S) (U : UnpackedLaws S c.driver) where
  abbrev table : S.State → Table
  table s = U.snapshots.table s

  abbrev images : S.State → List Image
  images s = U.laws.images s

  -- The table, the images and their layers.
  abbrev Seen : Type 0
  Seen = Table × List Image × (Image → List Digest)

  abbrev seen : S.State → Seen
  seen s = (table s, images s, U.laws.layers s)

  seen-Same :
      {A : Type 0} (m : Exec S.State A)
      → Same table m
      → Same images m
      → Same U.laws.layers m
      → Same seen m
  seen-Same m t i l s = cc (t s, i s, l s)

  seen-LeaseFrame : LeaseFrame S seen
  seen-LeaseFrame =
      let T = U.laws.tables.leases in
      let I = U.laws.image_leases in
      let Y = U.laws.layer_leases in
      record {
        with_lease = λ ctx os.
            seen-Same (S.with_lease ctx os) (T.with_lease ctx os) (I.with_lease ctx os)
              (Y.with_lease ctx os);
        release = λ d ctx.
            seen-Same (S.release d ctx) (T.release d ctx) (I.release d ctx) (Y.release d ctx);
        delete_lease = λ ctx k.
            seen-Same (S.delete_lease ctx k) (T.delete_lease ctx k) (I.delete_lease ctx k)
              (Y.delete_lease ctx k);
      }

  -- An image of that name was there; its chain goes from the table as `prune_all` describes, and the
  -- name from the images.
  pub record Deleted (name : String) (before : Seen) (t : Table) (is : List Image) : Type 0 where
    pub img : Image
    pub found : found_image name before.1 ≡ some img
    pub snapshots : t ≡ prune_all before.0 (S.chain_id (before.2 img)) (negsuc 0)
    pub kept : is ≡ without name before.1

  module _ (fuel : ℕ) (ctx : Option S.Ctx) (v : Seen) (enough : length v.0 < fuel) where
    -- The chain goes, where the image is unpacked; where it is not there is none.
    remove_unpacked-ok :
        (img : Image) (b : Bool) (w : World S)
        → seen w.services ≡ v
        → b ≡ is_some (find (S.chain_id (v.2 img)) v.0)
        → (remove_unpacked fuel c ctx img b w).0 ≡ ok tt
        → table (remove_unpacked fuel c ctx img b w).1.services
          ≡ prune_all v.0 (S.chain_id (v.2 img)) (negsuc 0)
    unfolding remove_unpacked call
    remove_unpacked-ok img false w h tells e =
        ap (λ (x : Seen). x.0) h
        ∙ sym
            (prune_all-missing v.0 (S.chain_id (v.2 img)) (negsuc 0) (is_some-false _ (sym tells)))
    remove_unpacked-ok img true w h tells e =
        let read = call (S.root_fs ctx img) in
        let (ds, e1, left) = bind-ok read _ w e in
        let w1 = (read w).1 in
        let t1 : table w1.services ≡ v.0 =
          U.laws.tables.frame.root_fs ctx img w.services ∙ ap (λ (x : Seen). x.0) h in
        let ids : ds ≡ v.2 img =
          U.laws.root_fs_layers ctx img w.services ds e1 ∙ ap (λ (x : Seen). x.2 img) h in
        let whole =
          bind-world read
            (λ x.
              remove_snapshots_chain fuel ctx (S.snapshot_service c.driver) (S.chain_id x)
                (negsuc 0))
            w ds e1 in
        ap (λ (x : World S). table x.services) whole
        ∙ table-remove_snapshots_chain U.snapshots ctx fuel (S.chain_id ds) (negsuc 0) w1
            (subst (λ x. length x < fuel) (sym t1) enough) left
        ∙ cc (t1, ids)

    delete_func-ok :
        (name : String) (os : List S.DeleteOpt) (w : World S)
        → seen w.services ≡ v
        → (delete_func fuel c ctx name os w).0 ≡ ok tt
        → Deleted name v
            (table (delete_func fuel c ctx name os w).1.services)
            (images (delete_func fuel c ctx name os w).1.services)
    unfolding delete_func call
    delete_func-ok name os w h e =
        let get = call (S.get_image ctx name) in
        let (img, e1, left1) = bind-ok get _ w e in
        let w1 = (get w).1 in
        let h1 : seen w1.services ≡ v =
          seen-Same (S.get_image ctx name) (U.laws.tables.frame.get_image ctx name)
            (U.laws.images-get_image ctx name) (U.laws.layers-get_image ctx name) w.services
          ∙ h in
        let ask = call (S.is_unpacked ctx img c.driver) in
        let (b, e2, left2) = bind-ok ask _ w1 left1 in
        let w2 = (ask w1).1 in
        let h2 : seen w2.services ≡ v =
          seen-Same (S.is_unpacked ctx img c.driver)
            (U.laws.tables.frame.is_unpacked ctx img c.driver)
            (U.laws.images-is_unpacked ctx img c.driver)
            (U.laws.layers-is_unpacked ctx img c.driver) w1.services
          ∙ h1 in
        let clear = remove_unpacked fuel c ctx img b in
        let (u, e3, left3) = bind-ok clear _ w2 left2 in
        let w3 = (clear w2).1 in
        let tells : b ≡ is_some (find (S.chain_id (v.2 img)) v.0) =
          U.is_unpacked_tells ctx img w1.services b e2
          ∙ ap (λ (x : Seen). is_some (find (S.chain_id (x.2 img)) x.0)) h1 in
        let t3 = remove_unpacked-ok img b w2 h2 tells e3 in
        let rest = λ (_ : Unit {0}). call (S.delete_image ctx name os) in
        let whole : (delete_func fuel c ctx name os w).1 ≡ (rest tt w3).1 =
          bind-world get _ w img e1 ∙ bind-world ask _ w1 b e2 ∙ bind-world clear rest w2 u e3 in
        record {
          img = img;
          found =
              sym (ap (λ (x : Seen). found_image name x.1) h)
              ∙ U.laws.get_image_found ctx name w.services img e1;
          snapshots =
              ap (λ (x : World S). table x.services) whole
              ∙ U.laws.tables.frame.delete_image ctx name os w3.services
              ∙ t3;
          kept =
              images-delete_func c U ctx fuel name os w e ∙ ap (λ (x : Seen). without name x.1) h;
        }

  module _ (fuel : ℕ) (name : String) (os : List S.DeleteOpt) (w : World S) where
    abbrev deletion : Option S.Ctx → Exec (World S) (Unit {0})
    deletion ctx = do
      on_error (delete_func fuel c ctx name os) (report_on "failed deleting image '%s': %v" name)
      infof "Successfully deleted image '%s'" (name ∷ [])

    -- Delete that returns no error, given more fuel than there are snapshots, found an image of that
    -- name. It leaves of the table what `prune_all` describes, from the image's chain of layers on
    -- and with all its parents, and of the images those of another name.
    pub delete-Deleted :
        length (table w.services) < fuel
        → (delete fuel c name os w).0 ≡ ok tt
        → Deleted name
            (seen w.services)
            (table (delete fuel c name os w).1.services)
            (images (delete fuel c name os w).1.services)
    unfolding delete
    delete-Deleted enough e =
        let rep = report "failed to create lease to delete image: %v" in
        let warning : String = "could not remove lease on delete image operation" in
        let v = seen w.services in
        let (_, run, same) = guarded-ok c _ w tt e in
        let (l, taken, ran, whole) = leased-ok c [] rep warning deletion w tt run in
        let w1 = (acquire c [] rep w).1 in
        let h1 : seen w1.services ≡ v =
          Keeps-shown seen (acquire c [] rep)
            (λ b. acquire-Shows seen-LeaseFrame b c [] rep (λ x. search frame_rules)) w in
        let core =
          on_error (delete_func fuel c l.ctx name os)
            (report_on "failed deleting image '%s': %v" name) in
        let tell = infof "Successfully deleted image '%s'" (name ∷ []) in
        let (u, e1, _) = bind-ok core _ w1 ran in
        let (e2, w2) = on_error-ok (delete_func fuel c l.ctx name os) _ w1 u e1 in
        let d = delete_func-ok fuel l.ctx v enough name os w1 h1 e2 in
        let last : seen (delete fuel c name os w).1.services
            ≡ seen (delete_func fuel c l.ctx name os w1).1.services =
          ap (λ (x : World S). seen x.services) (same ∙ whole)
          ∙ Keeps-shown seen (finish l warning none)
              (λ b. finish-Shows seen-LeaseFrame b l warning none) (deletion l.ctx w1).1
          ∙ ap (λ (x : World S). seen x.services) (bind-world core (λ _. tell) w1 u e1)
          ∙ Keeps-shown seen tell (λ b. search frame_rules) (core w1).1
          ∙ ap (λ (x : World S). seen x.services) w2 in
        record {
          img = d.img;
          found = d.found;
          snapshots = ap (λ (x : Seen). x.0) last ∙ d.snapshots;
          kept = ap (λ (x : Seen). x.1) last ∙ d.kept;
        }
