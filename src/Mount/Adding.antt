-- ===== src/Mount/Adding.antt =====
-- What a mount with a new key adds to the table of snapshots.
use containerdosstore.Prelude.{
  String, Bool, true, false, Option, none, some, List, ◌≡◌, ◌≢◌, ◌⊎◌, inl, inr, ◌∙◌, refl, sym, ap,
  subst, if◌then◌else◌,
}
use containerdosstore.Exec.{
  Error, Exec, ok, err, Attempt, failed, returned, attempt, throw, is_already_exists, on_error,
  apply_opts,
}
use containerdosstore.Exec.Cases.{attempt-world, if_cases}
use containerdosstore.Exec.Inversion.{
  bind-ok, bind-world, bind-returns, attempt-ok, attempt-failed, on_error-ok, ok_injective,
}
use containerdosstore.Exec.Keeps.{Keeps}
use containerdosstore.Services.{Services}
use containerdosstore.Services.Types.{Image, Digest}
use containerdosstore.Services.Frame.{Shows, Keeps-shown, frame_rules}
use containerdosstore.World.{World, call}
use containerdosstore.OciStore.{OciStore, report_on}
use containerdosstore.Snapshots.Table.{Table, SnapshotLaws, find}
use containerdosstore.Mount.{
  MountOpts, MountOpt, no_mount_opts, mount_key, existing_mounts, mount_snapshot, mount_unpack,
  mount_base, mount,
}
use containerdosstore.Mount.Laws.{Added, MountLaws}
use containerdosstore.Mount.Returned.{mount-Returned, Returned, snapshot_opts}

module _ {S : Services} (c : OciStore S) (L : SnapshotLaws S (S.snapshot_service c.driver))
    (M : MountLaws L) where
  abbrev table : World S → Table
  table w = L.table w.services

  abbrev making :
      Option S.Ctx → String → String → Bool → List S.SnapshotOpt → Exec (World S) S.Mounts
  making ctx key parent readonly os =
      let sn = S.snapshot_service c.driver in
      call (if readonly then S.view sn ctx key parent os else S.prepare sn ctx key parent os)

  module _ (ctx : Option S.Ctx) (key parent : String) (os : List S.SnapshotOpt) (w : World S) where
    making-Added :
        (readonly : Bool) (m : S.Mounts)
        → (making ctx key parent readonly os w).0 ≡ ok m
        → Added key parent (table w) (table (making ctx key parent readonly os w).1)
    unfolding call
    making-Added true m e = M.view_adds ctx key parent os w.services m e
    making-Added false m e = M.prepare_adds ctx key parent os w.services m e

    making-fails :
        (readonly : Bool)
        → ((m : S.Mounts) → (making ctx key parent readonly os w).0 ≢ ok m)
        → table (making ctx key parent readonly os w).1 ≡ table w
    unfolding call
    making-fails true never = M.view_fails ctx key parent os w.services never
    making-fails false never = M.prepare_fails ctx key parent os w.services never

    -- Where there is no snapshot of the key, none is taken that was there before.
    existing_mounts-Added :
        (v : World S) (made : Attempt S.Mounts) (m : S.Mounts)
        → find key (table w) ≡ none
        → ((x : S.Mounts) → made ≡ returned x → Added key parent (table w) (table v))
        → ((x : Error) → made ≡ failed x → table v ≡ table w)
        → (existing_mounts (S.snapshot_service c.driver) ctx key made v).0 ≡ ok m
        → Added key parent
            (table w)
            (table (existing_mounts (S.snapshot_service c.driver) ctx key made v).1)
    unfolding existing_mounts call
    existing_mounts-Added v (returned x) m new added same e = added x refl
    existing_mounts-Added v (failed x) m new added same e =
        if_cases (λ p. p.0 ≡ ok m → Added key parent (table w) (table p.1)) (is_already_exists x)
          (call (S.mounts (S.snapshot_service c.driver) ctx key)) (throw x) v
          (λ _ q.
            let (i, there) = M.mounts_found ctx key v.services m q in
            let new' : find key (table v) ≡ none = ap (find key) (same x refl) ∙ new in absurd cc)
          (λ _ q. cc) e

    mount_snapshot-Added :
        (img : Option Image) (readonly : Bool) (m : S.Mounts)
        → find key (table w) ≡ none
        → (mount_snapshot c ctx img key readonly parent os w).0 ≡ ok m
        → Added key parent (table w) (table (mount_snapshot c ctx img key readonly parent os w).1)
    unfolding mount_snapshot
    mount_snapshot-Added img readonly m new e =
        let make = making ctx key parent readonly os in
        let sn = S.snapshot_service c.driver in
        let (inner, world) = on_error-ok _ _ w m e in
        let (made, e1, left) = bind-ok (attempt make) _ w inner in
        let w1 = (attempt make w).1 in
        let w1-is : table w1 ≡ table (make w).1 = ap table (attempt-world make w) in
        let added = λ (x : S.Mounts) (q : made ≡ returned x).
          subst (Added key parent (table w)) (sym w1-is)
            (making-Added readonly x (attempt-ok make w x (e1 ∙ ap ok q))) in
        let same = λ (x : Error) (q : made ≡ failed x).
          w1-is
          ∙ making-fails readonly (λ m r.
            let failed_with : (make w).0 ≡ err x = attempt-failed make w x (e1 ∙ ap ok q) in cc) in
        subst (Added key parent (table w))
          (sym
            (ap table (world ∙ bind-world (attempt make) (existing_mounts sn ctx key) w made e1)))
          (existing_mounts-Added w1 made m new added same left)

  mount_key-Shows :
      (key target : String) (t : Table)
      → Keeps (Shows {S = S} L.table t) (mount_key {S = S} key target)
  unfolding mount_key
  mount_key-Shows key target t =
      search (frame_rules, M.tables.frame.nanosecond, M.tables.frame.random_bytes) depth 9

  mount_base-Shows :
      (ctx : Option S.Ctx) (img : Option Image) (t : Table)
      → Keeps (Shows {S = S} L.table t) (mount_base {S = S} ctx img)
  unfolding mount_base
  mount_base-Shows ctx none t = search (frame_rules, M.tables.frame.now)
  mount_base-Shows ctx (some img) t =
      search (frame_rules, M.tables.frame.now, M.tables.frame.root_fs) depth 9

  mount_unpack-none :
      (ctx : Option S.Ctx) (img : Option Image) (opt : MountOpts S) (b : Bool) (w : World S)
      → b ≡ false
      → (mount_unpack c ctx img opt b w).1 ≡ w
  unfolding mount_unpack
  mount_unpack-none ctx img opt false w e = refl
  mount_unpack-none ctx img opt true w e = cc

  module _ (img : Option Image) (target key : String) (readonly : Bool) (opts : List (MountOpt S))
      (w : World S) (k : String) where
    -- With a key that is new.
    pub Returned-Added :
        (r : Returned c img target key readonly opts w k)
        → r.opt.unpack ≡ false
        → find k (table w) ≡ none
        → Added k r.made.base.0 (table w) (table (mount c img target key readonly opts w).1)
    Returned-Added r packed new =
        let made = r.made in
        let ctx = r.lease.ctx in
        let snap =
          mount_snapshot c ctx img k readonly made.base.0 (snapshot_opts c r.opt made.base) in
        let snapped = (snap made.based).1 in
        let before : table made.based ≡ table w =
          ap table made.based-is
          ∙ Keeps-shown L.table (mount_base ctx img) (mount_base-Shows ctx img) made.unpacked
          ∙ ap table
              (made.unpacked-is ∙ mount_unpack-none ctx img r.opt r.opt.unpack r.leased packed)
          ∙ ap L.table r.leased-is
          ∙ M.tables.leases.with_lease _ _ r.started.services
          ∙ ap table r.started-is
          ∙ Keeps-shown L.table (mount_key key target) (mount_key-Shows key target) w in
        let after : table (mount c img target key readonly opts w).1 ≡ table snapped =
          ap table r.left
          ∙ ap L.table made.left
          ∙ M.tables.frame.mount_all made.mounts target snapped.services in
        subst (λ t. Added k made.base.0 t (table (mount c img target key readonly opts w).1)) before
          (subst (Added k made.base.0 (table made.based)) (sym after) (
            mount_snapshot-Added ctx k made.base.0 (snapshot_opts c r.opt made.base) made.based img
              readonly made.mounts (ap (find k) before ∙ new) made.snapshot))

  -- The parent of a snapshot that Mount makes of an image.
  pub record Based (img : Option Image) (p : String) : Type 0 where
    pub from :
        ((img ≡ none) × (p ≡ ""))
        ⊎ ((i : Image) × (ctx : Option S.Ctx) × (s : S.State) × (ds : List Digest) × (img ≡ some i)
            × ((S.root_fs ctx i s).0 ≡ ok ds)
            × (p ≡ S.chain_id ds))

  mount_base-Based :
      (ctx : Option S.Ctx) (img : Option Image) (w : World S)
      (base : String × List (String × String))
      → (mount_base {S = S} ctx img w).0 ≡ ok base
      → Based img base.0
  unfolding mount_base call
  mount_base-Based ctx none w base e =
      let (_, _, left, _) = bind-returns (call S.now) _ w base e in
      record {
        from = inl (
          refl,
          ap (λ (b : String × List (String × String)). b.0) (sym (ok_injective _ base left)),
        );
      }
  mount_base-Based ctx (some i) w base e =
      let (_, _, left, _) = bind-returns (call S.now) _ w base e in
      let w1 = (call S.now w).1 in
      let read = call (S.root_fs ctx i) in
      let report = report_on {S = S} "failed to get diff IDs of the image '%s': %v" i.name in
      let (ds, got, last, _) = bind-returns (on_error read report) _ w1 base left in
      let (found, _) = on_error-ok read report w1 ds got in
      record {
        from = inr (
          i,
          ctx,
          w1.services,
          ds,
          refl,
          found,
          ap (λ (b : String × List (String × String)). b.0) (sym (ok_injective _ base last)),
        );
      }

  -- Mount that returns a key for which there was no snapshot, without unpacking, has added one of that
  -- key and left every other one as it was. Its parent is "" where the image is nil, and else the
  -- chain id of the diff ids that RootFS returned for the image.
  pub mount-Added :
      (img : Option Image) (target key : String) (readonly : Bool) (opts : List (MountOpt S))
      (opt : MountOpts S) (w : World S) (k : String)
      → apply_opts opts no_mount_opts ≡ ok opt
      → opt.unpack ≡ false
      → find k (L.table w.services) ≡ none
      → (mount c img target key readonly opts w).0 ≡ ok k
      → (p : String) × Based img p
        × Added k p
            (L.table w.services)
            (L.table (mount c img target key readonly opts w).1.services)
  mount-Added img target key readonly opts opt w k options packed new e =
      let r = mount-Returned c img target key readonly opts w k e in
      let same_opt : opt ≡ r.opt = ok_injective opt r.opt (sym options ∙ r.options) in
      (
        r.made.base.0,
        mount_base-Based r.lease.ctx img r.made.unpacked r.made.base r.made.base-is,
        Returned-Added img target key readonly opts w k r
            (ap (λ (o : MountOpts S). o.unpack) (sym same_opt) ∙ packed) new,
      )
