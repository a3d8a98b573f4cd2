-- ===== src/Mount/Found.antt =====
-- The snapshot behind a mount.
use containerdosstore.Prelude.{
  String, ◌==◌, Bool, true, false, Option, some, List, if◌then◌else◌, ◌≡◌, ◌⊎◌, inl, inr, ◌∙◌, refl,
  sym, ap, arith, eq_iff,
}
use containerdosstore.Exec.{ok, Attempt, failed, returned, attempt, is_already_exists, pure}
use containerdosstore.Exec.Cases.{attempt-world, if_cases}
use containerdosstore.Exec.Inversion.{bind-ok, bind-world, attempt-ok, on_error-ok, ok_injective}
use containerdosstore.Services.{Services}
use containerdosstore.Services.Types.{Image, Info}
use containerdosstore.World.{World, call}
use containerdosstore.OciStore.{OciStore}
use containerdosstore.Snapshots.Table.{Table, SnapshotLaws, find}
use containerdosstore.Mount.Laws.{Added, MountLaws}
use containerdosstore.Mount.Returned.{mount-Returned, snapshot_opts}
use containerdosstore.Mount.{MountOpt, mount_key, existing_mounts, mount_snapshot, mount}

module _ {S : Services} (c : OciStore S) (L : SnapshotLaws S (S.snapshot_service c.driver))
    (M : MountLaws L) where
  abbrev Found : String → World S → Type 0
  Found k w = (i : Info) × (find k (L.table w.services) ≡ some i)

  Found-same :
      (k : String) (w w' : World S)
      → L.table w'.services ≡ L.table w.services
      → Found k w
      → Found k w'
  Found-same k w w' e (i, f) = (i, ap (find k) e ∙ f)

  Added-Found : (k p : String) (t t' : Table) → Added k p t t' → (i : Info) × (find k t' ≡ some i)
  Added-Found k p t t' a = (a.info, ground (arith, a.finds k, eq_iff k k))

  made-Found :
      (ctx : Option S.Ctx) (key parent : String) (readonly : Bool) (os : List S.SnapshotOpt)
      (w : World S) (m : S.Mounts)
      → let sn = S.snapshot_service c.driver in
        let make =
          call (if readonly then S.view sn ctx key parent os else S.prepare sn ctx key parent os) in
        (make w).0 ≡ ok m → Found key (make w).1
  unfolding call
  made-Found ctx key parent true os w m e =
      Added-Found key parent _ _ (M.view_adds ctx key parent os w.services m e)
  made-Found ctx key parent false os w m e =
      Added-Found key parent _ _ (M.prepare_adds ctx key parent os w.services m e)

  -- Where making it did not succeed the snapshot is one that was there.
  existing_mounts-Found :
      (ctx : Option S.Ctx) (key : String) (made : Attempt S.Mounts) (w : World S) (m : S.Mounts)
      → ((x : S.Mounts) → made ≡ returned x → Found key w)
      → (existing_mounts (S.snapshot_service c.driver) ctx key made w).0 ≡ ok m
      → Found key (existing_mounts (S.snapshot_service c.driver) ctx key made w).1
  unfolding existing_mounts call
  existing_mounts-Found ctx key (returned x) w m there e = there x refl
  existing_mounts-Found ctx key (failed x) w m there e =
      if_cases (λ p. p.0 ≡ ok m → Found key p.1) (is_already_exists x)
        (call (S.mounts (S.snapshot_service c.driver) ctx key)) _ w
        (λ _ q.
          Found-same key w (call (S.mounts (S.snapshot_service c.driver) ctx key) w).1
            (M.tables.frame.mounts _ ctx key w.services) (M.mounts_found ctx key w.services m q))
        (λ _ q. cc) e

  mount_snapshot-Found :
      (ctx : Option S.Ctx) (img : Option Image) (key parent : String) (readonly : Bool)
      (os : List S.SnapshotOpt) (w : World S) (m : S.Mounts)
      → (mount_snapshot c ctx img key readonly parent os w).0 ≡ ok m
      → Found key (mount_snapshot c ctx img key readonly parent os w).1
  unfolding mount_snapshot
  mount_snapshot-Found ctx img key parent readonly os w m e =
      let sn = S.snapshot_service c.driver in
      let make =
        call (if readonly then S.view sn ctx key parent os else S.prepare sn ctx key parent os) in
      let (inner, world) = on_error-ok _ _ w m e in
      let (made, e1, left) = bind-ok (attempt make) _ w inner in
      let w1 = (attempt make w).1 in
      let there = λ (x : S.Mounts) (q : made ≡ returned x).
        Found-same key (make w).1 w1
          (ap (λ (v : World S). L.table v.services) (attempt-world make w))
          (made-Found ctx key parent readonly os w x (attempt-ok make w x (e1 ∙ ap ok q))) in
      Found-same key (existing_mounts sn ctx key made w1).1
        (mount_snapshot c ctx img key readonly parent os w).1
        (ap (λ (v : World S). L.table v.services)
          (world ∙ bind-world (attempt make) (existing_mounts sn ctx key) w made e1))
        (existing_mounts-Found ctx key made w1 m there left)

  -- A made-up key replaces the empty one only.
  mount_key-kept :
      (key target : String) (w : World S) (k : String)
      → (mount_key key target w).0 ≡ ok k
      → (key ≡ "") ⊎ (k ≡ key)
  unfolding mount_key
  mount_key-kept key target w k =
      if_cases (λ p. p.0 ≡ ok k → (key ≡ "") ⊎ (k ≡ key)) (key == "") _ (pure {W = World S} key) w
        (λ q e. inl (ground (arith, eq_iff key "", q))) (λ _ e. inr (sym (ok_injective key k e)))

  -- Mount that returns a key returns the one that it is given, unless that is empty, and the snapshot
  -- of the key that it returns is in the table.
  pub mount-Found :
      (img : Option Image) (target key : String) (readonly : Bool) (opts : List (MountOpt S))
      (w : World S) (k : String)
      → (mount c img target key readonly opts w).0 ≡ ok k
      → ((key ≡ "") ⊎ (k ≡ key))
        × ((i : Info) × (find k (L.table (mount c img target key readonly opts w).1.services)
              ≡ some i))
  mount-Found img target key readonly opts w k e =
      let r = mount-Returned c img target key readonly opts w k e in
      let made = r.made in
      let snap =
        mount_snapshot c r.lease.ctx img k readonly made.base.0 (snapshot_opts c r.opt made.base) in
      let snapped = (snap made.based).1 in
      (
        mount_key-kept key target w k r.named,
        Found-same k snapped (mount c img target key readonly opts w).1
            (ap (λ (v : World S). L.table v.services) r.left
              ∙ ap L.table made.left
              ∙ M.tables.frame.mount_all made.mounts target snapped.services)
            (mount_snapshot-Found r.lease.ctx img k made.base.0 readonly _ made.based made.mounts
              made.snapshot),
      )
