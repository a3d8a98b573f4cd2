-- ===== src/Mount/RoundTrip.antt =====
-- Mount, and Umount of the key that it returned.
use containerdosstore.Prelude.{
  ℕ, ◌<◌, pos, String, Bool, true, false, Option, none, some, List, [], ◌∷◌, ◌++◌, ◌≡◌, ◌∙◌, refl,
  sym, ap, arith, eq_iff, length,
}
use containerdosstore.Exec.{Error, ok, apply_opts}
use containerdosstore.Exec.Inversion.{ok_injective}
use containerdosstore.Services.{Services}
use containerdosstore.Services.Types.{Image}
use containerdosstore.Services.Leases.{LeaseLaws}
use containerdosstore.Services.Deletion.{
  is_held, without_id, without_id-free, without_id-head, is_held-head, DeletionLaws,
}
use containerdosstore.Services.Named.{NamedLeases}
use containerdosstore.World.{World}
use containerdosstore.OciStore.{OciStore}
use containerdosstore.OciStore.Leasing.{KeepsLeases-held}
use containerdosstore.Snapshots.Table.{Table, SnapshotLaws, find, has_child, erase}
use containerdosstore.Snapshots.Prune.{find-erase}
use containerdosstore.Snapshots.Description.{prune_all, prune_all-one}
use containerdosstore.Mount.{
  MountOpts, MountOpt, no_mount_opts, mount, umount, mount_leased, mount_key,
}
use containerdosstore.Mount.Laws.{Added, MountLaws}
use containerdosstore.Mount.Adding.{Returned-Added}
use containerdosstore.Mount.Leases.{mount_leased-KeepsLeases, mount_key-KeepsLeases}
use containerdosstore.Mount.Released.{held-umount}
use containerdosstore.Mount.Returned.{mount-Returned, Returned}
use containerdosstore.Mount.Umount.{table-umount}

-- Taking off a snapshot that was added takes it away, and nothing else.
prune_all-Added :
    (k p : String) (t t' : Table)
    → Added k p t t'
    → has_child k t ≡ false
    → prune_all t' k (pos 0) ≡ erase k t'
prune_all-Added k p t t' a alone =
    prune_all-one t' k a.info (ground (arith, a.finds k, eq_iff k k)) (a.children ∙ alone)

find-erase-Added :
    (k p : String) (t t' : Table) → Added k p t t' → (j : String) → find j (erase k t') ≡ find j t
find-erase-Added k p t t' a j =
    ground (arith, find-erase k j t', a.finds j, a.new, ap (λ i. find i t), eq_iff k j)

module _ {S : Services} (c : OciStore S) (L : LeaseLaws S) (N : NamedLeases L) (img : Option Image)
    (target key : String) (readonly : Bool) (opts : List (MountOpt S)) (w : World S) (k : String)
    (plain : N.carries_lease c.ctx ≡ false) (free : is_held k (L.held w.services) ≡ false) where
  -- The lease of the key is taken, since it is not held before.
  lease_error-none :
      (r : Returned c img target key readonly opts w k) (x : Option Error)
      → r.lease.error ≡ x
      → L.held r.started.services ≡ L.held w.services
      → x ≡ none
  lease_error-none r none e same = refl
  lease_error-none r (some x) e same =
      let there : is_held k (L.held r.started.services) ≡ true =
        N.refuses_held c.ctx k _ r.started.services r.lease x r.taken e (r.passed x e) in
      absurd (ground (arith, there, free, ap (is_held k) same))

  -- A mount of a key whose lease is not held takes that one lease.
  held-mount :
      (mount c img target key readonly opts w).0 ≡ ok k
      → L.held (mount c img target key readonly opts w).1.services ≡ k ∷ L.held w.services
  held-mount e =
      let r = mount-Returned c img target key readonly opts w k e in
      let started : L.held r.started.services ≡ L.held w.services =
        ap (λ (v : World S). L.held v.services) r.started-is
        ∙ KeepsLeases-held L (mount_key key target) (mount_key-KeepsLeases L key target) w in
      let (d, done, took) = L.with_lease c.ctx _ r.started.services r.lease r.taken in
      let named : L.ids_of d ≡ k ∷ [] =
        N.takes_named c.ctx k _ r.started.services r.lease d plain r.taken
          (lease_error-none r r.lease.error refl started ∙ refl) done in
      ap (λ (v : World S). L.held v.services) r.left
      ∙ KeepsLeases-held L (mount_leased c r.lease.ctx img target k readonly r.opt)
          (mount_leased-KeepsLeases L c r.lease.ctx img target k readonly r.opt) r.leased
      ∙ ap L.held r.leased-is
      ∙ took
      ∙ ap (λ ids. ids ++ L.held r.started.services) named
      ∙ ap (λ (ids : List String). k ∷ ids) started

module _ {S : Services} (c : OciStore S) (L : SnapshotLaws S (S.snapshot_service c.driver))
    (M : MountLaws L) (H : LeaseLaws S) (D : DeletionLaws H) (N : NamedLeases H) where
  -- A mount of a key that stands for no snapshot and no lease, without unpacking, adds that snapshot
  -- and that lease; Umount of the target that is told to remove the one snapshot, and returns no
  -- error, takes both away again, on a store whose context carries no lease and if no call of `done`
  -- fails: every snapshot is found, or missing, as before the mount, and the leases held are those
  -- before it.
  pub umount-mount :
      (img : Option Image) (target key : String) (readonly : Bool) (opts : List (MountOpt S))
      (opt : MountOpts S) (w : World S) (k : String) (fuel : ℕ) (j : String)
      → let mounted = (mount c img target key readonly opts w).1 in
        N.carries_lease c.ctx ≡ false
        → apply_opts opts no_mount_opts ≡ ok opt
        → opt.unpack ≡ false
        → find k (L.table w.services) ≡ none
        → has_child k (L.table w.services) ≡ false
        → is_held k (H.held w.services) ≡ false
        → (mount c img target key readonly opts w).0 ≡ ok k
        → length (L.table mounted.services) < fuel
        → (umount fuel c target k (pos 1) mounted).0 ≡ ok tt
        → (find j (L.table (umount fuel c target k (pos 1) mounted).1.services)
            ≡ find j (L.table w.services))
          × (H.held (umount fuel c target k (pos 1) mounted).1.services ≡ H.held w.services)
  umount-mount img target key readonly opts opt w k fuel j plain options packed new alone free e
        enough gone =
      let mounted = (mount c img target key readonly opts w).1 in
      let r = mount-Returned c img target key readonly opts w k e in
      let same_opt : opt ≡ r.opt = ok_injective opt r.opt (sym options ∙ r.options) in
      let added =
        Returned-Added c L M img target key readonly opts w k r
          (ap (λ (o : MountOpts S). o.unpack) (sym same_opt) ∙ packed) new in
      let held : H.held mounted.services ≡ k ∷ H.held w.services =
        held-mount c H N img target key readonly opts w k plain free e in
      (
        ap (find j) (
              table-umount c L M.tables fuel target k (pos 1) mounted enough gone
              ∙ prune_all-Added k _ _ _ added alone)
            ∙ find-erase-Added k _ _ _ added j,
        held-umount c H D fuel target k (pos 1) mounted refl
              (ap (is_held k) held ∙ is_held-head k (H.held w.services)) gone
            ∙ ap (without_id k) held
            ∙ without_id-head k (H.held w.services)
            ∙ without_id-free k (H.held w.services) free,
      )
