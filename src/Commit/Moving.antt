-- ===== src/Commit/Moving.antt =====
-- What Commit relies on in the snapshotter and the unpacker: Commit of the snapshotter moves the
-- active snapshot of a key to a new name, or reports that the name is there; unpacking only adds
-- snapshots. And the snapshot after the layer of a commit has been applied.
use containerdosstore.Prelude.{
  String, ◌==◌, true, Option, none, some, List, [], ◌∷◌, if◌then◌else◌, ◌≡◌, ◌∙◌, refl, ap, arith,
  eq_iff,
}
use containerdosstore.Exec.{
  Error, Exec, Attempt, failed, returned, attempt, ok, err, pure, throw, is_already_exists,
}
use containerdosstore.Exec.Cases.{if_cases, attempt-world}
use containerdosstore.Exec.Inversion.{bind-returns, attempt-ok, attempt-failed}
use containerdosstore.Exec.Keeps.{Keeps}
use containerdosstore.Services.{Services}
use containerdosstore.Services.Types.{Descriptor, Image, Info}
use containerdosstore.Services.Frame.{Same, Shows, Keeps-shown, frame_rules}
use containerdosstore.World.{World, call}
use containerdosstore.OciStore.{OciStore}
use containerdosstore.Snapshots.Table.{Table, SnapshotLaws, find}
use containerdosstore.Snapshots.Pruning.{TableFrame}
use containerdosstore.Unpack.{ApplyCommitOpt, unpack_func}
use containerdosstore.Unpack.Views.{unpack_func-Keeps}
use containerdosstore.Commit.{committed_before, apply_diff_layer}

-- The snapshot of the key k has become one of the name n, with the same parent.
pub record Moved (k n : String) (t t' : Table) : Type 0 where
  pub active : Info
  pub was : find k t ≡ some active
  pub committed : Info
  pub parent : committed.parent ≡ active.parent
  pub new : find n t ≡ none
  pub finds :
      (j : String)
      → find j t' ≡ (if n == j then some committed else if k == j then none else find j t)

pub record CommitLaws {S : Services} {sn : S.Snapshotter} (L : SnapshotLaws S sn) : Type 0 where
  pub tables : TableFrame L
  pub commit_moves :
      (ctx : Option S.Ctx) (n k : String) (os : List S.SnapshotOpt) (s : S.State)
      → (S.commit sn ctx n k os s).0 ≡ ok tt
      → Moved k n (L.table s) (L.table (S.commit sn ctx n k os s).1)
  pub commit_exists :
      (ctx : Option S.Ctx) (n k : String) (os : List S.SnapshotOpt) (s : S.State) (e : Error)
      → (S.commit sn ctx n k os s).0 ≡ err e
      → is_already_exists e ≡ true
      → (i : Info) × (find n (L.table (S.commit sn ctx n k os s).1) ≡ some i)
  pub table-new_unpacker :
      (ctx : Option S.Ctx) (p : S.Platform) (driver : String) (sn' : S.Snapshotter)
      (sos : List S.SnapshotOpt) (aos : List S.ApplyOpt)
      → Same L.table (S.new_unpacker ctx p driver sn' sos aos)
  pub walk_adds :
      (ctx : Option S.Ctx) (h : Option S.Ctx → Descriptor → Exec S.State (List Descriptor))
      (d : Descriptor) (s : S.State) (j : String) (i : Info)
      → find j (L.table s) ≡ some i
      → find j (L.table (S.walk_not_empty ctx h d s).1) ≡ some i
  pub wait_adds :
      (u : S.Unpacker) (s : S.State) (j : String) (i : Info)
      → find j (L.table s) ≡ some i
      → find j (L.table (S.wait u s).1) ≡ some i

module _ {S : Services} (c : OciStore S) (L : SnapshotLaws S (S.snapshot_service c.driver))
    (M : CommitLaws L) where
  abbrev pub table : World S → Table
  table w = L.table w.services

  -- The snapshot of that name is there.
  pub record Has (j : String) (i : Info) (w : World S) : Type 0 where
    pub found : find j (table w) ≡ some i

  module _ (j : String) (i : Info) where
    Has-call :
        {A : Type 0} (m : Exec S.State A)
        → ((s : S.State) → find j (L.table s) ≡ some i → find j (L.table (m s).1) ≡ some i)
        → Keeps (Has j i) (call {S = S} m)
    unfolding call
    Has-call m adds = record { at = λ w h. record { found = adds w.services h.found } }

    Has-same : {A : Type 0} (m : Exec S.State A) → Same L.table m → Keeps (Has j i) (call {S = S} m)
    Has-same m same = Has-call m (λ s h. ap (find j) (same s) ∙ h)

    pub unpack_func-Has :
        (ctx : Option S.Ctx) (img : Image) (os : List (ApplyCommitOpt S))
        → Keeps (Has j i) (unpack_func c ctx img os)
    unpack_func-Has ctx img os =
        unpack_func-Keeps
          (record {
            asks = λ ctx img driver. Has-same _ (M.tables.frame.is_unpacked ctx img driver);
            makes = λ ctx p driver sn sos aos.
                Has-same _ (M.table-new_unpacker ctx p driver sn sos aos);
            walks = λ ctx h d. Has-call _ (λ s p. M.walk_adds ctx h d s j i p);
            waits = λ u. Has-call _ (λ s p. M.wait_adds u s j i p);
          })
          c ctx img os

  -- After the layer has been applied there is a snapshot of the name.
  module _ (ctx : Option S.Ctx) (name key : String) where
    abbrev committing : Exec (World S) (Unit {0})
    committing = call (
        S.commit (S.snapshot_service c.driver) ctx name key
          (S.with_labels (("containerd.io/snapshot.ref", name) ∷ []) ∷ []))

    committed_before-found :
        (a : Attempt (Unit {0})) (w v : World S)
        → ((u : Unit {0}) → a ≡ returned u → (i : Info) × (find name (table w) ≡ some i))
        → ((e : Error)
            → a ≡ failed e
            → is_already_exists e ≡ true
            → (i : Info) × (find name (table w) ≡ some i))
        → (committed_before {S = S} a v).0 ≡ ok tt
        → (i : Info) × (find name (table w) ≡ some i)
    unfolding committed_before
    committed_before-found (returned u) w v moved there = λ e. moved u refl
    committed_before-found (failed x) w v moved there =
        if_cases (λ p. p.0 ≡ ok tt → (i : Info) × (find name (table w) ≡ some i))
          (is_already_exists x) (pure {W = World S} tt) (throw x) v (λ is _. there x refl is)
          (λ _ q. cc)

    table-committed_before :
        (a : Attempt (Unit {0})) (b : Table)
        → Keeps (Shows {S = S} L.table b) (committed_before {S = S} a)
    unfolding committed_before
    table-committed_before (returned x) b = search frame_rules
    table-committed_before (failed e) b = search frame_rules

    pub apply_diff_layer-found :
        (d : Descriptor) (w : World S)
        → (apply_diff_layer ctx name key (S.snapshot_service c.driver) d w).0 ≡ ok tt
        → (i : Info) × (find name
              (table (apply_diff_layer ctx name key (S.snapshot_service c.driver) d w).1)
            ≡ some i)
    unfolding apply_diff_layer call
    apply_diff_layer-found d w e =
        let sn = S.snapshot_service c.driver in
        let os = S.with_labels (("containerd.io/snapshot.ref", name) ∷ []) ∷ [] in
        let (mounts, e1, l1, s1) = bind-returns (call (S.mounts sn ctx key)) _ w tt e in
        let w1 = (call (S.mounts sn ctx key) w).1 in
        let (u, e2, l2, s2) = bind-returns (call (S.apply_diff ctx d mounts)) _ w1 tt l1 in
        let w2 = (call (S.apply_diff ctx d mounts) w1).1 in
        let (a, e3, l3, s3) = bind-returns (attempt committing) committed_before w2 tt l2 in
        let w3 = (attempt committing w2).1 in
        let at : w3 ≡ (committing w2).1 = attempt-world committing w2 in
        let (i, there) =
          committed_before-found a w3 w3
            (λ v q.
              let moved =
                M.commit_moves ctx name key os w2.services
                  (attempt-ok committing w2 v (e3 ∙ ap ok q)) in
              (
                moved.committed,
                ap (λ x. find name (table x)) at
                    ∙ ground (arith, moved.finds name, eq_iff name name),
              ))
            (λ x q is.
              let (i, h) =
                M.commit_exists ctx name key os w2.services x
                  (attempt-failed committing w2 x (e3 ∙ ap ok q)) is in
              (i, ap (λ x. find name (table x)) at ∙ h))
            l3 in
        (
          i,
          ap (λ (v : World S). find name (table v)) (s1 ∙ s2 ∙ s3)
              ∙ ap (find name)
                  (Keeps-shown L.table (committed_before a) (table-committed_before a) w3)
              ∙ there,
        )
