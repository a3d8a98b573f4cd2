-- ===== src/Mount/Leases.antt =====
-- The lease of Mount, which carries the key of the snapshot.
use containerdosstore.Prelude.{
  String, Bool, true, false, Option, none, some, List, ◌++◌, ◌≡◌, ◌∙◌, refl, ap, sym,
}
use containerdosstore.Exec.{
  Error, Outcome, err, Attempt, failed, returned, ◌>>=◌, ◌>>◌, lift, apply_opts, defer,
}
use containerdosstore.Services.{Services, Leased}
use containerdosstore.Services.Types.{Image}
use containerdosstore.Services.Frame.{frame_rules}
use containerdosstore.Services.Leases.{LeaseLaws}
use containerdosstore.World.{World, call}
use containerdosstore.OciStore.{OciStore, guarded, is_initiated}
use containerdosstore.OciStore.Leasing.{KeepsLeases, KeepsLeases-held}
use containerdosstore.Unpack.Leases.{unpack_func-KeepsLeases}
use containerdosstore.Mount.{
  MountOpts, MountOpt, mount_key, report_image, mount_unpack, mount_base, existing_mounts,
  mount_snapshot, report_cleanup, mount_target, mount_leased, check_mount_lease, release_on_error,
  release_quietly, mount, no_mount_opts, mount_lease_opts,
}
use containerdosstore.Exec.Cases.{try_cases, bind_cases, if_cases, defer_cases}
use mathlib.Core.Option.{some-injective}

module _ {S : Services} (L : LeaseLaws S) where
  pub mount_key-KeepsLeases : (key target : String) → KeepsLeases L (mount_key {S = S} key target)
  unfolding mount_key
  mount_key-KeepsLeases key target l =
      search (frame_rules, L.frame.nanosecond, L.frame.random_bytes) depth 9

  report_image-KeepsLeases :
      (img : Option Image) (format : String) (e : Error)
      → KeepsLeases L (report_image {S = S} img format e)
  unfolding report_image
  report_image-KeepsLeases none format e l = search frame_rules
  report_image-KeepsLeases (some img) format e l = search frame_rules

  mount_unpack-KeepsLeases :
      (c : OciStore S) (ctx : Option S.Ctx) (img : Option Image) (opt : MountOpts S) (b : Bool)
      → KeepsLeases L (mount_unpack c ctx img opt b)
  unfolding mount_unpack
  mount_unpack-KeepsLeases c ctx img opt false l = search frame_rules
  mount_unpack-KeepsLeases c ctx none opt true l = search frame_rules
  mount_unpack-KeepsLeases c ctx (some img) opt true l =
      search (frame_rules, unpack_func-KeepsLeases L) depth 9

  mount_base-KeepsLeases :
      (ctx : Option S.Ctx) (img : Option Image) → KeepsLeases L (mount_base {S = S} ctx img)
  unfolding mount_base
  mount_base-KeepsLeases ctx none l = search (frame_rules, L.frame.now)
  mount_base-KeepsLeases ctx (some img) l =
      search (frame_rules, L.frame.now, L.frame.root_fs) depth 9

  existing_mounts-KeepsLeases :
      (sn : S.Snapshotter) (ctx : Option S.Ctx) (key : String) (a : Attempt S.Mounts)
      → KeepsLeases L (existing_mounts sn ctx key a)
  unfolding existing_mounts
  existing_mounts-KeepsLeases sn ctx key (returned m) l = search frame_rules
  existing_mounts-KeepsLeases sn ctx key (failed e) l = search (frame_rules, L.frame.mounts)

  mount_snapshot-KeepsLeases :
      (c : OciStore S) (ctx : Option S.Ctx) (img : Option Image) (key : String) (readonly : Bool)
      (parent : String) (opts : List S.SnapshotOpt)
      → KeepsLeases L (mount_snapshot c ctx img key readonly parent opts)
  unfolding mount_snapshot
  mount_snapshot-KeepsLeases c ctx img key true parent opts l =
      search (frame_rules, L.view, existing_mounts-KeepsLeases, report_image-KeepsLeases) depth 9
  mount_snapshot-KeepsLeases c ctx img key false parent opts l =
      search (frame_rules, L.prepare, existing_mounts-KeepsLeases, report_image-KeepsLeases) depth 9

  report_cleanup-KeepsLeases : (a : Attempt (Unit {0})) → KeepsLeases L (report_cleanup {S = S} a)
  unfolding report_cleanup
  report_cleanup-KeepsLeases (returned x) l = search frame_rules
  report_cleanup-KeepsLeases (failed e) l = search frame_rules

  mount_target-KeepsLeases :
      (c : OciStore S) (ctx : Option S.Ctx) (img : Option Image) (target key : String)
      (m : S.Mounts)
      → KeepsLeases L (mount_target c ctx img target key m)
  unfolding mount_target
  mount_target-KeepsLeases c ctx img target key m l =
      search
        (
          frame_rules, L.frame.mount_all, L.remove, report_cleanup-KeepsLeases,
          report_image-KeepsLeases,
        )
        depth 9

  pub mount_leased-KeepsLeases :
      (c : OciStore S) (ctx : Option S.Ctx) (img : Option Image) (target key : String)
      (readonly : Bool) (opt : MountOpts S)
      → KeepsLeases L (mount_leased c ctx img target key readonly opt)
  unfolding mount_leased
  mount_leased-KeepsLeases c ctx img target key readonly opt l =
      search
        (
          frame_rules, mount_unpack-KeepsLeases, mount_base-KeepsLeases, mount_snapshot-KeepsLeases,
          mount_target-KeepsLeases,
        )
        depth 12

  check_mount_lease-KeepsLeases :
      (l : Leased S.Ctx S.Done) (x : Option Error) → KeepsLeases L (check_mount_lease {S = S} l x)
  unfolding check_mount_lease
  check_mount_lease-KeepsLeases l none h = search frame_rules
  check_mount_lease-KeepsLeases l (some e) h = search frame_rules

  -- An error of the check is an error of WithLease.
  check_mount_lease-err :
      (l : Leased S.Ctx S.Done) (x : Option Error) (w : World S) (e : Error)
      → (check_mount_lease l x w).0 ≡ err e
      → (y : Error) × (x ≡ some y)
  unfolding check_mount_lease
  check_mount_lease-err l none w e q = cc
  check_mount_lease-err l (some y) w e q = (y, refl)

  release_quietly-held :
      (o : Option S.Done) (ctx : Option S.Ctx) (d : S.Done) (w : World S) (h : List String)
      → o ≡ some d
      → L.held w.services ≡ L.ids_of d ++ h
      → L.held (release_quietly o ctx w).1.services ≡ h
  unfolding release_quietly call
  release_quietly-held none ctx d w h e held = cc
  release_quietly-held (some x) ctx d w h e held =
      let is = held ∙ ap (λ (y : S.Done). L.ids_of y ++ h) (sym (some-injective x d e)) in
      let given : L.held (S.release x ctx w.services).1 ≡ h =
        L.release x ctx w.services h is (L.done_succeeds x ctx w.services h is) in
      let m = call (S.release x ctx) in
      try_cases (λ p. L.held p.1.services ≡ h) m _ w (λ a _. given) (λ y _. given) (λ _. given)
        (λ _. given)

  -- The rest of Mount, from WithLease on.
  abbrev Fails : List String → Outcome String × World S → Type 0
  Fails h p = (e : Error) → p.0 ≡ err e → L.held p.1.services ≡ h

  mount_taken :
      (c : OciStore S) (img : Option Image) (target key : String) (readonly : Bool)
      (opt : MountOpts S) (w : World S) (h : List String)
      → L.held w.services ≡ h
      → Fails h (
          (do
            l ← call (S.with_lease c.ctx (mount_lease_opts c key))
            check_mount_lease l l.error
            defer
                (λ _. none)
                (mount_leased c l.ctx img target key readonly opt)
                (release_on_error l))
            w)
  unfolding call release_on_error
  mount_taken c img target key readonly opt w h held =
      let os = mount_lease_opts c key in
      let w1 : World S = record w { services = (S.with_lease c.ctx os w.services).1 } in
      bind_cases (Fails h) (call (S.with_lease c.ctx os)) _ w
        (λ l e.
          let (d, done, took) = L.with_lease c.ctx os w.services l e in
          let taken : L.held w1.services ≡ L.ids_of d ++ h =
            took ∙ ap (λ (k : List String). L.ids_of d ++ k) held in
          let check = check_mount_lease {S = S} l l.error in
          let keep_check = check_mount_lease-KeepsLeases l l.error in
          bind_cases (Fails h) check _ w1
            (λ _ _.
              let w2 = (check w1).1 in
              let body = mount_leased c l.ctx img target key readonly opt in
              let kept : L.held (body w2).1.services ≡ L.ids_of d ++ h =
                KeepsLeases-held L body
                  (mount_leased-KeepsLeases c l.ctx img target key readonly opt) w2
                ∙ KeepsLeases-held L check keep_check w1
                ∙ taken in
              defer_cases (Fails h) (λ _. none) body (release_on_error l) w2 (λ _ _ _ q. cc)
                (λ x _ _ _. release_quietly-held l.done l.ctx d (body w2).1 h done kept)
                (λ _ _ q. cc) (λ _ _ q. cc))
            (λ x r _ _.
              let (y, is) = check_mount_lease-err l l.error w1 x r in
              KeepsLeases-held L check keep_check w1
              ∙ L.with_lease_error c.ctx os w.services l y e is
              ∙ held)
            (λ _ _ q. cc) (λ _ _ q. cc))
        (λ x e _ _. L.with_lease_fails c.ctx os w.services (λ l q. cc) ∙ held) (λ _ _ q. cc)
        (λ _ _ q. cc)

  -- If no call of `done` fails, Mount that returns an error holds no more leases than before: the lease
  -- of the key is given back, on whichever step the error arose.
  pub mount-held_of_err :
      (c : OciStore S) (img : Option Image) (target key : String) (readonly : Bool)
      (opts : List (MountOpt S)) (w : World S) (e : Error)
      → (mount c img target key readonly opts w).0 ≡ err e
      → L.held (mount c img target key readonly opts w).1.services ≡ L.held w.services
  unfolding mount guarded
  mount-held_of_err c img target key readonly opts w =
      let h = L.held w.services in
      let Q = Fails h in
      if_cases Q (is_initiated c) _ _ w
        (λ _.
          bind_cases Q (lift (apply_opts opts no_mount_opts)) _ w
            (λ opt _.
              bind_cases Q (mount_key key target) _ w
                (λ key' _.
                  let w1 = (mount_key key target w).1 in
                  let h1 : L.held w1.services ≡ h =
                    KeepsLeases-held L (mount_key key target) (mount_key-KeepsLeases key target)
                      w in
                  mount_taken c img target key' readonly opt w1 h h1)
                (λ x _ e _. KeepsLeases-held L _ (mount_key-KeepsLeases key target) w) (λ _ e q. cc)
                (λ _ e q. cc))
            (λ x _ e _. refl) (λ _ e q. cc) (λ _ e q. cc))
        (λ _ e q. refl)
