-- ===== src/Mount/Returned.antt =====
-- Where a key that Mount returns comes from: the steps that ran before the return, and the world that
-- each of them left.
use containerdosstore.Prelude.{
  String, Bool, true, Option, none, some, List, [], ◌∷◌, ◌++◌, ◌≡◌, ◌∙◌, refl, sym, ap, subst,
}
use containerdosstore.Exec.{Error, ok, lift, apply_opts, pure, is_already_exists}
use containerdosstore.Exec.Cases.{if_cases}
use containerdosstore.Exec.Inversion.{bind-ok, bind-world, on_error-ok, defer-ok, ok_injective}
use containerdosstore.Services.{Services, Leased}
use containerdosstore.Services.Types.{Image}
use containerdosstore.World.{World, call}
use containerdosstore.OciStore.{OciStore}
use containerdosstore.OciStore.Steady.{guarded-ok}
use containerdosstore.Mount.{
  MountOpts, MountOpt, no_mount_opts, mount_key, mount_snapshot, mount_target, mount_unpack,
  mount_base, mount_leased, check_mount_lease, release_on_error, mount_lease_opts, mount,
}

module _ {S : Services} (c : OciStore S) where
  abbrev pub snapshot_opts : MountOpts S → String × List (String × String) → List S.SnapshotOpt
  snapshot_opts opt base = opt.s_opts ++ (S.with_labels base.1 ∷ [])

  module _ (ctx : Option S.Ctx) (img : Option Image) (target key : String) (readonly : Bool)
      (opt : MountOpts S) (w : World S) where
    -- The steps of mount_leased on the way to a return.
    pub record Made : Type 0 where
      pub base : String × List (String × String)
      pub mounts : S.Mounts
      pub unpacked : World S
      pub unpacked-is : unpacked ≡ (mount_unpack c ctx img opt opt.unpack w).1
      pub based : World S
      pub based-is : based ≡ (mount_base {S = S} ctx img unpacked).1
      pub base-is : (mount_base {S = S} ctx img unpacked).0 ≡ ok base
      pub snapshot :
          (mount_snapshot c ctx img key readonly base.0 (snapshot_opts opt base) based).0
          ≡ ok mounts
      pub left :
          (mount_leased c ctx img target key readonly opt w).1.services
          ≡ (S.mount_all mounts target (
              (mount_snapshot c ctx img key readonly base.0
                (snapshot_opts opt base)
                based).1.services)).1

    pub mount_leased-Made :
        (k : String)
        → (mount_leased c ctx img target key readonly opt w).0 ≡ ok k
        → (k ≡ key) × Made
    unfolding mount_leased mount_target call
    mount_leased-Made k e =
        let unpack = mount_unpack c ctx img opt opt.unpack in
        let (a, e1, left1) = bind-ok unpack _ w e in
        let w1 = (unpack w).1 in
        let (base, e2, left2) = bind-ok (mount_base ctx img) _ w1 left1 in
        let w2 = (mount_base ctx img w1).1 in
        let snap = mount_snapshot c ctx img key readonly base.0 (snapshot_opts opt base) in
        let (mounts, e3, left3) = bind-ok snap _ w2 left2 in
        let w3 = (snap w2).1 in
        let put = mount_target c ctx img target key mounts in
        let (u, e4, left4) = bind-ok put _ w3 left3 in
        let (_, same) = on_error-ok (call (S.mount_all mounts target)) _ w3 u e4 in
        let whole : (mount_leased c ctx img target key readonly opt w).1 ≡ (put w3).1 =
          bind-world unpack _ w a e1
          ∙ bind-world (mount_base ctx img) _ w1 base e2
          ∙ bind-world snap _ w2 mounts e3
          ∙ bind-world put (λ _. pure {W = World S} key) w3 u e4 in
        (
          sym (ok_injective key k left4),
          record {
            base = base;
            mounts = mounts;
            unpacked = w1;
            unpacked-is = refl;
            based = w2;
            based-is = refl;
            base-is = e2;
            snapshot = e3;
            left = ap (λ (v : World S). v.services) (whole ∙ same);
          },
        )

  release_on_error-none :
      (l : Leased S.Ctx S.Done) (w : World S) → (release_on_error l none w).1 ≡ w
  unfolding release_on_error
  release_on_error-none l w = refl

  -- The check of the lease passes where there is no error, or one that says that the lease is there.
  check_mount_lease-passed :
      (l : Leased S.Ctx S.Done) (x : Option Error) (w : World S)
      → (check_mount_lease {S = S} l x w).0 ≡ ok tt
      → ((e : Error) → x ≡ some e → is_already_exists e ≡ true)
        × ((check_mount_lease {S = S} l x w).1 ≡ w)
  unfolding check_mount_lease
  check_mount_lease-passed l none w = λ q. (λ e p. cc, refl)
  check_mount_lease-passed l (some x) w =
      if_cases
        (λ p.
          p.0 ≡ ok tt → ((e : Error) → some x ≡ some e → is_already_exists e ≡ true) × (p.1 ≡ w))
        (is_already_exists x) (pure {W = World S} tt) _ w (λ there _. (λ e p. cc, refl)) (λ _ q. cc)

  module _ (img : Option Image) (target key : String) (readonly : Bool) (opts : List (MountOpt S))
      (w : World S) (k : String) where
    -- The steps of mount on the way to the return of the key k.
    pub record Returned : Type 0 where
      pub opt : MountOpts S
      pub options : apply_opts opts no_mount_opts ≡ ok opt
      pub named : (mount_key {S = S} key target w).0 ≡ ok k
      pub lease : Leased S.Ctx S.Done
      pub started : World S
      pub started-is : started ≡ (mount_key {S = S} key target w).1
      pub taken : (S.with_lease c.ctx (mount_lease_opts c k) started.services).0 ≡ ok lease
      pub passed : (e : Error) → lease.error ≡ some e → is_already_exists e ≡ true
      pub leased : World S
      pub leased-is :
          leased.services ≡ (S.with_lease c.ctx (mount_lease_opts c k) started.services).1
      pub made : Made lease.ctx img target k readonly opt leased
      pub left :
          (mount c img target key readonly opts w).1
          ≡ (mount_leased c lease.ctx img target k readonly opt leased).1

    pub mount-Returned : (mount c img target key readonly opts w).0 ≡ ok k → Returned
    unfolding mount call
    mount-Returned e =
        let (_, run, same) = guarded-ok c _ w k e in
        let options = lift {W = World S} (apply_opts opts no_mount_opts) in
        let (opt, e1, left1) = bind-ok options _ w run in
        let (key', e2, left2) = bind-ok (mount_key key target) _ w left1 in
        let w2 = (mount_key key target w).1 in
        let take = λ (j : String). call (S.with_lease c.ctx (mount_lease_opts c j)) in
        let (l, e3, left3) = bind-ok (take key') _ w2 left2 in
        let w3 = (take key' w2).1 in
        let check = check_mount_lease l l.error in
        let (u, e4, left4) = bind-ok check _ w3 left3 in
        let body = λ (j : String). mount_leased c l.ctx img target j readonly opt in
        let (ran, ended) =
          defer-ok (λ _. none) (body key') (release_on_error l) (check w3).1 k left4 in
        let (passes, unchanged) = check_mount_lease-passed l l.error w3 e4 in
        let ran' : (body key' w3).0 ≡ ok k = subst (λ v. (body key' v).0 ≡ ok k) unchanged ran in
        let (is, _) = mount_leased-Made l.ctx img target key' readonly opt w3 k ran' in
        let whole : (mount c img target key readonly opts w).1 ≡ (body key' w3).1 =
          same
          ∙ bind-world options _ w opt e1
          ∙ bind-world (mount_key key target) _ w key' e2
          ∙ bind-world (take key') _ w2 l e3
          ∙ bind-world check _ w3 u e4
          ∙ ended
          ∙ release_on_error-none l (body key' (check w3).1).1
          ∙ ap (λ v. (body key' v).1) unchanged in
        let w3k = (take k w2).1 in
        let at_k : (body key' w3).1 ≡ (body k w3k).1 =
          ap (λ j. (body j (take j w2).1).1) (sym is) in
        let ran_k : (body k w3k).0 ≡ ok k =
          subst (λ j. (body j (take j w2).1).0 ≡ ok k) (sym is) ran' in
        record {
          opt = opt;
          options = e1;
          named = e2 ∙ ap ok (sym is);
          lease = l;
          started = w2;
          started-is = refl;
          taken = subst (λ j. (take j w2).0 ≡ ok l) (sym is) e3;
          passed = passes;
          leased = w3k;
          leased-is = refl;
          made = (mount_leased-Made l.ctx img target k readonly opt w3k k ran_k).1;
          left = whole ∙ at_k;
        }
