-- ===== src/Snapshots/Pruning.antt =====
-- Methods that remove one chain of snapshots among calls that leave the table alone: rules for what
-- they leave of the table, whatever their outcome.
use containerdosstore.Prelude.{ℕ, ℤ, String, Option, List, ◌≡◌, ◌∙◌, sym, ap}
use containerdosstore.Exec.{Error, message, Exec, defer, on_error, throw, ◌>>=◌}
use containerdosstore.Exec.Cases.{bind_cases, defer_world, on_error_cases, if_cases}
use containerdosstore.Exec.Keeps.{Keeps, keeps_rules}
use containerdosstore.Services.{Services, LeaseOpt}
use containerdosstore.Services.Frame.{Frame, LeaseFrame, Shows, Keeps-shown}
use containerdosstore.World.{World}
use containerdosstore.OciStore.{
  OciStore, acquire, leased_ret, leased, guarded, is_initiated, miss_init_err_msg,
}
use containerdosstore.OciStore.Steady.{acquire-Shows, finish-Shows}
use containerdosstore.Snapshots.Table.{Table, SnapshotLaws}
use containerdosstore.Snapshots.Chain.{remove_snapshots_chain}
use containerdosstore.Snapshots.Prune.{prune, prune-zero}
use containerdosstore.Snapshots.Removal.{rounds}

-- What the table rests on besides `SnapshotLaws`: only calls of the snapshotter change it.
pub record TableFrame {S : Services} {sn : S.Snapshotter} (L : SnapshotLaws S sn) : Type 0 where
  pub frame : Frame S L.table
  pub leases : LeaseFrame S L.table

module _ {S : Services} {sn : S.Snapshotter} (L : SnapshotLaws S sn) where
  -- A function that leaves the table as it is.
  abbrev pub Steady : {A : Type 0} → Exec (World S) A → Type 0
  Steady m = (t : Table) → Keeps (Shows {S = S} L.table t) m

  module _ (Allowed : String → Type 0) (t : Table) (d : ℤ) where
    -- The table is what some rounds of `prune` from an allowed snapshot have left of t.
    pub record Pruned (w : World S) : Type 0 where
      pub key : String
      pub allowed : Allowed key
      pub rounds : ℕ
      pub pruned : L.table w.services ≡ prune rounds t key d

    abbrev pub Prunes : {A : Type 0} → Exec (World S) A → Type 0
    Prunes m = (w : World S) → L.table w.services ≡ t → Pruned (m w).1

    same-Pruned : (w w' : World S) → L.table w'.services ≡ L.table w.services → Pruned w → Pruned w'
    same-Pruned w w' e p = record {
      key = p.key;
      allowed = p.allowed;
      rounds = p.rounds;
      pruned = e ∙ p.pruned;
    }

    module _ {A B : Type 0} where
      pub Prunes-before :
          (m : Exec (World S) A) (f : A → Exec (World S) B)
          → Prunes m
          → ((a : A) → Steady (f a))
          → Prunes (m >>= f)
      Prunes-before m f pm kf w h =
          bind_cases (λ p. Pruned p.1) m f w
            (λ a _. same-Pruned (m w).1 _ (Keeps-shown L.table (f a) (kf a) (m w).1) (pm w h))
            (λ _ _. pm w h) (λ _. pm w h) (λ _. pm w h)

      pub Prunes-defer :
          (ret : A → Option Error) (m : Exec (World S) A)
          (cleanup : Option Error → Exec (World S) B)
          → Prunes m
          → ((e : Option Error) → Steady (cleanup e))
          → Prunes (defer ret m cleanup)
      Prunes-defer ret m cleanup pm kc w h =
          defer_world Pruned ret m cleanup w
            (λ e. same-Pruned (m w).1 _ (Keeps-shown L.table (cleanup e) (kc e) (m w).1) (pm w h))

      pub Prunes-on_error :
          (m : Exec (World S) A) (report : Error → Exec (World S) B)
          → Prunes m
          → ((e : Error) → Steady (report e))
          → Prunes (on_error m report)
      Prunes-on_error m report pm kr w h =
          on_error_cases (λ p. Pruned p.1) m report w (λ _ _. pm w h)
            (λ e _. same-Pruned (m w).1 _ (Keeps-shown L.table (report e) (kr e) (m w).1) (pm w h))
            (λ _. pm w h) (λ _. pm w h)

    module _ (key : String) (allowed : Allowed key) where
      pub Prunes-Steady : {A : Type 0} (m : Exec (World S) A) → Steady m → Prunes m
      Prunes-Steady m km w h = record {
        key = key;
        allowed = allowed;
        rounds = 0;
        pruned = Keeps-shown L.table m km w ∙ h ∙ sym (prune-zero t key d);
      }

      pub Prunes-after :
          {A B : Type 0} (m : Exec (World S) A) (f : A → Exec (World S) B)
          → Steady m
          → ((a : A) → Prunes (f a))
          → Prunes (m >>= f)
      Prunes-after m f km pf w h =
          let unchanged = Prunes-Steady m km w h in
          bind_cases (λ p. Pruned p.1) m f w (λ a _. pf a (m w).1 (Keeps-shown L.table m km w ∙ h))
            (λ _ _. unchanged) (λ _. unchanged) (λ _. unchanged)

      pub Prunes-chain :
          (fuel : ℕ) (ctx : Option S.Ctx) → Prunes (remove_snapshots_chain fuel ctx sn key d)
      Prunes-chain fuel ctx w h =
          let (n, e) = rounds L ctx fuel key d w in
          record {
            key = key;
            allowed = allowed;
            rounds = n;
            pruned = e ∙ ap (λ (u : Table). prune n u key d) h;
          }

      module _ (F : TableFrame L) {A : Type 0} where
        pub Prunes-leased :
            (c : OciStore S) (os : List LeaseOpt) (report : Error → Exec (World S) (Unit {0}))
            (warning : String) (body : Option S.Ctx → Exec (World S) A)
            → ((e : Error) → Steady (report e))
            → ((ctx : Option S.Ctx) → Prunes (body ctx))
            → Prunes (leased c os report warning body)
        unfolding leased leased_ret
        Prunes-leased c os report warning body kr pb =
            Prunes-after (acquire c os report) _
              (λ b. acquire-Shows F.leases b c os report (λ e. kr e b))
              (λ l.
                Prunes-defer _ (body l.ctx) _ (pb l.ctx)
                  (λ e b. finish-Shows F.leases b l warning e))

        pub Prunes-guarded :
            (c : OciStore S) (m : Exec (World S) A) → Prunes m → Prunes (guarded c m)
        unfolding guarded
        Prunes-guarded c m pm w h =
            if_cases (λ p. Pruned p.1) (is_initiated c) _ _ w (λ _. pm w h)
              (λ _.
                Prunes-Steady (throw {W = World S} {A = A} (message miss_init_err_msg))
                  (λ b. search keeps_rules) w h)
