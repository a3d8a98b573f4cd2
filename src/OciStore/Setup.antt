-- ===== src/OciStore/Setup.antt =====
-- Set-up: what Init leaves, and what a method does before it.
use containerdosstore.Prelude.{Bool, true, false, some, ◌≡◌, refl, ap, sym, if◌then◌else◌}
use containerdosstore.Exec.{message, ok, err, Exec}
use containerdosstore.Exec.Inversion.{bind-ok, ok_injective}
use containerdosstore.Services.{Services}
use containerdosstore.World.{World}
use containerdosstore.OciStore.{OciStore, init, guarded, is_initiated, miss_init_err_msg}

module _ {S : Services} where
  guarded_if :
      {A : Type 0} (m : Exec (World S) A) (w : World S) (b : Bool)
      → b ≡ false
      → (if b then m else (λ v. (err (message miss_init_err_msg), v))) w
        ≡ (err (message miss_init_err_msg), w)
  guarded_if m w true e = cc
  guarded_if m w false e = refl

  -- The guard, on a receiver that Init has not set up.
  pub guarded-uninitiated :
      {A : Type 0} (c : OciStore S) (m : Exec (World S) A) (w : World S)
      → is_initiated c ≡ false
      → guarded c m w ≡ (err (message miss_init_err_msg), w)
  unfolding guarded
  guarded-uninitiated c m w e = guarded_if m w (is_initiated c) e

  -- What Init leaves where it returns a store: all that the methods rest on is set, the context is
  -- in the namespace "testing", and root, driver, namespace and platform are as they were.
  abbrev pub IsSetUp : OciStore S → S.Ctx → OciStore S → Type 0
  IsSetUp c main_ctx c' =
      (c'.ctx ≡ some (S.with_namespace main_ctx "testing"))
      × ((db : S.Db) × (c'.db ≡ some db))
      × ((cli : S.Client) × (c'.cli ≡ some cli))
      × (c'.root ≡ c.root)
      × (c'.driver ≡ c.driver)
      × (c'.namespace ≡ c.namespace)
      × (c'.platform ≡ c.platform)

  -- Init, where it returns a store, returns one that is set up: whatever the namespace of the
  -- receiver is, the context is in the namespace "testing".
  pub init-IsSetUp :
      (c : OciStore S) (main_ctx : S.Ctx) (w : World S) (c' : OciStore S)
      → (init c main_ctx w).0 ≡ ok c'
      → IsSetUp c main_ctx c'
  unfolding init
  init-IsSetUp c main_ctx w c' e0 =
      let (sn, _, e1) = bind-ok _ _ w e0 in
      let (db, _, e2) = bind-ok _ _ _ e1 in
      let (_, _, e3) = bind-ok _ _ _ e2 in
      let (_, _, e4) = bind-ok _ _ _ e3 in
      let (cli, _, e5) = bind-ok _ _ _ e4 in
      let made = sym (ok_injective _ c' e5) in
      (
        ap (λ (x : OciStore S). x.ctx) made,
        (db, ap (λ (x : OciStore S). x.db) made),
        (cli, ap (λ (x : OciStore S). x.cli) made),
        ap (λ (x : OciStore S). x.root) made,
        ap (λ (x : OciStore S). x.driver) made,
        ap (λ (x : OciStore S). x.namespace) made,
        ap (λ (x : OciStore S). x.platform) made,
      )
