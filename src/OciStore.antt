-- ===== src/OciStore.antt =====
-- pkg/ocistore/ociStore.go: the OCIStore, its set-up and its accessors, and the lease that nearly
-- every method takes. A method on a receiver whose `ctx` is nil returns the missing-init error.
pub mod Leasing
pub mod Setup
pub mod Steady
pub mod Diff
use containerdosstore.Prelude.{
  String, ◌<>◌, Bool, Option, none, some, List, [], ◌∷◌, ◌==◌, is_some, if◌then◌else◌,
}
use containerdosstore.Exec.{
  Error, message, Exec, Attempt, failed, attempt, pure, throw, panics, on_error, defer, ◌>>=◌, ◌>>◌,
}
use containerdosstore.FilePath.{join}
use containerdosstore.Services.{Services, LeaseOpt, Leased}
use containerdosstore.World.{World, call, warnf, errorf, error_text}

abbrev pub overlay_driver : String
overlay_driver = "overlayfs"

abbrev pub snapshots_dir : String
snapshots_dir = "snapshots"

abbrev pub bolt_db_file : String
bolt_db_file = "metadata.db"

abbrev pub content_dir : String
content_dir = "content"

abbrev pub default_namespace : String
default_namespace = "elemental-system"

abbrev pub label_snapshot_img_ref : String
label_snapshot_img_ref = "containerd.io/snapshot/image.ref"

abbrev pub miss_init_err_msg : String
miss_init_err_msg = "uninitiated containerdstore instance"

-- The `log` field is the world's log. `none` is nil.
pub record OciStore (S : Services) : Type 0 where
  pub root : String
  pub driver : String
  pub namespace : String
  pub platform : S.Platform
  pub ctx : Option S.Ctx
  pub db : Option S.Db
  pub cli : Option S.Client

unfoldable pub new_oci_store : (S : Services) → String → OciStore S
new_oci_store S root = record {
  root = root;
  driver = overlay_driver;
  namespace = default_namespace;
  platform = S.default_strict;
  ctx = none;
  db = none;
  cli = none;
}

module _ {S : Services} where
  unfoldable pub is_initiated : OciStore S → Bool
  is_initiated c = is_some c.ctx

  unfoldable pub get_client : OciStore S → Option S.Client
  unfolding is_initiated
  get_client c = if is_initiated c then c.cli else none

  unfoldable pub get_driver : OciStore S → String
  unfolding is_initiated
  get_driver c = if is_initiated c then c.driver else ""

  -- The receiver after Init; it is left as it was where Init fails.
  unfoldable pub init : OciStore S → S.Ctx → Exec (World S) (OciStore S)
  init c main_ctx = do
    let ctx = S.with_namespace main_ctx "testing"
    sn ←
        if c.driver == overlay_driver
        then call (S.new_snapshotter (join c.root snapshots_dir))
        else throw (message ("unsupported containerd driver '" <> (c.driver <> "'")))
    bdb ← call (S.bolt_open (join c.root bolt_db_file))
    call (S.new_content_store (join c.root content_dir))
    call (S.db_init (some ctx) bdb)
    cli ← call (S.new_client bdb sn c.platform)
    pure (record c { ctx = some ctx; db = some bdb; cli = some cli })

  -- `if !c.IsInitiated() { return errors.New(missInitErrMsg) }`
  unfoldable pub guarded : {A : Type 0} → OciStore S → Exec (World S) A → Exec (World S) A
  unfolding is_initiated
  guarded c m = if is_initiated c then m else throw (message miss_init_err_msg)

  -- `done(ctx)`; a nil `done` would panic.
  abbrev pub run_done_of : Option S.Done → Option S.Ctx → Exec (World S) (Unit {0})
  run_done_of none ctx = panics
  run_done_of (some done) ctx = call (S.release done ctx)

  unfoldable pub run_done : Leased S.Ctx S.Done → Exec (World S) (Unit {0})
  run_done l = run_done_of l.done l.ctx

  abbrev pub warn_unless : String → Option Error → Attempt (Unit {0}) → Exec (World S) (Unit {0})
  warn_unless warning none (failed e) = warnf warning []
  warn_unless warning _ _ = pure tt

  -- The deferred function of most methods: it gives the lease back, and warns where that fails and
  -- the method does not.
  unfoldable pub finish : Leased S.Ctx S.Done → String → Option Error → Exec (World S) (Unit {0})
  unfolding run_done
  finish l warning ret = do gone ← attempt (run_done l); warn_unless warning ret gone

  abbrev pub check_error : Leased S.Ctx S.Done → Option Error → Exec (World S) (Leased S.Ctx S.Done)
  check_error l none = pure l
  check_error l (some e) = throw e

  abbrev pub check_lease : Leased S.Ctx S.Done → Exec (World S) (Leased S.Ctx S.Done)
  check_lease l = check_error l l.error

  -- `ctx, done, err := c.cli.WithLease(c.ctx, opts...)`, and the return on an error.
  unfoldable pub acquire :
      OciStore S
      → List LeaseOpt
      → (Error → Exec (World S) (Unit {0}))
      → Exec (World S) (Leased S.Ctx S.Done)
  acquire c opts report = on_error (do l ← call (S.with_lease c.ctx opts); check_lease l) report

  -- The lease, and the deferred `finish` around the rest of the method. `ret` reads an error that is
  -- returned beside a value.
  unfoldable pub leased_ret :
      {A : Type 0}
      → (A → Option Error)
      → OciStore S
      → List LeaseOpt
      → (Error → Exec (World S) (Unit {0}))
      → String
      → (Option S.Ctx → Exec (World S) A)
      → Exec (World S) A
  leased_ret ret c opts report warning body = do
    l ← acquire c opts report
    defer ret (body l.ctx) (finish l warning)

  unfoldable pub leased :
      {A : Type 0}
      → OciStore S
      → List LeaseOpt
      → (Error → Exec (World S) (Unit {0}))
      → String
      → (Option S.Ctx → Exec (World S) A)
      → Exec (World S) A
  unfolding leased_ret
  leased c opts report warning body = leased_ret (λ _. none) c opts report warning body

  -- `c.log.Errorf(format, err)` and its like with one argument before the error.
  abbrev pub report : String → Error → Exec (World S) (Unit {0})
  report format e = errorf format (error_text e ∷ [])

  abbrev pub report_on : String → String → Error → Exec (World S) (Unit {0})
  report_on format name e = errorf format (name ∷ error_text e ∷ [])
