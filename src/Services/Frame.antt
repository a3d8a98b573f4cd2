-- ===== src/Services/Frame.antt =====
-- What the calls of the services leave alone. `f` is a view of their state, such as the leases that
-- are held. `Frame f` says that reading, image and content calls do not change it.
use containerdosstore.Prelude.{ℕ, String, Option, List, ◌≡◌, ◌∙◌, refl, Map}
use containerdosstore.Exec.{Exec}
use containerdosstore.Exec.Keeps.{Keeps, keeps_rules}
use containerdosstore.Services.{Services, LeaseOpt}
use containerdosstore.Services.Types.{Digest, Descriptor, Image}
use containerdosstore.World.{World, Level, call, log_at}

abbrev pub Same : {W A B : Type 0} → (W → B) → Exec W A → Type 0
Same {W} f m = (s : W) → f (m s).1 ≡ f s

pub record Frame (S : Services) {B : Type 0} (f : S.State → B) : Type 0 where
  pub get_image : (ctx : Option S.Ctx) (name : String) → Same f (S.get_image ctx name)
  pub list_images : (ctx : Option S.Ctx) (fs : List String) → Same f (S.list_images ctx fs)
  pub update_image :
      (ctx : Option S.Ctx) (img : Image) (fs : List String) → Same f (S.update_image ctx img fs)
  pub create_image : (ctx : Option S.Ctx) (img : Image) → Same f (S.create_image ctx img)
  pub delete_image :
      (ctx : Option S.Ctx) (name : String) (os : List S.DeleteOpt)
      → Same f (S.delete_image ctx name os)
  pub import_images :
      (ctx : Option S.Ctx) (r : S.Reader) (os : List S.ClientImportOpt)
      → Same f (S.import_images ctx r os)
  pub pull_image :
      (ctx : Option S.Ctx) (ref : String) (os : List S.RemoteOpt) → Same f (S.pull_image ctx ref os)
  pub is_unpacked :
      (ctx : Option S.Ctx) (img : Image) (driver : String) → Same f (S.is_unpacked ctx img driver)
  pub root_fs : (ctx : Option S.Ctx) (img : Image) → Same f (S.root_fs ctx img)
  pub image_config : (ctx : Option S.Ctx) (img : Image) → Same f (S.image_config ctx img)
  pub stat : (sn : S.Snapshotter) (ctx : Option S.Ctx) (k : String) → Same f (S.stat sn ctx k)
  pub mounts : (sn : S.Snapshotter) (ctx : Option S.Ctx) (k : String) → Same f (S.mounts sn ctx k)
  pub walk :
      (sn : S.Snapshotter) (ctx : Option S.Ctx) (fs : List String) → Same f (S.walk sn ctx fs)
  pub read_blob : (ctx : Option S.Ctx) (d : Descriptor) → Same f (S.read_blob ctx d)
  pub write_blob :
      (ctx : Option S.Ctx) (ref : String) (b : S.Bytes) (d : Descriptor) (m : Map String)
      → Same f (S.write_blob ctx ref b d m)
  pub content_info : (ctx : Option S.Ctx) (d : Digest) → Same f (S.content_info ctx d)
  pub create_diff :
      (ctx : Option S.Ctx) (k : String) (sn : S.Snapshotter) (os : List S.DiffOpt)
      → Same f (S.create_diff ctx k sn os)
  pub apply_diff :
      (ctx : Option S.Ctx) (d : Descriptor) (m : S.Mounts) → Same f (S.apply_diff ctx d m)
  pub mount_all : (m : S.Mounts) (target : String) → Same f (S.mount_all m target)
  pub unmount_all : (target : String) (flags : ℕ) → Same f (S.unmount_all target flags)
  pub open_file : (file : String) → Same f (S.open_file file)
  pub close_file : (r : S.Reader) → Same f (S.close_file r)
  pub now : Same f S.now
  pub nanosecond : Same f S.nanosecond
  pub random_bytes : Same f S.random_bytes

-- The lease calls do not change the view.
pub record LeaseFrame (S : Services) {B : Type 0} (f : S.State → B) : Type 0 where
  pub with_lease : (ctx : Option S.Ctx) (os : List LeaseOpt) → Same f (S.with_lease ctx os)
  pub release : (d : S.Done) (ctx : Option S.Ctx) → Same f (S.release d ctx)
  pub delete_lease : (ctx : Option S.Ctx) (id : String) → Same f (S.delete_lease ctx id)

-- The view of the services in a world has this value.
pub record Shows {S : Services} {B : Type 0} (f : S.State → B) (b : B) (w : World S) : Type 0 where
  pub shown : f w.services ≡ b

module _ {S : Services} {B : Type 0} {f : S.State → B} {b : B} where
  -- A call that leaves the view alone keeps its value in the world.
  pub Keeps-call :
      {A : Type 0} (m : Exec S.State A)
      → Same f m
      → Keeps {W = World S} (Shows {S = S} f b) (call m)
  unfolding call
  Keeps-call m same = record { at = λ w h. record { shown = same w.services ∙ h.shown } }

  pub Keeps-log_at :
      (level : Level) (format : String) (args : List String)
      → Keeps (Shows {S = S} f b) (log_at level format args)
  unfolding log_at
  Keeps-log_at level format args = record { at = λ w h. record { shown = h.shown } }

-- Back from the rule.
pub Keeps-shown :
    {S : Services} {A B : Type 0} (f : S.State → B) (m : Exec (World S) A)
    → ((b : B) → Keeps (Shows {S = S} f b) m)
    → (w : World S) → f (m w).1.services ≡ f w.services
Keeps-shown f m km w = ((km (f w.services)).at w (record { shown = refl })).shown

pub ruleset frame_rules = (keeps_rules, Keeps-call, Keeps-log_at)
