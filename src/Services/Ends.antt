-- ===== src/Services/Ends.antt =====
-- `exhausted` is no answer of a service: a call returns, fails or panics. This says so of the calls
-- that Umount and Delete make besides Stat and Remove.
use containerdosstore.Prelude.{ℕ, String, Option, List, ◌≢◌}
use containerdosstore.Exec.{Exec, exhausted}
use containerdosstore.Services.{Services, LeaseOpt}
use containerdosstore.Services.Types.{Image}

abbrev pub Answers : {W A : Type 0} → Exec W A → Type 0
Answers {W} m = (s : W) → (m s).0 ≢ exhausted

pub record CallsAnswer (S : Services) : Type 0 where
  pub with_lease : (ctx : Option S.Ctx) (os : List LeaseOpt) → Answers (S.with_lease ctx os)
  pub release : (d : S.Done) (ctx : Option S.Ctx) → Answers (S.release d ctx)
  pub delete_lease : (ctx : Option S.Ctx) (id : String) → Answers (S.delete_lease ctx id)
  pub unmount_all : (target : String) (flags : ℕ) → Answers (S.unmount_all target flags)
  pub get_image : (ctx : Option S.Ctx) (name : String) → Answers (S.get_image ctx name)
  pub is_unpacked :
      (ctx : Option S.Ctx) (img : Image) (driver : String) → Answers (S.is_unpacked ctx img driver)
  pub root_fs : (ctx : Option S.Ctx) (img : Image) → Answers (S.root_fs ctx img)
  pub delete_image :
      (ctx : Option S.Ctx) (name : String) (os : List S.DeleteOpt)
      → Answers (S.delete_image ctx name os)
