-- ===== src/Services/Leases.antt =====
-- The leases that are held, by their ids, and what the program relies on in the lease service: a call
-- of WithLease takes a lease, or none where the context has one already, or it fails and takes none.
-- A `done` that returns no error gives its lease back, one that fails leaves it, and the last field is
-- the condition that the lease of a method, while it is held, can be given back.
use containerdosstore.Prelude.{String, Option, some, List, ◌++◌, ◌≡◌, ◌≢◌}
use containerdosstore.Exec.{Error, ok, Exec}
use containerdosstore.Services.{Services, LeaseOpt, Leased}
use containerdosstore.Services.Types.{Descriptor, Info}
use containerdosstore.Services.Frame.{Same, Frame}

pub record LeaseLaws (S : Services) : Type 0 where
  pub held : S.State → List String
  -- The leases that `done` gives back: one, or none.
  pub ids_of : S.Done → List String
  -- Only the lease calls change what is held.
  pub frame : Frame S held
  pub remove :
      (sn : S.Snapshotter) (ctx : Option S.Ctx) (k : String) → Same held (S.remove sn ctx k)
  pub update :
      (sn : S.Snapshotter) (ctx : Option S.Ctx) (i : Info) (fs : List String)
      → Same held (S.update sn ctx i fs)
  pub prepare :
      (sn : S.Snapshotter) (ctx : Option S.Ctx) (k p : String) (os : List S.SnapshotOpt)
      → Same held (S.prepare sn ctx k p os)
  pub view :
      (sn : S.Snapshotter) (ctx : Option S.Ctx) (k p : String) (os : List S.SnapshotOpt)
      → Same held (S.view sn ctx k p os)
  pub commit :
      (sn : S.Snapshotter) (ctx : Option S.Ctx) (name k : String) (os : List S.SnapshotOpt)
      → Same held (S.commit sn ctx name k os)
  pub new_unpacker :
      (ctx : Option S.Ctx) (p : S.Platform) (driver : String) (sn : S.Snapshotter)
      (sos : List S.SnapshotOpt) (aos : List S.ApplyOpt)
      → Same held (S.new_unpacker ctx p driver sn sos aos)
  pub walk_not_empty :
      (ctx : Option S.Ctx) (h : Option S.Ctx → Descriptor → Exec S.State (List Descriptor))
      (d : Descriptor)
      → Same held (S.walk_not_empty ctx h d)
  pub wait : (u : S.Unpacker) → Same held (S.wait u)
  -- WithLease: what `done` gives back is held afterwards. With an error, or with no return, nothing
  -- has changed.
  pub with_lease :
      (ctx : Option S.Ctx) (os : List LeaseOpt) (s : S.State) (l : Leased S.Ctx S.Done)
      → (S.with_lease ctx os s).0 ≡ ok l
      → (d : S.Done) × (l.done ≡ some d) × (held (S.with_lease ctx os s).1 ≡ ids_of d ++ held s)
  pub with_lease_error :
      (ctx : Option S.Ctx) (os : List LeaseOpt) (s : S.State) (l : Leased S.Ctx S.Done) (e : Error)
      → (S.with_lease ctx os s).0 ≡ ok l
      → l.error ≡ some e
      → held (S.with_lease ctx os s).1 ≡ held s
  pub with_lease_fails :
      (ctx : Option S.Ctx) (os : List LeaseOpt) (s : S.State)
      → ((l : Leased S.Ctx S.Done) → (S.with_lease ctx os s).0 ≢ ok l)
      → held (S.with_lease ctx os s).1 ≡ held s
  pub release :
      (d : S.Done) (ctx : Option S.Ctx) (s : S.State) (l : List String)
      → held s ≡ ids_of d ++ l
      → (S.release d ctx s).0 ≡ ok tt
      → held (S.release d ctx s).1 ≡ l
  pub release_fails :
      (d : S.Done) (ctx : Option S.Ctx) (s : S.State)
      → (S.release d ctx s).0 ≢ ok tt
      → held (S.release d ctx s).1 ≡ held s
  -- No call of `done` fails.
  pub done_succeeds :
      (d : S.Done) (ctx : Option S.Ctx) (s : S.State) (l : List String)
      → held s ≡ ids_of d ++ l
      → (S.release d ctx s).0 ≡ ok tt
