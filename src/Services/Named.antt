-- ===== src/Services/Named.antt =====
-- What the program relies on in a lease with an id of its own: where the context carries no lease, the
-- lease that is taken has that id, and the error that it is there says that one of that id is held.
use containerdosstore.Prelude.{String, Bool, true, false, Option, none, some, List, [], ◌∷◌, ◌≡◌}
use containerdosstore.Exec.{Error, ok, is_already_exists}
use containerdosstore.Services.{Services, LeaseOpt, with_id, Leased}
use containerdosstore.Services.Leases.{LeaseLaws}
use containerdosstore.Services.Deletion.{is_held}

pub record NamedLeases {S : Services} (L : LeaseLaws S) : Type 0 where
  pub carries_lease : Option S.Ctx → Bool
  pub takes_named :
      (ctx : Option S.Ctx) (id : String) (os : List LeaseOpt) (s : S.State)
      (l : Leased S.Ctx S.Done) (d : S.Done)
      → carries_lease ctx ≡ false
      → (S.with_lease ctx (with_id id ∷ os) s).0 ≡ ok l
      → l.error ≡ none
      → l.done ≡ some d
      → L.ids_of d ≡ id ∷ []
  pub refuses_held :
      (ctx : Option S.Ctx) (id : String) (os : List LeaseOpt) (s : S.State)
      (l : Leased S.Ctx S.Done) (e : Error)
      → (S.with_lease ctx (with_id id ∷ os) s).0 ≡ ok l
      → l.error ≡ some e
      → is_already_exists e ≡ true
      → is_held id (L.held s) ≡ true
