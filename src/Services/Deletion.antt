-- ===== src/Services/Deletion.antt =====
-- What the program relies on in deleting a lease by its id: afterwards no lease of that id is held, and
-- the other ones are. A new lease has an id that is not held.
use containerdosstore.Prelude.{
  String, Bool, true, false, Option, none, some, List, [], ◌∷◌, ◌++◌, ◌==◌, ◌||◌, ◌≡◌, refl, arith,
  eq_iff, if◌then◌else◌,
}
use containerdosstore.Exec.{Error, ok, err, is_not_found}
use containerdosstore.Services.{Services, LeaseOpt, Leased}
use containerdosstore.Services.Leases.{LeaseLaws}

unfoldable pub without_id : String → List String → List String
without_id k [] = []
without_id k (j ∷ js) = let rest = without_id k js in if j == k then rest else j ∷ rest

unfoldable pub is_held : String → List String → Bool
is_held k [] = false
is_held k (j ∷ js) = j == k || is_held k js

pub without_id-append :
    (k : String) (is js : List String)
    → without_id k (is ++ js) ≡ without_id k is ++ without_id k js
unfolding without_id
without_id-append k [] js = refl
without_id-append k (i ∷ is) js = ground (arith, without_id-append k is js)

pub without_id-free : (k : String) (js : List String) → is_held k js ≡ false → without_id k js ≡ js
unfolding without_id is_held
without_id-free k [] e = refl
without_id-free k (j ∷ js) e = ground (arith, without_id-free k js)

pub without_id-head : (k : String) (js : List String) → without_id k (k ∷ js) ≡ without_id k js
unfolding without_id
without_id-head k js = ground (arith, eq_iff k k)

pub is_held-head : (k : String) (js : List String) → is_held k (k ∷ js) ≡ true
unfolding is_held
is_held-head k js = ground (arith, eq_iff k k)

pub record DeletionLaws {S : Services} (L : LeaseLaws S) : Type 0 where
  pub deletes :
      (ctx : Option S.Ctx) (id : String) (s : S.State)
      → (S.delete_lease ctx id s).0 ≡ ok tt
      → L.held (S.delete_lease ctx id s).1 ≡ without_id id (L.held s)
  pub missing :
      (ctx : Option S.Ctx) (id : String) (s : S.State) (e : Error)
      → (S.delete_lease ctx id s).0 ≡ err e
      → is_not_found e ≡ true
      → L.held (S.delete_lease ctx id s).1 ≡ without_id id (L.held s)
  pub fresh :
      (ctx : Option S.Ctx) (os : List LeaseOpt) (s : S.State) (l : Leased S.Ctx S.Done) (d : S.Done)
      (id : String)
      → (S.with_lease ctx os s).0 ≡ ok l
      → l.error ≡ none
      → l.done ≡ some d
      → is_held id (L.held s) ≡ true
      → is_held id (L.ids_of d) ≡ false
