-- ===== src/Memory/Deletion.antt =====
-- What is relied on in deleting leases, for the services in memory.
use containerdosstore.Prelude.{
  String, Bool, true, false, Option, none, some, List, ◌≡◌, refl, ap, arith, eq_iff, Bool-cases,
  inl, inr,
}
use containerdosstore.Exec.{Error, ok, err}
use containerdosstore.Services.{LeaseOpt, Leased}
use containerdosstore.Services.Deletion.{without_id, is_held, without_id-free, DeletionLaws}
use containerdosstore.Memory.State.{Store}
use containerdosstore.Memory.Runs.{memory_runs, memory_lease, take_lease, delete_lease, with_ctx}
use containerdosstore.Memory.Laws.{memory_leases, done_ids, held}

deletes :
    (ctx : Option Bool) (k : String) (s : Store)
    → (with_ctx ctx (λ _. delete_lease k) s).0 ≡ ok tt
    → held (with_ctx ctx (λ _. delete_lease k) s).1 ≡ without_id k (held s)
unfolding memory_runs
deletes none k s e = cc
deletes (some x) k s e = ground arith

missing :
    (ctx : Option Bool) (k : String) (s : Store) (x : Error)
    → (with_ctx ctx (λ _. delete_lease k) s).0 ≡ err x
    → held (with_ctx ctx (λ _. delete_lease k) s).1 ≡ without_id k (held s)
unfolding memory_runs
missing none k s x e = cc
missing (some c) k s x e = ground (arith, without_id-free k s.held)

take_fresh :
    (k : String) (s : Store) (l : Leased Bool (Option String)) (d : Option String) (id : String)
    → (take_lease k s).0 ≡ ok l
    → l.error ≡ none
    → l.done ≡ some d
    → is_held id (held s) ≡ true
    → is_held id (done_ids d) ≡ false
unfolding memory_runs
take_fresh k s l none id e no_error done there = refl
take_fresh k s l (some j) id e no_error done there = elim (Bool-cases (is_held k s.held)) [
  | inl h ↦ ground (arith, h)
  | inr h ↦ ground (arith, h, eq_iff j id, eq_iff k id, ap (λ x. is_held x s.held))
]

with_fresh :
    (ctx : Option Bool) (os : List LeaseOpt) (s : Store) (l : Leased Bool (Option String))
    (d : Option String) (id : String)
    → (memory_lease ctx os s).0 ≡ ok l
    → l.error ≡ none
    → l.done ≡ some d
    → is_held id (held s) ≡ true
    → is_held id (done_ids d) ≡ false
unfolding memory_runs
with_fresh none os s l d id e no_error done there = cc
with_fresh (some true) os s l d id e no_error done there = ground arith
with_fresh (some false) os s l d id e no_error done there =
    take_fresh _ s l d id e no_error done there

pub memory_deletion : DeletionLaws memory_leases
unfolding memory_runs memory_leases
memory_deletion = record {
  deletes = deletes;
  missing = λ ctx k s x e absent. missing ctx k s x e;
  fresh = with_fresh;
}
