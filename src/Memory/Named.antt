-- ===== src/Memory/Named.antt =====
-- What is relied on in leases with an id of their own, for the services in memory.
use containerdosstore.Prelude.{
  String, Bool, true, false, Option, none, some, List, [], ◌∷◌, ◌≡◌, arith, inl, inr, Bool-cases,
}
use containerdosstore.Exec.{Error, ok}
use containerdosstore.Services.{Leased, LeaseOpt, with_id}
use containerdosstore.Services.Deletion.{is_held}
use containerdosstore.Services.Named.{NamedLeases}
use containerdosstore.Memory.State.{Store}
use containerdosstore.Memory.Runs.{memory_runs, take_lease, memory_lease}
use containerdosstore.Memory.Laws.{memory_leases, done_ids, held}

-- A nil context panics.
abbrev carries : Option Bool → Bool
carries none = true
carries (some carried) = carried

take_named :
    (k : String) (s : Store) (l : Leased Bool (Option String)) (d : Option String)
    → (take_lease k s).0 ≡ ok l
    → l.error ≡ none
    → l.done ≡ some d
    → done_ids d ≡ k ∷ []
unfolding memory_runs
take_named k s l none e no_error done = elim (Bool-cases (is_held k s.held)) [
  | inl h ↦ ground (arith, h)
  | inr h ↦ ground (arith, h)
]
take_named k s l (some j) e no_error done = elim (Bool-cases (is_held k s.held)) [
  | inl h ↦ ground (arith, h)
  | inr h ↦ ground (arith, h)
]

pub takes_named :
    (ctx : Option Bool) (k : String) (os : List LeaseOpt) (s : Store)
    (l : Leased Bool (Option String)) (d : Option String)
    → carries ctx ≡ false
    → (memory_lease ctx (with_id k ∷ os) s).0 ≡ ok l
    → l.error ≡ none
    → l.done ≡ some d
    → done_ids d ≡ k ∷ []
unfolding memory_runs
takes_named none k os s l d plain e no_error done = cc
takes_named (some true) k os s l d plain e no_error done = cc
takes_named (some false) k os s l d plain e no_error done = take_named k s l d e no_error done

pub refuses_held :
    (ctx : Option Bool) (k : String) (os : List LeaseOpt) (s : Store)
    (l : Leased Bool (Option String)) (x : Error)
    → (memory_lease ctx (with_id k ∷ os) s).0 ≡ ok l
    → l.error ≡ some x
    → is_held k (held s) ≡ true
unfolding memory_runs
refuses_held none k os s l x e refused = cc
refuses_held (some true) k os s l x e refused = ground arith
refuses_held (some false) k os s l x e refused = elim (Bool-cases (is_held k s.held)) [
  | inl h ↦ h
  | inr h ↦ ground (arith, h)
]

unfoldable pub memory_named : NamedLeases memory_leases
unfolding memory_runs memory_leases
memory_named = record {
  carries_lease = carries;
  takes_named = takes_named;
  refuses_held = λ ctx k os s l x e refused _. refuses_held ctx k os s l x e refused;
}
