-- ===== src/Snapshots/Prune.antt =====
-- What removing a snapshot chain means, on the table alone: `prune` takes the snapshot away if it is
-- there and has no children, then goes on with its parent, unless that is "" or the depth is used up.
use containerdosstore.Prelude.{
  sym, ℕ, zero, suc, ◌+◌, ◌≤◌, ◌<◌, ℤ, pos, String, true, false, none, some, [], ◌∷◌, ◌==◌, ◌||◌,
  ◌≡◌, ◌≢◌, inl, inr, refl, arith, eq_iff, length, Bool-cases, Option-cases, if◌then◌else◌, ap,
  subst,
}
use containerdosstore.Services.Types.{Info}
use containerdosstore.Snapshots.Chain.{is_zero, lower}
use containerdosstore.Snapshots.Table.{Table, find, has_child, erase}

unfoldable pub prune : ℕ → Table → String → ℤ → Table
prune zero t k d = t
prune (suc n) t k d = elim (find k t) [
  | none ↦ t
  | some i ↦
      let up = prune n (erase k t) i.parent (lower d) in
      if has_child k t then t else if i.parent == "" || is_zero d then erase k t else up
]

pub prune-zero : (t : Table) (k : String) (d : ℤ) → prune zero t k d ≡ t
unfolding prune
prune-zero t k d = refl

module _ (n : ℕ) (t : Table) (k : String) (d : ℤ) where
  pub prune-missing : find k t ≡ none → prune (suc n) t k d ≡ t
  unfolding prune
  prune-missing e = ground (arith, e)

  pub prune-blocked : has_child k t ≡ true → prune (suc n) t k d ≡ t
  unfolding prune
  prune-blocked h = ground (arith, h)

  pub prune-last :
      (i : Info)
      → find k t ≡ some i
      → has_child k t ≡ false
      → (i.parent == "" || is_zero d) ≡ true
      → prune (suc n) t k d ≡ erase k t
  unfolding prune
  prune-last i e h l = ground (arith, e, h)

  pub prune-up :
      (i : Info)
      → find k t ≡ some i
      → has_child k t ≡ false
      → (i.parent == "" || is_zero d) ≡ false
      → prune (suc n) t k d ≡ prune n (erase k t) i.parent (lower d)
  unfolding prune
  prune-up i e h l = ground (arith, e, h)

pub length-erase : (k : String) (t : Table) → length (erase k t) ≤ length t
unfolding erase
length-erase k [] = omega arith
length-erase k (i ∷ t) = ground (arith, length-erase k t)

-- Erasing what is there makes the table smaller.
pub length-erase_found :
    (k : String) (t : Table) (i : Info) → find k t ≡ some i → length (erase k t) < length t
unfolding erase find
length-erase_found k [] i h = cc
length-erase_found k (j ∷ t) i h = ground (arith, length-erase k t, length-erase_found k t i)

pub find-erase :
    (k j : String) (t : Table) → find j (erase k t) ≡ (if k == j then none else find j t)
unfolding find erase
find-erase k j [] = ground arith
find-erase k j (i ∷ t) =
    ground (arith, find-erase k j t, eq_iff i.name k, eq_iff i.name j, eq_iff k j)

-- Every snapshot stands in the table once.
abbrev pub IsUnique : Table → Type 0
IsUnique [] = Unit
IsUnique (i ∷ t) = (find i.name t ≡ none) × IsUnique t

erase-missing : (k : String) (t : Table) → find k t ≡ none → erase k t ≡ t
unfolding erase find
erase-missing k [] h = refl
erase-missing k (i ∷ t) h = ground (arith, erase-missing k t)

length-erase_unique : (k : String) (t : Table) → IsUnique t → length t ≤ length (erase k t) + 1
unfolding erase
length-erase_unique k [] u = omega arith
length-erase_unique k (i ∷ t) (fresh, u) = ground (
  arith,
  eq_iff i.name k,
  length-erase_unique k t u,
  λ (e : i.name ≡ k). ap length (erase-missing k t (subst (λ j. find j t ≡ none) e fresh)),
)

pub erase-IsUnique : (k : String) (t : Table) → IsUnique t → IsUnique (erase k t)
unfolding erase
erase-IsUnique k [] u = tt
erase-IsUnique k (i ∷ t) (fresh, u) = elim (Bool-cases (i.name == k)) [
  | inl e ↦ rw (e, if◌then◌else◌) (erase-IsUnique k t u)
  | inr e ↦ rw (e, if◌then◌else◌) (ground (arith, find-erase k i.name t), erase-IsUnique k t u)
]

-- At most `d + 1` snapshots go where the depth is `d`.
pub length-prune :
    (n : ℕ) (t : Table) (k : String) (d : ℕ)
    → IsUnique t
    → length t ≤ length (prune n t k (pos d)) + d + 1
unfolding prune
length-prune zero t k d u = omega arith
length-prune (suc n) t k zero u = elim (Option-cases (find k t)) [
  | inl e ↦ ground (arith, e)
  | inr (i, e) ↦ ground (arith, e, length-erase_unique k t u)
]
length-prune (suc n) t k (suc d) u = elim (Option-cases (find k t)) [
  | inl e ↦ ground (arith, e)
  | inr (i, e) ↦ ground (
    arith,
    e,
    length-erase_unique k t u,
    length-prune n (erase k t) i.parent d (erase-IsUnique k t u),
  )
]

-- Every parent is there.
abbrev pub IsClosed : Table → Type 0
IsClosed t = (k : String) (i : Info) → find k t ≡ some i → i.parent ≢ "" → find i.parent t ≢ none

parent-ne :
    (k j : String) (t : Table) (i : Info)
    → has_child k t ≡ false
    → find j t ≡ some i
    → (i.parent == k) ≡ false
unfolding has_child find
parent-ne k j [] i h e = cc
parent-ne k j (m ∷ t) i h e = ground (arith, parent-ne k j t i)

-- Taking away a snapshot without children orphans nobody.
pub erase-IsClosed :
    (k : String) (t : Table) → has_child k t ≡ false → IsClosed t → IsClosed (erase k t)
erase-IsClosed k t h c j i e p = ground (
  arith,
  find-erase k j t,
  find-erase k i.parent t,
  parent-ne k j t i h,
  c j i,
  p,
  eq_iff k i.parent,
  eq_iff i.parent k,
)

pub prune-IsClosed :
    (n : ℕ) (t : Table) (k : String) (d : ℤ) → IsClosed t → IsClosed (prune n t k d)
prune-IsClosed zero t k d c = subst IsClosed (sym (prune-zero t k d)) c
prune-IsClosed (suc n) t k d c = elim (Option-cases (find k t)) [
  | inl e ↦ subst IsClosed (sym (prune-missing n t k d e)) c
  | inr (i, e) ↦ elim (Bool-cases (has_child k t)) [
    | inl h ↦ subst IsClosed (sym (prune-blocked n t k d h)) c
    | inr h ↦ elim (Bool-cases (i.parent == "" || is_zero d)) [
      | inl l ↦ subst IsClosed (sym (prune-last n t k d i e h l)) (erase-IsClosed k t h c)
      | inr l ↦
          subst IsClosed (sym (prune-up n t k d i e h l))
            (prune-IsClosed n (erase k t) i.parent (lower d) (erase-IsClosed k t h c))
    ]
  ]
]

-- The snapshots on the way up from k.
pub data Ancestor (t : Table) : String → String → Type 0 where
  self : {k : String} → Ancestor t k k
  up : {k j : String} (i : Info) → find k t ≡ some i → Ancestor t i.parent j → Ancestor t k j

find-erase-some :
    (k j : String) (t : Table) (i : Info) → find j (erase k t) ≡ some i → find j t ≡ some i
find-erase-some k j t i e = ground (arith, find-erase k j t)

Ancestor-erase : (k : String) (t : Table) {a b : String} → Ancestor (erase k t) a b → Ancestor t a b
Ancestor-erase k t self = self
Ancestor-erase k t (up {k = j} i e r) = up i (find-erase-some k j t i e) (Ancestor-erase k t r)

-- What is not on the way up stays as it is.
pub find-prune :
    (n : ℕ) (t : Table) (k : String) (d : ℤ) (j : String)
    → ¬ Ancestor t k j
    → find j (prune n t k d) ≡ find j t
unfolding prune
find-prune zero t k d j a = refl
find-prune (suc n) t k d j a = elim (Option-cases (find k t)) [
  | inl e ↦ ground (arith, e)
  | inr (i, e) ↦
      let off : ¬ (k ≡ j) = λ p. a (subst (λ m. Ancestor t k m) p self) in
      let above =
        find-prune n (erase k t) i.parent (lower d) j (λ r. a (up i e (Ancestor-erase k t r))) in
      ground (arith, e, off, eq_iff k j, find-erase k j t, above)
]
