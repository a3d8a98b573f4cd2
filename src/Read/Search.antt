-- ===== src/Read/Search.antt =====
-- What ReadManifest finds in an index.
use containerdosstore.Prelude.{
  true, false, ◌⊎◌, inl, inr, Option, some, List, [], ◌∷◌, ◌++◌, ◌≡◌, ◌∙◌, ap, subst, if◌then◌else◌,
}
use containerdosstore.Exec.{
  Error, err, Exec, Outcome, ok, Attempt, failed, returned, attempt, lift, pure, ◌>>=◌,
}
use containerdosstore.Exec.Cases.{if_cases}
use containerdosstore.Exec.Inversion.{bind-ok, ok_injective, attempt-ok, attempt-failed}
use containerdosstore.Services.{Services}
use containerdosstore.Services.Types.{Descriptor, Manifest}
use containerdosstore.World.{World, call}
use containerdosstore.Read.{same_descriptor, find_manifest}
use mathlib.Core.Option.{some-injective}

-- What the search goes past: a descriptor whose content cannot be read, or whose manifest has another
-- configuration.
abbrev pub PassedOver : (S : Services) → Option S.Ctx → Descriptor → Descriptor → Type 0
PassedOver S ctx config d =
    (s : S.State) × (((x : Error) × ((S.read_blob ctx d s).0 ≡ err x))
      ⊎ ((b : S.Bytes) × (m : Manifest) × ((S.read_blob ctx d s).0 ≡ ok b)
          × (S.decode_manifest b ≡ ok m)
          × (same_descriptor config m.config ≡ false)))

abbrev pub AllPassedOver : (S : Services) → Option S.Ctx → Descriptor → List Descriptor → Type 0
AllPassedOver S ctx config [] = Unit
AllPassedOver S ctx config (d ∷ ds) = PassedOver S ctx config d × AllPassedOver S ctx config ds

-- The descriptor stands in the index, behind ones that are passed over, the manifest is what was read
-- under it, in some state, and its configuration is the one that was asked for.
abbrev pub Matches :
    (S : Services) → Option S.Ctx → Descriptor → List Descriptor → Manifest → Descriptor → Type 0
Matches S ctx config descs m d =
    ((before : List Descriptor) × (behind : List Descriptor) × (descs ≡ before ++ (d ∷ behind))
      × AllPassedOver S ctx config before)
    × (same_descriptor config m.config ≡ true)
    × ((s : S.State) × (b : S.Bytes) × ((S.read_blob ctx d s).0 ≡ ok b)
        × (S.decode_manifest b ≡ ok m))

further :
    (S : Services) (ctx : Option S.Ctx) (config d0 : Descriptor) (descs : List Descriptor)
    (m : Manifest) (d : Descriptor)
    → PassedOver S ctx config d0
    → Matches S ctx config descs m d
    → Matches S ctx config (d0 ∷ descs) m d
further S ctx config d0 descs m d over ((before, behind, split, passed), same, found) =
    ((d0 ∷ before, behind, ap (λ (l : List Descriptor). d0 ∷ l) split, (over, passed)), same, found)

module _ {S : Services} (ctx : Option S.Ctx) (config : Descriptor) where
  found_here :
      (desc : Descriptor) (descs : List Descriptor) (m : Manifest) (d : Descriptor)
      (mani : Manifest) (w : World S) (b : S.Bytes)
      → same_descriptor config mani.config ≡ true
      → (call (S.read_blob ctx desc) w).0 ≡ ok b
      → S.decode_manifest b ≡ ok mani
      → ◌≡◌ {A = Manifest × Descriptor} (mani, desc) (m, d)
      → Matches S ctx config (desc ∷ descs) m d
  unfolding call
  found_here desc descs m d mani w b same read dec pair =
      let mani_is : mani ≡ m = ap (λ (p : Manifest × Descriptor). p.0) pair in
      let desc_is : desc ≡ d = ap (λ (p : Manifest × Descriptor). p.1) pair in
      (
        ([], descs, ap (λ (x : Descriptor). x ∷ descs) desc_is, tt),
        subst (λ x. same_descriptor config x.config ≡ true) mani_is same,
        (
          w.services,
          b,
          subst (λ x. (S.read_blob ctx x w.services).0 ≡ ok b) desc_is read,
          dec ∙ ap ok mani_is,
        ),
      )

  -- Where the search of an index finds a manifest, its descriptor stands in the index, the manifest
  -- is what was read and decoded under that descriptor, and its configuration is the one asked for.
  -- It is the first such: what stands before it cannot be read or has another configuration.
  pub find_manifest-Matches :
      (descs : List Descriptor) (w : World S) (m : Manifest) (d : Descriptor)
      → (find_manifest ctx config descs w).0 ≡ ok (some (m, d))
      → Matches S ctx config descs m d
  unfolding find_manifest call
  find_manifest-Matches [] w m d e = cc
  find_manifest-Matches (desc ∷ descs) w m d e =
      let (a, ran, e1) = bind-ok (attempt (call (S.read_blob ctx desc))) _ w e in
      let w1 = (attempt (call (S.read_blob ctx desc)) w).1 in
      go (λ v q. find_manifest-Matches descs v m d q) a ran w1 e1
    where
      go :
          ((v : World S)
            → (find_manifest ctx config descs v).0 ≡ ok (some (m, d))
            → Matches S ctx config descs m d)
          → (a : Attempt S.Bytes) → (attempt (call (S.read_blob ctx desc)) w).0 ≡ ok a
          → (w1 : World S)
          → ((elim a as (λ _. Exec (World S) (Option (Manifest × Descriptor))) [
            | failed x ↦ find_manifest ctx config descs
            | returned b ↦ lift (S.decode_manifest b) >>= λ mani.
                if same_descriptor config mani.config
                then pure (some (mani, desc))
                else find_manifest ctx config descs
          ])
              w1).0
            ≡ ok (some (m, d))
          → Matches S ctx config (desc ∷ descs) m d
      go ih (failed x) ran w1 q =
          further S ctx config desc descs m d
            (w.services, inl (x, attempt-failed (call (S.read_blob ctx desc)) w x ran)) (ih w1 q)
      go ih (returned b) ran w1 q =
          let (mani, dec, q1) = bind-ok (lift (S.decode_manifest b)) _ w1 q in
          let Q = λ (p : Outcome (Option (Manifest × Descriptor)) × World S).
            p.0 ≡ ok (some (m, d)) → Matches S ctx config (desc ∷ descs) m d in
          if_cases Q (same_descriptor config mani.config) _ _ w1
            (λ same r.
              found_here desc descs m d mani w b same
                (attempt-ok (call (S.read_blob ctx desc)) w b ran) dec
                (some-injective _ _ (ok_injective _ _ r)))
            (λ other r.
              further S ctx config desc descs m d
                (
                  w.services,
                  inr (b, mani, attempt-ok (call (S.read_blob ctx desc)) w b ran, dec, other),
                )
                (ih w1 r))
            q1
