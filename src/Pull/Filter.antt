-- ===== src/Pull/Filter.antt =====
-- The filter of Pull, which is to keep the client from unpacking by itself.
use containerdosstore.Prelude.{
  Bool, true, false, List, [], ◌∷◌, ◌++◌, ◌≡◌, ◌⊎◌, inl, inr, refl, ap, arith, if◌then◌else◌,
  Bool-cases, ℕ, ◌+◌,
}
use containerdosstore.Exec.{ok, ◌>>=◌}
use containerdosstore.Services.{Services}
use containerdosstore.World.{World, warn, log_at}
use containerdosstore.Pull.{found, drop_first, filter_pull_unpack}

module _ {ℓ} {A : Type ℓ} (test : A → Bool) where
  -- How many options the test takes.
  abbrev pub count : List A → ℕ
  count [] = 0
  count (o ∷ os) = (if test o then 1 else 0) + count os

  found-cons : (o : A) (os : List A) → test o ≡ true → found test (o ∷ os) ≡ true
  unfolding found
  found-cons o os e = ground (arith, e)

  -- The filter takes out one option that the test takes, the first, and keeps the order of the
  -- others; where the test takes none it changes nothing.
  pub drop_first-split :
      (os : List A)
      → ((count os ≡ 0) × (found test os ≡ false) × (drop_first test os ≡ os))
        ⊎ ((before : List A) × (o : A) × (behind : List A) × (os ≡ before ++ (o ∷ behind))
            × (test o ≡ true)
            × (count before ≡ 0)
            × (found test os ≡ true)
            × (drop_first test os ≡ before ++ behind))
  unfolding found drop_first
  drop_first-split [] = inl (refl, refl, refl)
  drop_first-split (o ∷ os) = elim (Bool-cases (test o)) [
    | inl e ↦ inr ([], o, os, refl, e, refl, ground (arith, e), ground (arith, e))
    | inr e ↦ elim (drop_first-split os) [
      | inl (zero_left, none_found, same) ↦
          inl (ground (arith, e), ground (arith, e), ground (arith, e))
      | inr (before, x, behind, split, taken, clear, seen, rest) ↦ inr (
        o ∷ before,
        x,
        behind,
        ap (λ (l : List A). o ∷ l) split,
        taken,
        ground (arith, e),
        ground (arith, e),
        ground (arith, e),
      )
    ]
  ]

-- What the filter of Pull does: where no option asks the client to unpack, it hands on the options as
-- they are and says nothing. Else it takes out the first that does, keeps all others in their order,
-- also those behind it that ask for the same, and logs one warning.
pub filter_pull_unpack-split :
    {S : Services} (opts : List S.RemoteOpt) (w : World S)
    → ((count S.is_pull_unpack opts ≡ 0) × (filter_pull_unpack opts w ≡ (ok opts, w)))
      ⊎ ((before : List S.RemoteOpt) × (o : S.RemoteOpt) × (behind : List S.RemoteOpt) × (opts
            ≡ before ++ (o ∷ behind))
          × (S.is_pull_unpack o ≡ true)
          × (count S.is_pull_unpack before ≡ 0)
          × (filter_pull_unpack opts w ≡ (
            ok (before ++ behind),
            record w {
              log =
                  w.log
                  ++ (record {
                    level = warn;
                    format = "Requested 'WithPullUnpack' option, ignoring it";
                    args = [];
                  }
                      ∷ []);
            },
          )))
unfolding filter_pull_unpack log_at ◌>>=◌
filter_pull_unpack-split {S} opts w = elim (drop_first-split S.is_pull_unpack opts) [
  | inl (none_left, none_found, same) ↦ inl (none_left, rw (none_found, if◌then◌else◌) refl)
  | inr (before, o, behind, split, taken, clear, seen, rest) ↦
      inr (before, o, behind, split, taken, clear, rw (seen, if◌then◌else◌, rest) refl)
]
