-- ===== src/Snapshots/Removal.antt =====
-- removeSnapshotsChain against `prune`: what the walk leaves of a lawful snapshotter's table.
use containerdosstore.Prelude.{
  ℕ, zero, suc, ◌+◌, ◌<◌, ◌≤◌, ℤ, pos, subst, String, Option, some, ◌≡◌, ◌≢◌, sym, ap, ◌∙◌, arith,
  length, ◌++◌, ◌∷◌, [], ◌==◌, ◌||◌, false, decimal,
}
use containerdosstore.Exec.{
  Error, wrapped, Outcome, ok, err, panic, exhausted, attempt, ◌>>=◌, is_not_found,
  is_failed_precondition,
}
use containerdosstore.Exec.Cases.{try_cases, if_cases}
use containerdosstore.Services.{Services}
use containerdosstore.Services.Types.{Info}
use containerdosstore.World.{World, LogLine, debug, warn, call, log_at}
use containerdosstore.Snapshots.Chain.{walk_chain, remove_snapshots_chain, is_zero, lower}
use containerdosstore.Snapshots.Table.{Table, find, has_child, erase, SnapshotLaws}
use containerdosstore.Snapshots.Prune.{
  prune, length-erase_found, prune-zero, IsUnique, IsClosed, prune-IsClosed, length-prune, Ancestor,
  find-prune, prune-missing, prune-blocked, prune-last, prune-up,
}
use containerdosstore.Snapshots.Description.{prune_all, prune-prune_all}

abbrev step_line : ℕ → LogLine
step_line step = record {
  level = debug;
  format = "removing snapshots chain step %d";
  args = decimal step ∷ [];
}

abbrev stop_line : String → LogLine
stop_line k = record {
  level = warn;
  format = "stopped walking chain, snapshot '%s' not found";
  args = k ∷ [];
}

module _ {S : Services} {sn : S.Snapshotter} (L : SnapshotLaws S sn) (ctx : Option S.Ctx) where
  -- An outcome and a world, against n rounds of `prune`: enough rounds end, a return without an error
  -- leaves what all rounds leave, and any outcome leaves what some number of rounds leaves.
  abbrev Refines : ℕ → Table → String → ℤ → Outcome (Unit {0}) × World S → Type 0
  Refines n t k d p =
      (length t < n → p.0 ≢ exhausted)
      × (p.0 ≡ ok tt → L.table p.1.services ≡ prune n t k d)
      × ((m : ℕ) × (L.table p.1.services ≡ prune m t k d))

  module _ (n : ℕ) (k : String) (d : ℤ) (w w' : World S) where
    -- The walk ends here, with the table of w' as the rounds of `prune` leave it.
    stops :
        L.table w'.services ≡ prune n (L.table w.services) k d
        → Refines n (L.table w.services) k d (ok tt, w')
    stops e = (λ _ q. cc, λ _. e, (n, e))

    fails :
        (e : Error)
        → L.table w'.services ≡ L.table w.services
        → Refines n (L.table w.services) k d (err e, w')
    fails e same = (λ _ q. cc, λ q. cc, (0, same ∙ sym (prune-zero (L.table w.services) k d)))

    breaks :
        L.table w'.services ≡ L.table w.services → Refines n (L.table w.services) k d (panic, w')
    breaks same = (λ _ q. cc, λ q. cc, (0, same ∙ sym (prune-zero (L.table w.services) k d)))

    -- The walk goes on at the parent.
    climbs :
        (i : Info) (p : Outcome (Unit {0}) × World S)
        → find k (L.table w.services) ≡ some i
        → has_child k (L.table w.services) ≡ false
        → (i.parent == "" || is_zero d) ≡ false
        → L.table w'.services ≡ erase k (L.table w.services)
        → Refines n (L.table w'.services) i.parent (lower d) p
        → Refines (suc n) (L.table w.services) k d p
    climbs i p e h l t r = (
      λ short. r.0 (omega (arith, ap length t, length-erase_found k (L.table w.services) i e)),
      λ q. r.1 q ∙ ap (λ u. prune n u i.parent (lower d)) t ∙ sym (prune-up n _ k d i e h l),
      (
        suc r.2.0,
        r.2.1 ∙ ap (λ u. prune r.2.0 u i.parent (lower d)) t ∙ sym (prune-up r.2.0 _ k d i e h l),
      ),
    )

  walk_chain-Refines :
      (n step : ℕ) (k : String) (d : ℤ) (w : World S)
      → Refines n (L.table w.services) k d (walk_chain n sn ctx k step d w)
  unfolding walk_chain log_at ◌>>=◌ attempt call
  walk_chain-Refines zero step k d w =
      (λ h. absurd (omega arith), λ e. cc, (0, sym (prune-zero (L.table w.services) k d)))
  walk_chain-Refines (suc n) step k d w =
      let t = L.table w.services in
      let s1 = (S.stat sn ctx k w.services).1 in
      let w1 : World S = record { services = s1; log = w.log ++ (step_line step ∷ []) } in
      let w2 : World S = record w1 { services = (S.remove sn ctx k s1).1 } in
      let same : L.table s1 ≡ t = L.table-stat ctx k w.services in
      try_cases (Refines (suc n) t k d) (call (S.stat sn ctx k)) _
        (record w { log = w.log ++ (step_line step ∷ []) })
        (λ i e.
          try_cases (Refines (suc n) t k d) (call (S.remove sn ctx k)) _ w1
            (λ u r.
              let gone = L.remove_removes ctx k s1 r in
              let free : has_child k t ≡ false = ap (has_child k) (sym same) ∙ gone.0 in
              let less : L.table w2.services ≡ erase k t = gone.1 ∙ ap (erase k) same in
              let found = L.stat_found ctx k w.services i e in
              if_cases (Refines (suc n) t k d) (i.parent == "" || is_zero d) _ _ w2
                (λ l. stops (suc n) k d w w2 (less ∙ sym (prune-last n t k d i found free l)))
                (λ l.
                  climbs n k d w w2 i (walk_chain n sn ctx i.parent (step + 1) (lower d) w2) found
                    free l less (walk_chain-Refines n (step + 1) i.parent (lower d) w2)))
            (λ x r.
              let kept = L.remove_fails ctx k s1 (λ q. cc) in
              if_cases (Refines (suc n) t k d) (is_failed_precondition x) _ _ w2
                (λ p.
                  let full = ap (has_child k) (sym same) ∙ L.remove_precondition ctx k s1 x r p in
                  stops (suc n) k d w w2 (kept ∙ same ∙ sym (prune-blocked n t k d full)))
                (λ p. fails (suc n) k d w w2 (wrapped "error removing snapshot" x) (kept ∙ same)))
            (λ r. breaks (suc n) k d w w2 (L.remove_fails ctx k s1 (λ q. cc) ∙ same))
            (λ r. absurd (L.remove_ends ctx k s1 r)))
        (λ x e.
          if_cases (Refines (suc n) t k d) (is_not_found x) _ _ w1
            (λ p.
              stops (suc n) k d w (record w1 { log = w1.log ++ (stop_line k ∷ []) })
                (same ∙ sym (prune-missing n t k d (L.stat_missing ctx k w.services x e p))))
            (λ p. fails (suc n) k d w w1 x same))
        (λ e. breaks (suc n) k d w w1 same) (λ e. absurd (L.stat_ends ctx k w.services e))

  module _ (fuel : ℕ) (key : String) (depth : ℤ) (w : World S) where
    abbrev pub left : Table
    left = L.table (remove_snapshots_chain fuel ctx sn key depth w).1.services

    pub rounds : (m : ℕ) × (left ≡ prune m (L.table w.services) key depth)
    unfolding remove_snapshots_chain
    rounds = (walk_chain-Refines fuel 0 key depth w).2

    -- Given more fuel than there are snapshots, removeSnapshotsChain ends: it does not run out of
    -- fuel, whatever the snapshotter answers.
    pub remove_snapshots_chain-ends :
        length (L.table w.services) < fuel
        → (remove_snapshots_chain fuel ctx sn key depth w).0 ≢ exhausted
    unfolding remove_snapshots_chain
    remove_snapshots_chain-ends h = (walk_chain-Refines fuel 0 key depth w).0 h

    -- Where removeSnapshotsChain returns no error, and the fuel exceeds the number of snapshots, the
    -- table is the one that `prune_all` describes: the snapshot goes if it is there and childless,
    -- then its parent in the same way, until a snapshot has no parent or, where the depth is not
    -- negative, depth parents have gone.
    pub table-remove_snapshots_chain :
        length (L.table w.services) < fuel
        → (remove_snapshots_chain fuel ctx sn key depth w).0 ≡ ok tt
        → L.table (remove_snapshots_chain fuel ctx sn key depth w).1.services
          ≡ prune_all (L.table w.services) key depth
    unfolding remove_snapshots_chain
    table-remove_snapshots_chain h e =
        (walk_chain-Refines fuel 0 key depth w).1 e
        ∙ prune-prune_all fuel (L.table w.services) key depth h

    -- If every parent is in the table before, so it is after removeSnapshotsChain, also where that
    -- fails or panics: no snapshot loses its parent.
    pub remove_snapshots_chain-IsClosed :
        IsClosed (L.table w.services)
        → IsClosed (L.table (remove_snapshots_chain fuel ctx sn key depth w).1.services)
    remove_snapshots_chain-IsClosed h =
        subst IsClosed (sym rounds.1) (prune-IsClosed rounds.0 (L.table w.services) key depth h)

    -- A snapshot that is not the given one and not above it is found, or missing, as before, whatever
    -- the outcome of removeSnapshotsChain.
    pub find-remove_snapshots_chain :
        (j : String)
        → ¬ Ancestor (L.table w.services) key j
        → find j (L.table (remove_snapshots_chain fuel ctx sn key depth w).1.services)
          ≡ find j (L.table w.services)
    find-remove_snapshots_chain j off =
        ap (find j) rounds.1 ∙ find-prune rounds.0 (L.table w.services) key depth j off

  -- With a depth that is not negative at most depth + 1 snapshots go, whatever the outcome, if names
  -- are unique in the table.
  pub length-remove_snapshots_chain :
      (fuel : ℕ) (key : String) (depth : ℕ) (w : World S)
      → IsUnique (L.table w.services)
      → length (L.table w.services)
        ≤ length (L.table (remove_snapshots_chain fuel ctx sn key (pos depth) w).1.services)
          + depth
          + 1
  length-remove_snapshots_chain fuel key depth w u = omega (
    arith,
    ap length (rounds fuel key (pos depth) w).1,
    length-prune (rounds fuel key (pos depth) w).0 (L.table w.services) key depth u,
  )
