-- ===== src/Commands/History.antt =====
-- Command lines run one after another on the same services, each as a process of its own.
use containerdosstore.Prelude.{
  ℕ, String, Bool, true, false, Option, none, some, ◌≡◌, ◌≢◌, ◌∙◌, refl, arith,
}
use containerdosstore.Exec.{Error, Outcome, ok, err, panic, exhausted, after_defer}
use containerdosstore.Exec.Cases.{bind_cases, defer_cases, try_cases}
use containerdosstore.Exec.Inversion.{ok_injective}
use containerdosstore.Exec.Keeps.{Keeps-bind, Keeps-attempt, Keeps-pure, Keeps-defer}
use containerdosstore.Services.Frame.{frame_rules}
use containerdosstore.Services.{Services}
use containerdosstore.Services.Leases.{LeaseLaws}
use containerdosstore.World.{World}
use containerdosstore.OciStore.Leasing.{KeepsLeases, KeepsLeases-held}
use containerdosstore.Commands.{
  Console, Command, RootFlags, MountFlags, mount_cmd, init_cs, run, finalize, run_command, execute,
  exit_code, run_mount,
}
use containerdosstore.Commands.Flags.{
  RootLine, Line, MountLine, commit_line, delete_line, import_line, list_line, list_snapshots_line,
  mount_line, pull_line, umount_line, unpack_line, commit_of, mount_of, mount_flags, main, run_line,
  refuse, refused_command, root_values, root_flags, command_of,
}
use containerdosstore.Commands.Leases.{is_quiet, run_command-KeepsLeases, run_mount-Fails, Fails}
use containerdosstore.Commands.Views.{ConsoleFrame, init_cs-Shows, finalize-Shows}

-- A line that is neither a mount nor an unmount.
abbrev pub is_quiet_line : Line → Bool
is_quiet_line (mount_line line target) = false
is_quiet_line (umount_line line target) = false
is_quiet_line _ = true

quiet_command :
    (line : Line) (command : Command)
    → is_quiet_line line ≡ true
    → command_of line ≡ some command
    → is_quiet command ≡ true
unfolding command_of commit_of
quiet_command (commit_line none key) command quiet e = cc
quiet_command (commit_line (some image) key) command quiet e = ground (arith, e)
quiet_command (delete_line name) command quiet e = ground (arith, e)
quiet_command (import_line unpack file) command quiet e = ground (arith, e)
quiet_command (list_line json) command quiet e = ground (arith, e)
quiet_command list_snapshots_line command quiet e = ground (arith, e)
quiet_command (mount_line line target) command quiet e = cc
quiet_command (pull_line unpack ref) command quiet e = ground (arith, e)
quiet_command (umount_line line target) command quiet e = cc
quiet_command (unpack_line name) command quiet e = ground (arith, e)

after_defer-err :
    {A B : Type 0} (r : Outcome A) (q : Outcome B) (e : Error) → after_defer r q ≡ err e → r ≡ err e
after_defer-err r (ok b) e h = h
after_defer-err r (err x) e h = h
after_defer-err r panic e h = cc
after_defer-err r exhausted e h = cc

no_error :
    {A B P : Type 0} (r : Outcome A) (q : Outcome B) (e : Error)
    → after_defer r q ≡ err e
    → r ≢ err e
    → P
no_error r q e h never = absurd (never (after_defer-err r q e h))

module _ {S : Services} (console : Console S) where
  -- One process: any command line but a mount or an unmount, with any outcome, or a mount that exits
  -- with 1.
  pub data Process : World S → World S → Type 0 where
    ran :
        {w : World S} (fuel : ℕ) (root : RootLine) (line : Line)
        → is_quiet_line line ≡ true
        → Process w (main console fuel root line w).1
    refused_mount :
        {w : World S} (fuel : ℕ) (root : RootLine) (line : MountLine) (target : String)
        → (main console fuel root (mount_line line target) w).0 ≡ ok 1
        → Process w (main console fuel root (mount_line line target) w).1

  -- Any number of processes
  pub data History : World S → World S → Type 0 where
    over : {w : World S} → History w w
    next : {w v u : World S} → Process w v → History v u → History w u

  module _ (L : LeaseLaws S) (C : ConsoleFrame console L.held) where
    execute-KeepsLeases :
        (fuel : ℕ) (flags : RootFlags) (command : Command)
        → is_quiet command ≡ true
        → KeepsLeases L (execute console fuel flags command)
    unfolding execute
    execute-KeepsLeases fuel flags command quiet l =
        Keeps-bind _ _ (λ ended. Keeps-pure (exit_code ended))
          (Keeps-attempt _ (run_command-KeepsLeases console L C fuel flags command quiet l))

    run_command-Fails :
        (fuel : ℕ) (flags : RootFlags) (given : MountFlags) (target : String) (w : World S)
        → Fails console L C
            (L.held w.services)
            (run_command console fuel flags (mount_cmd given target) w)
    unfolding run_command run
    run_command-Fails fuel flags given target w =
        let h = L.held w.services in
        let Q = Fails console L C {A = Unit {0}} h in
        let start = init_cs console flags in
        let same = KeepsLeases-held L start (λ l. init_cs-Shows console C l flags) w in
        let v = (start w).1 in
        bind_cases Q start _ w
          (λ session _.
            let m = run_mount console session.0 given target in
            let close = finalize console session.0 in
            defer_cases Q (λ _. none) m (λ _. close) v
              (λ a _ e q. no_error (ok a) (close (m v).1).0 e q (λ r. cc))
              (λ x r e _.
                KeepsLeases-held L close (λ l. finalize-Shows console C l session.0) (m v).1
                ∙ run_mount-Fails console L C session.0 given target v x r
                ∙ same)
              (λ _ e q. no_error panic (close (m v).1).0 e q (λ r. cc))
              (λ _ e q. no_error exhausted (close (m v).1).0 e q (λ r. cc)))
          (λ x _ e _. same) (λ _ e q. cc) (λ _ e q. cc)

    execute-refused :
        (fuel : ℕ) (flags : RootFlags) (given : MountFlags) (target : String) (w : World S)
        → let m = execute console fuel flags (mount_cmd given target) in
          (m w).0 ≡ ok 1 → L.held (m w).1.services ≡ L.held w.services
    unfolding execute
    execute-refused fuel flags given target w =
        let m = run_command console fuel flags (mount_cmd given target) in
        try_cases (λ p. p.0 ≡ ok 1 → L.held p.1.services ≡ L.held w.services) m _ w
          (λ a _ q. absurd (omega (arith, ok_injective _ _ q)))
          (λ x r _. run_command-Fails fuel flags given target w x r) (λ _ q. cc) (λ _ q. cc)

    -- A line that cobra refuses sets a store up and closes it.
    refuse-held :
        (values : RootFlags) (w : World S)
        → L.held (refuse console values w).1.services ≡ L.held w.services
    unfolding refuse refused_command
    refuse-held values w =
        KeepsLeases-held L (refuse console values)
          (λ l.
            Keeps-bind _ _ (λ ended. Keeps-pure (exit_code ended))
              (Keeps-attempt _ (
                Keeps-bind _ _
                  (λ session.
                    Keeps-defer _ _ _ (search frame_rules)
                      (λ e. finalize-Shows console C l session.0))
                  (init_cs-Shows console C l values))))
          w

    run_line-held :
        (fuel : ℕ) (values : RootFlags) (flags : Option RootFlags) (command : Option Command)
        (w : World S)
        → ((c : Command) → command ≡ some c → is_quiet c ≡ true)
        → L.held (run_line console fuel values flags command w).1.services ≡ L.held w.services
    unfolding run_line
    run_line-held fuel values (some flags) (some command) w quiet =
        KeepsLeases-held L (execute console fuel flags command)
          (execute-KeepsLeases fuel flags command (quiet command refl)) w
    run_line-held fuel values (some flags) none w quiet = refuse-held values w
    run_line-held fuel values none command w quiet = refuse-held values w

    run_line-refused :
        (fuel : ℕ) (values : RootFlags) (flags : Option RootFlags) (mounting : Option MountFlags)
        (target : String) (w : World S)
        → let m = run_line console fuel values flags (mount_of mounting target) in
          (m w).0 ≡ ok 1 → L.held (m w).1.services ≡ L.held w.services
    unfolding run_line mount_of
    run_line-refused fuel values (some flags) (some given) target w =
        execute-refused fuel flags given target w
    run_line-refused fuel values (some flags) none target w = λ e. refuse-held values w
    run_line-refused fuel values none (some given) target w = λ e. refuse-held values w
    run_line-refused fuel values none none target w = λ e. refuse-held values w

    held-Process : {w v : World S} → Process w v → L.held v.services ≡ L.held w.services
    unfolding main command_of
    held-Process (ran {w} fuel root line quiet) =
        run_line-held fuel (root_values root) (root_flags root) (command_of line) w
          (λ c e. quiet_command line c quiet e)
    held-Process (refused_mount {w} fuel root line target failed) =
        run_line-refused fuel (root_values root) (root_flags root) (mount_flags line) target w
          failed

    -- If no call of `done` fails, then however many command lines are run one after another, each as a
    -- process that sets up a store of its own, the leases held in the end are those held at the start,
    -- whether a process ends well or not: of the mounts only those that exit with 1 are among them,
    -- and no unmount.
    pub held-History : {w u : World S} → History w u → L.held u.services ≡ L.held w.services
    held-History over = refl
    held-History (next first rest) = held-History rest ∙ held-Process first
