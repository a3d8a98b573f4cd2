-- ===== src/Commands/Views.antt =====
-- Setting a store up and closing it, as seen by a view of the services that this leaves alone, and
-- where an exit with 0 comes from.
use containerdosstore.Prelude.{ℕ, String, Option, none, some, List, ◌≡◌, ◌∙◌, sym, ap, subst, true}
use containerdosstore.Exec.{Attempt, failed, returned, attempt, ok}
use containerdosstore.Exec.Cases.{attempt-world}
use containerdosstore.Exec.Inversion.{bind-ok, bind-returns, attempt-ok, defer-ok, ok_injective}
use containerdosstore.Exec.Keeps.{Keeps}
use containerdosstore.Services.{Services}
use containerdosstore.Services.Types.{Digest}
use containerdosstore.Services.Frame.{Same, Shows, Keeps-shown, frame_rules}
use containerdosstore.World.{World}
use containerdosstore.OciStore.{OciStore, init, is_initiated, new_oci_store, overlay_driver}
use containerdosstore.OciStore.Setup.{init-IsSetUp}
use containerdosstore.Commands.{
  Console, Command, RootFlags, init_cs, run, report_close, close_client, finalize, run_command,
  execute,
}
use containerdosstore.Commands.Flags.{
  RootLine, Line, main, main-zero, run_line, root_flags, root_values, command_of,
}
use containerdosstore.Commands.Outcomes.{exit_code-zero, execute-zero}
use mathlib.Core.Option.{some-injective}

-- Setting a store up, closing it and printing do not change the view.
pub record ConsoleFrame {S : Services} (console : Console S) {B : Type 0} (f : S.State → B)
    : Type 0 where
  pub new_snapshotter : (path : String) → Same f (S.new_snapshotter path)
  pub bolt_open : (path : String) → Same f (S.bolt_open path)
  pub new_content_store : (path : String) → Same f (S.new_content_store path)
  pub db_init : (ctx : Option S.Ctx) (db : S.Db) → Same f (S.db_init ctx db)
  pub new_client : (db : S.Db) (sn : S.Snapshotter) (p : S.Platform) → Same f (S.new_client db sn p)
  pub close_snapshotter : (sn : S.Snapshotter) → Same f (console.close_snapshotter sn)
  pub print_table : (rows : List (String × Digest)) → Same f (console.print_table rows)
  pub println : (text : String) → Same f (console.println text)

module _ {S : Services} (console : Console S) {B : Type 0} {f : S.State → B}
    (C : ConsoleFrame console f) (b : B) where
  init-Shows : (c : OciStore S) (ctx : S.Ctx) → Keeps (Shows {S = S} f b) (init c ctx)
  unfolding init
  init-Shows c ctx =
      search
        (frame_rules, C.new_snapshotter, C.bolt_open, C.new_content_store, C.db_init, C.new_client)
        depth 12

  pub init_cs-Shows : (flags : RootFlags) → Keeps (Shows {S = S} f b) (init_cs console flags)
  unfolding init_cs
  init_cs-Shows flags = search (frame_rules, init-Shows) depth 9

  report_close-Shows :
      (a : Attempt (Unit {0})) → Keeps (Shows {S = S} f b) (report_close {S = S} console a)
  unfolding report_close
  report_close-Shows (returned x) = search frame_rules
  report_close-Shows (failed e) = search frame_rules

  close_client-Shows :
      (cs : OciStore S) (cli : Option S.Client)
      → Keeps (Shows {S = S} f b) (close_client console cs cli)
  unfolding close_client
  close_client-Shows cs none = search frame_rules
  close_client-Shows cs (some cli) = search (frame_rules, C.close_snapshotter, report_close-Shows)

  pub finalize-Shows : (cs : OciStore S) → Keeps (Shows {S = S} f b) (finalize console cs)
  unfolding finalize
  finalize-Shows cs = search (frame_rules, close_client-Shows)

-- Every store of the command line has this driver.
abbrev pub on_overlay : {S : Services} → OciStore S → OciStore S
on_overlay c = record c { driver = overlay_driver }

module _ {S : Services} (console : Console S) {B : Type 0} {f : S.State → B}
    (C : ConsoleFrame console f) (fuel : ℕ) (command : Command) where
  -- The run of the command in a process that exits with 0, which leaves the world v.
  pub record Ran (w v : World S) : Type 0 where
    pub store : OciStore S
    pub begun : World S
    pub begun-is : f begun.services ≡ f w.services
    pub returned : (run console fuel (on_overlay store) command begun).0 ≡ ok tt
    pub left : f v.services ≡ f (run console fuel (on_overlay store) command begun).1.services

  run_command-Ran :
      (flags : RootFlags) (w : World S)
      → (run_command console fuel flags command w).0 ≡ ok tt
      → Ran w (run_command console fuel flags command w).1
  unfolding run_command init_cs new_oci_store
  run_command-Ran flags w e =
      let (session, started, left, world) = bind-returns (init_cs console flags) _ w tt e in
      let begun = (init_cs console flags w).1 in
      let cs = session.0 in
      let close = finalize console cs in
      let (ran, ended) =
        defer-ok (λ _. none) (run console fuel cs command) (λ _. close) begun tt left in
      let (_, _, inner) = bind-ok _ _ w started in
      let (cs', set, made) = bind-ok _ _ _ inner in
      let is : cs' ≡ cs = ap (λ (p : OciStore S × console.LogLevel). p.0) (ok_injective _ _ made) in
      let (_, _, _, _, driver, _, _) =
        init-IsSetUp (new_oci_store S flags.root) console.background _ cs' set in
      let same : cs ≡ on_overlay cs =
        ap (λ d. record cs { driver = d }) (ap (λ (c : OciStore S). c.driver) (sym is) ∙ driver) in
      record {
        store = cs;
        begun = begun;
        begun-is = Keeps-shown f (init_cs console flags) (λ b. init_cs-Shows console C b flags) w;
        returned = ap (λ c. (run console fuel c command begun).0) (sym same) ∙ ran;
        left =
            ap (λ (v : World S). f v.services) (world ∙ ended)
            ∙ Keeps-shown f close (λ b. finalize-Shows console C b cs)
                (run console fuel cs command begun).1
            ∙ ap (λ c. f (run console fuel c command begun).1.services) same;
      }

  execute-Ran :
      (flags : RootFlags) (w : World S)
      → (execute console fuel flags command w).0 ≡ ok 0
      → Ran w (execute console fuel flags command w).1
  unfolding execute
  execute-Ran flags w e =
      let m = run_command console fuel flags command in
      let (ended, ran, code, world) = bind-returns (attempt m) _ w 0 e in
      let fine : ended ≡ returned tt = exit_code-zero ended (ok_injective _ 0 code) in
      subst (Ran w) (sym (world ∙ attempt-world m w))
        (run_command-Ran flags w (attempt-ok m w tt (ran ∙ ap ok fine)))

  -- The same from the command line.
  pub main-Ran :
      (root : RootLine) (line : Line) (w : World S)
      → command_of line ≡ some command
      → (main console fuel root line w).0 ≡ ok 0
      → Ran w (main console fuel root line w).1
  unfolding main run_line
  main-Ran root line w is e =
      let (flags, command', flags-is, is', ran) = main-zero console fuel root line w e in
      let same : command' ≡ command = some-injective command' command (sym is' ∙ is) in
      let here : run_line console fuel (root_values root) (root_flags root) (command_of line) w
          ≡ execute console fuel flags command w =
        ap (λ o. run_line console fuel (root_values root) o (command_of line) w) flags-is
        ∙ ap (λ o. run_line console fuel (root_values root) (some flags) o w) is in
      subst (Ran w) (sym (ap (λ p. p.1) here))
        (execute-Ran flags w (ap (λ k. (execute console fuel flags k w).0) (sym same) ∙ ran))

-- A process exits with 0 only if the flags pass all checks of cobra, initCS set a store up, and the
-- command that the line makes, run on that store, returned no error.
pub main-run :
    {S : Services} (console : Console S) (fuel : ℕ) (root : RootLine) (line : Line) (w : World S)
    → (main console fuel root line w).0 ≡ ok 0
    → (flags : RootFlags) × (command : Command) × (cs : OciStore S) × (level : console.LogLevel)
      × (root_flags root ≡ some flags)
      × (command_of line ≡ some command)
      × ((init_cs console flags w).0 ≡ ok (cs, level))
      × (is_initiated cs ≡ true)
      × ((run console fuel cs command (init_cs console flags w).1).0 ≡ ok tt)
main-run console fuel root line w e =
    let (flags, command, flags-is, is, ran) = main-zero console fuel root line w e in
    let (cs, level, started, set, done) = execute-zero console fuel flags command w ran in
    (flags, command, cs, level, flags-is, is, started, set, done)
