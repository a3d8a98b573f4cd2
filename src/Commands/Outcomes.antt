-- ===== src/Commands/Outcomes.antt =====
-- What the commands log and the code that the process exits with.
use containerdosstore.Prelude.{
  ℕ, String, Bool, true, false, List, [], ◌∷◌, ◌++◌, arith, ◌≡◌, ◌∙◌, refl, ap, sym, ◌==◌, ◌&&◌,
  not, if◌then◌else◌, is_some,
}
use containerdosstore.Exec.{ok, Exec, Attempt, failed, returned, attempt, ◌>>=◌, pure}
use containerdosstore.Exec.Cases.{bind_cases}
use containerdosstore.Exec.Inversion.{attempt-ok, defer-ok, bind-ok, ok_injective}
use containerdosstore.Exec.Keeps.{Keeps, keeps_rules}
use containerdosstore.Services.{Services}
use containerdosstore.World.{World, LogLine, Level, warn, call, log_at}
use containerdosstore.OciStore.{OciStore, new_oci_store, init, is_initiated}
use containerdosstore.OciStore.Setup.{init-IsSetUp}
use containerdosstore.Commands.{
  Console, RootFlags, Command, init_cs, run, run_command, execute, exit_code, debug_level,
}
use mathlib.Core.List.{append-nil}

pub exit_code-zero : (a : Attempt (Unit {0})) → exit_code a ≡ 0 → a ≡ returned tt
exit_code-zero (returned x) e = refl
exit_code-zero (failed x) e = absurd (omega (arith, e))

-- The line about the log level.
abbrev pub level_warning : RootFlags → List LogLine
level_warning flags =
    if not flags.debug && not (flags.loglevel == "")
    then record {
      level = warn;
      format = "could parse log level '%s', setting log to '%s' level";
      args = flags.loglevel ∷ debug_level ∷ [];
    }
      ∷ []
    else []

module _ {S : Services} where
  -- The log holds these lines.
  record Logged (lines : List LogLine) (w : World S) : Type 0 where
    logged : w.log ≡ lines

  call-Logged :
      {A : Type 0} (lines : List LogLine) (m : Exec S.State A) → Keeps (Logged lines) (call m)
  unfolding call
  call-Logged lines m = record { at = λ w h. record { logged = h.logged } }

  init-Logged :
      (lines : List LogLine) (c : OciStore S) (main_ctx : S.Ctx)
      → Keeps (Logged lines) (init c main_ctx)
  unfolding init
  init-Logged lines c main_ctx = search (keeps_rules, call-Logged) depth 12

  if_log :
      (b : Bool) (level : Level) (format : String) (args : List String) (w : World S)
      → ((if b then log_at level format args else pure tt) w).1.log
        ≡ w.log ++ (if b then record { level = level; format = format; args = args } ∷ [] else [])
  unfolding log_at
  if_log true level format args w = refl
  if_log false level format args w = sym (append-nil w.log)

  started-Logged :
      {A : Type 0} (lines : List LogLine) (c : OciStore S) (main_ctx : S.Ctx) (f : OciStore S → A)
      → Keeps (Logged lines) (init c main_ctx >>= λ cs. pure (f cs))
  started-Logged lines c main_ctx f = search (keeps_rules, init-Logged)

  init_cs-initiated :
      (console : Console S) (flags : RootFlags) (w : World S) (cs : OciStore S)
      (level : console.LogLevel)
      → (init_cs console flags w).0 ≡ ok (cs, level)
      → is_initiated cs ≡ true
  unfolding init_cs is_initiated
  init_cs-initiated console flags w cs level e =
      let (_, _, e1) = bind-ok _ _ w e in
      let (cs', started, e2) = bind-ok _ _ _ e1 in
      let same : cs' ≡ cs = ap (λ (p : OciStore S × console.LogLevel). p.0) (ok_injective _ _ e2) in
      let set = (init-IsSetUp (new_oci_store S flags.root) console.background _ cs' started).0 in
      ap (λ (c : OciStore S). is_some c.ctx) (sym same) ∙ ap is_some set

  -- initCS logs one warning whenever a log level is given without --debug, and nothing otherwise:
  -- neither the error of parsing the level nor what becomes of Init plays a part.
  pub init_cs-log :
      (console : Console S) (flags : RootFlags) (w : World S)
      → (init_cs console flags w).1.log ≡ w.log ++ level_warning flags
  unfolding init_cs log_at
  init_cs-log console flags w =
      let lines = w.log ++ level_warning flags in
      let m : Exec (World S) (Unit {0}) =
        if not flags.debug && not (flags.loglevel == "")
        then log_at warn "could parse log level '%s', setting log to '%s' level"
            (flags.loglevel ∷ debug_level ∷ [])
        else pure tt in
      let step : (m w).1.log ≡ lines =
        if_log (not flags.debug && not (flags.loglevel == "")) _ _ _ w in
      bind_cases (λ p. p.1.log ≡ lines) m _ w
        (λ u _.
          ((started-Logged lines _ console.background _).at (m w).1
            (record { logged = step })).logged)
        (λ _ _. step) (λ _. step) (λ _. step)

  -- The process exits with 0 only if initCS set a store up and the command, run on that store,
  -- returned no error.
  pub execute-zero :
      (console : Console S) (fuel : ℕ) (flags : RootFlags) (command : Command) (w : World S)
      → (execute console fuel flags command w).0 ≡ ok 0
      → let started = init_cs console flags w in
        (cs : OciStore S) × (level : console.LogLevel) × (started.0 ≡ ok (cs, level))
        × (is_initiated cs ≡ true)
        × ((run console fuel cs command started.1).0 ≡ ok tt)
  unfolding execute run_command
  execute-zero console fuel flags command w e =
      let (ended, ran, code) = bind-ok (attempt (run_command console fuel flags command)) _ w e in
      let fine : ended ≡ returned tt = exit_code-zero ended (ok_injective _ 0 code) in
      let whole = attempt-ok (run_command console fuel flags command) w tt (ran ∙ ap ok fine) in
      let (session, started, left) = bind-ok (init_cs console flags) _ w whole in
      (
        session.0,
        session.1,
        started,
        init_cs-initiated console flags w session.0 session.1 started,
        (defer-ok _ (run console fuel session.0 command) _ _ tt left).0,
      )
