-- ===== src/World.antt =====
-- The world that the methods of OCIStore change: the state of the services, and the lines that the
-- logger was given (pkg/logger: a line has a level, a format and the printed arguments).
use containerdosstore.Prelude.{String, List, [], ◌∷◌, ◌++◌, ◌<>◌}
use containerdosstore.Exec.{Error, failure, message, wrapped, ok, Exec}
use containerdosstore.Services.{Services}

pub data Level : Type 0 where
  debug info warn error : Level

pub record LogLine : Type 0 where
  pub level : Level
  pub format : String
  pub args : List String

pub record World (S : Services) : Type 0 where
  pub services : S.State
  pub log : List LogLine

-- What `%v` prints of an error.
abbrev pub error_text : Error → String
error_text (failure c text) = text
error_text (message text) = text
error_text (wrapped text e) = text <> (": " <> error_text e)

module _ {S : Services} where
  -- A call of a service.
  unfoldable pub call : {A : Type 0} → Exec S.State A → Exec (World S) A
  call m w = let (r, s) = m w.services in (r, record w { services = s })

  -- A call of the logger.
  unfoldable pub log_at : Level → String → List String → Exec (World S) (Unit {0})
  log_at level format args w =
      let line : LogLine = record { level = level; format = format; args = args } in
      (ok tt, record w { log = w.log ++ (line ∷ []) })

  abbrev pub debugf : String → List String → Exec (World S) (Unit {0})
  debugf = log_at debug

  abbrev pub infof : String → List String → Exec (World S) (Unit {0})
  infof = log_at info

  abbrev pub warnf : String → List String → Exec (World S) (Unit {0})
  warnf = log_at warn

  abbrev pub errorf : String → List String → Exec (World S) (Unit {0})
  errorf = log_at error
