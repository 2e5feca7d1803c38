-- ===== src/Logging.antt =====
-- src/main.rs, `init_logging`: what is set up in the crate fern.
use dlna_proxy.Common.{Bool, Option, none, some, ◌++◌, if◌then◌else◌}
use dlna_proxy.Text.{Str, codes}
use dlna_proxy.Config.{LevelFilter, warn}

-- what the closure of `format` reads of a record: its target, the name of its level and its message
pub record LogRecord : Type 0 where
  pub target : Str
  pub level : Str
  pub message : Str

-- the text of the line; `now` is what chrono prints for the local time
unfoldable pub log_line : Str → LogRecord → Str
log_line now r =
    now ++ (codes "[" ++ (r.target ++ (codes "][" ++ (r.level ++ (codes "] " ++ r.message)))))

-- `fern::Dispatch`: the level of all targets, the one of the program's own, and the format
pub record Dispatch : Type 0 where
  pub level : LevelFilter
  pub level_for : Str × LevelFilter
  pub format : Str → LogRecord → Str

-- `init_logging`; `none` is the panic when a logger is there already
unfoldable pub init_logging : Bool → LevelFilter → Option Dispatch
init_logging applies verbosity =
    if applies
    then some
        (record { level = warn; level_for = (codes "dlnaproxy", verbosity); format = log_line })
    else none
