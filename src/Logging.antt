-- ===== src/Logging.antt =====
-- logging/logger.py: the session logger. The day, the time and the texts of the values are given,
-- and whether the file system takes a write; structlog's output is a list of entries.
pub mod Bound
use lidenal85_blip.Base.{
  if◌then◌else◌, ◌==◌, string_eq, ℕ, ◌+◌, String, ◌<>◌, Bool, true, ◌||◌, Option, none, some, List,
  [], ◌∷◌, ◌++◌,
}
use lidenal85_blip.Base.Dict.{Dict, lookup, insert, lookup-insert}

pub data Level : Type 0 where
  debug info warning error : Level

unfoldable pub icon : Level → String
icon info = "✓"
icon warning = "⚠"
icon error = "✗"
icon debug = "·"

-- `" | ".join(f"{k}={v}" for k, v in kw.items())`
unfoldable pub extra : Dict String String → String
extra [] = ""
extra ((k, v) ∷ []) = k <> ("=" <> v)
extra ((k, v) ∷ kw) = k <> ("=" <> (v <> (" | " <> extra kw)))

with_extra : String → String
with_extra text = if text == "" then "" else " | " <> text

unfoldable pub line : String → Level → String → Dict String String → String
unfolding with_extra icon extra
line ts level event kw =
    "[" <> (ts <> ("] " <> (icon level <> (" " <> (event <> (with_extra (extra kw) <> "\n"))))))

unfoldable pub header : String → String
header today = "# Session " <> (today <> " — survey-finder\n\n")

-- The session files by day, each as the pieces written to it, the first one first.
abbrev pub Files : Type 0
Files = Dict String (List String)

-- Whether the file system takes the header and the line.
pub record Disk : Type 0 where
  pub takes_header : Bool
  pub takes_line : Bool

append_line : Bool → String → String → List String → Files → Files
append_line takes today text pieces files =
    if takes then insert today (pieces ++ text ∷ []) files else files

write_line : Disk → String → String → Option (List String) → Files → Files
write_line disk today text (some pieces) files = append_line disk.takes_line today text pieces files
write_line disk today text none files =
    if disk.takes_header
    then append_line disk.takes_line today text (header today ∷ [])
        (insert today (header today ∷ []) files)
    else files

-- `_session_log`; every exception is caught
unfoldable pub session_log :
    Disk → String → String → Level → String → Dict String String → Files → Files
unfolding append_line write_line
session_log disk today ts level event kw files =
    write_line disk today (line ts level event kw) (lookup today files) files

-- A line of structlog's output.
pub record Entry : Type 0 where
  pub logger_name : String
  pub level : Level
  pub event : String
  pub fields : Dict String String

pub record Logs : Type 0 where
  pub stdout : List Entry
  pub files : Files

-- A `_SessionLogger`: its name, and the context that structlog's logger is bound to.
pub record SessionLogger : Type 0 where
  pub name : String
  pub context : Dict String String

-- `d.update(kw)`
unfoldable pub update : Dict String String → Dict String String → Dict String String
update d [] = d
update d ((k, v) ∷ kw) = update (insert k v d) kw

-- structlog writes an event with the logger's context and the arguments of the call
unfoldable pub entry : SessionLogger → Level → String → Dict String String → Entry
unfolding update
entry self level event kw = record {
  logger_name = self.name;
  level = level;
  event = event;
  fields = update self.context kw;
}

-- `debug`, `info`, `warning` and `error` of `_SessionLogger`
unfoldable pub log :
    Disk → String → String → SessionLogger → Level → String → Dict String String → Logs → Logs
unfolding entry
log disk today ts self debug event kw l = record l {
  stdout = l.stdout ++ entry self debug event kw ∷ [];
}
log disk today ts self level event kw l = record l {
  stdout = l.stdout ++ entry self level event kw ∷ [];
  files = session_log disk today ts level event kw l.files;
}

-- `bind`: a logger of the same name, by structlog's `bind`
unfoldable pub bind : Dict String String → SessionLogger → SessionLogger
unfolding update
bind kw self = record self { context = update self.context kw }

-- The module's state: `_CONFIGURED`, how often structlog was configured, and whether the
-- directory of the session files was made.
pub record Setup : Type 0 where
  pub configured : Bool
  pub configurations : ℕ
  pub has_directory : Bool

-- `_ensure_configured`, by whether `mkdir` succeeds
unfoldable pub ensure_configured : Bool → Setup → Setup
ensure_configured makes s = if s.configured then s else record {
  configured = true;
  configurations = s.configurations + 1;
  has_directory = makes || s.has_directory;
}

-- `get_logger`, over `_SessionLogger.__init__`
unfoldable pub get_logger : Bool → String → Setup → Setup × SessionLogger
unfolding ensure_configured
get_logger makes name s = (ensure_configured makes s, record { name = name; context = [] })

unfoldable pub init_logger : Bool → Setup → Setup × SessionLogger
init_logger makes s = get_logger makes "survey_finder" s

-- Every module of the program makes a logger, one after the other.
unfoldable pub get_loggers : List (Bool × String) → Setup → Setup × List SessionLogger
unfolding get_logger
get_loggers [] s = (s, [])
get_loggers ((makes, name) ∷ names) s =
    let (s', self) = get_logger makes name s in
    let (last, loggers) = get_loggers names s' in (last, self ∷ loggers)
