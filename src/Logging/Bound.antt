-- ===== src/Logging/Bound.antt =====
-- What the session files and structlog's output hold of an event.
use lidenal85_blip.Base.{
  Option-cases, if◌then◌else◌, ◌==◌, string_eq, String, ◌≡◌, refl, inl, inr, Bool, true, false,
  ◌||◌, Option, none, some, List, [], ◌∷◌, ◌++◌, arith,
}
use lidenal85_blip.Base.Dict.{Dict, lookup, insert, lookup-insert, lookup-insert_self}
use lidenal85_blip.Logging.{
  line, header, Files, session_log, update, entry, log, bind, ensure_configured, get_loggers, Level,
  Disk, Logs, SessionLogger, Setup, debug, info, warning, error,
}

-- what the file of a day is before a line: empty files begin with the header
abbrev or_header : String → Option (List String) → List String
or_header today none = header today ∷ []
or_header today (some pieces) = pieces

-- On a disk that takes both writes the line stands at the end of the day's file, after the header
-- if the file is new, and the files of other days stay as they are.
pub lookup-session_log :
    (today other ts event : String) (level : Level) (kw : Dict String String) (files : Files)
    → lookup other (
        session_log
          (record { takes_header = true; takes_line = true })
          today
          ts
          level
          event
          kw
          files)
      ≡ (if other == today
          then some (or_header today (lookup today files) ++ line ts level event kw ∷ [])
          else lookup other files)
unfolding session_log
lookup-session_log today other ts event level kw files =
    let text : String = line ts level event kw in
    let first : List String = header today ∷ [] in
    elim (Option-cases (lookup today files)) [
      | inl new ↦ ground (
        arith,
        lookup-insert other today (first ++ text ∷ []) (insert today first files),
        lookup-insert other today first files,
      )
      | inr (pieces, old) ↦ ground (arith, lookup-insert other today (pieces ++ text ∷ []) files)
    ]

lookup-update :
    (k v : String) (d kw : Dict String String)
    → lookup k d ≡ some v
    → lookup k kw ≡ none
    → lookup k (update d kw) ≡ some v
unfolding update lookup
lookup-update k v d [] old new = old
lookup-update k v d ((j, w) ∷ kw) old new =
    ground (arith, lookup-insert k j w d, lookup-update k v (insert j w d) kw)

-- A value that a logger is bound to stands in structlog's entry of each of its events whose own
-- arguments do not have the key, but the session files are those of the unbound logger.
pub bound_value_lost :
    (disk : Disk) (today ts event k v : String) (level : Level) (self : SessionLogger)
    (kw : Dict String String) (l : Logs)
    → lookup k kw ≡ none
    → let bound = bind ((k, v) ∷ []) self in
      (lookup k (entry bound level event kw).fields ≡ some v)
      × ((log disk today ts bound level event kw l).files
          ≡ (log disk today ts self level event kw l).files)
unfolding bind entry update log
bound_value_lost disk today ts event k v level self kw l absent = (
  lookup-update k v (insert k v self.context) kw (lookup-insert_self k v self.context) absent,
  same_files level,
)
  where
    same_files :
        (level : Level)
        → (log disk today ts (bind ((k, v) ∷ []) self) level event kw l).files
          ≡ (log disk today ts self level event kw l).files
    same_files debug = refl
    same_files info = refl
    same_files warning = refl
    same_files error = refl

stays_configured :
    (names : List (Bool × String)) (s : Setup) → s.configured ≡ true → (get_loggers names s).0 ≡ s
unfolding get_loggers ensure_configured
stays_configured [] s h = refl
stays_configured ((makes, name) ∷ names) s h = ground (arith, stays_configured names s h)

-- However many loggers are made, structlog is configured once: by the first of them.
pub configured_once :
    (makes : Bool) (name : String) (names : List (Bool × String))
    → (get_loggers
        ((makes, name) ∷ names)
        (record { configured = false; configurations = 0; has_directory = false })).0
      ≡ record { configured = true; configurations = 1; has_directory = makes || false }
unfolding get_loggers ensure_configured
configured_once makes name names =
    stays_configured names
      (record { configured = true; configurations = 1; has_directory = makes || false }) refl
