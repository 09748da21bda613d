-- ===== src/Adapters/Session/Sharing.antt =====
-- Two processes that share the server.
use lidenal85_blip.Base.{
  ltb, if◌then◌else◌, string_eq, ℕ, ◌<◌, String, ◌≡◌, true, Option, none, some, arith,
}
use lidenal85_blip.Base.Dict.{lookup, lookup-insert_self}
use lidenal85_blip.Contracts.Value.{is_serialisable, Value}
use lidenal85_blip.Contracts.Floats.{Outcome, Floats, ok}
use lidenal85_blip.Contracts.Json.{Codec, IsLawful}
use lidenal85_blip.Contracts.Json
use lidenal85_blip.Redis.{StringStore}
use lidenal85_blip.Redis
use lidenal85_blip.Adapters.Items.{Python}
use lidenal85_blip.Adapters.Session.{session_key, Cache, get_session, save_session, World}

module _ (N : Floats) (py : Python N) (codec : Codec N.Float) (S : StringStore codec.Text)
    (ttl : ℕ) where
  open N use {Float}

  -- The process that saved a session gets it, whatever has become of the server's database since.
  pub save_session-cached :
      (source : String) (session : Value Float) (w : World Float S.Db) (later : S.Db)
      → let saved = (save_session N py codec S ttl source session w).0 in
        (get_session N py codec S ttl source (record saved { db = later })).1 ≡ ok (some session)
  unfolding save_session get_session
  save_session-cached source session w later =
      ground (arith, lookup-insert_self source session w.cache)

module _ (N : Floats) (py : Python N) (codec : Codec N.Float) (S : StringStore codec.Text) (ttl : ℕ)
    (reads_back : Json.IsLawful codec) (lawful : Redis.IsLawful S) (pos : 0 < ttl) where
  open N use {Float}

  -- what a process that has no session of the source in its cache gets, some time after the save
  abbrev pub elsewhere :
      String → Value Float → ℕ → World Float S.Db → Cache Float → Outcome (Option (Value Float))
  elsewhere source session waited w other =
      let saved = (save_session N py codec S ttl source session w).0 in
      (get_session N py codec S ttl source
        (record { cache = other; db = S.elapse waited saved.db })).1

  -- With a lawful server and codec, and a positive time to live: a session that JSON can write
  -- and that one process saves is what any other process gets, if that has none of the source in
  -- its cache, for the time to live, and from then on it gets none.
  pub save_session-get :
      (source : String) (session : Value Float) (waited : ℕ) (w : World Float S.Db)
      (other : Cache Float)
      → is_serialisable session ≡ true
      → lookup source other ≡ none
      → elsewhere source session waited w other ≡ ok (if ltb waited ttl then some session else none)
  unfolding save_session get_session
  save_session-get source session waited w other serialisable unknown =
      let (text, dumps, loads, full) = reads_back.dumps_ok session serialisable in
      let key : String = session_key source in
      ground (
        arith,
        dumps,
        loads,
        full,
        unknown,
        lawful.get-elapse key waited (S.setex key ttl text w.db),
        lawful.ttl-setex key key text ttl w.db,
        lawful.get-setex key key text ttl w.db,
      )
