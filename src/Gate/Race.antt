-- ===== src/Gate/Race.antt =====
-- Many clients at once: the GET and the SET of different clients interleave at will.
use lidenal85_blip.Base.{
  eqb, if◌then◌else◌, ◌==◌, string_eq, ℕ, ◌<◌, String, ◌≡◌, ◌≢◌, Bool, true, false, Option, none,
  some, arith,
}
use lidenal85_blip.Redis.{StringStore, IsLawful}
use lidenal85_blip.Gate.{lock_key}

-- Where a client stands in `check_and_set` of the one key.
pub data Pc : Type 0 where
  start missed refused accepted_pc duplicate_pc : Pc

abbrev pub update : (ℕ → Pc) → ℕ → Pc → ℕ → Pc
update f i p j = if eqb i j then p else f j

module _ (S : StringStore String) (ttl : ℕ) (key : String) where
  open S use {Db, get, set_nx_ex}

  pub record System : Type 0 where
    pub db : Db
    pub pc : ℕ → Pc

  -- after the GET
  abbrev pub after_get : Option String → Pc
  after_get none = missed
  after_get (some v) = if v == "" then missed else duplicate_pc

  -- after the SET
  abbrev pub after_set : Bool → Pc
  after_set true = accepted_pc
  after_set false = refused

  -- The command that client `i` sends next; the second GET changes nothing. And whatever else
  -- happens at the server, as long as it leaves a key that is set.
  pub data Step : System → System → Type 0 where
    get_step :
        (s : System) (i : ℕ)
        → s.pc i ≡ start
        → Step s (record s { pc = update s.pc i (after_get (get (lock_key key) s.db)) })
    set_step :
        (s : System) (i : ℕ) (now : String)
        → s.pc i ≡ missed
        → Step s (record {
          db = (set_nx_ex (lock_key key) now ttl s.db).0;
          pc = update s.pc i (after_set (set_nx_ex (lock_key key) now ttl s.db).1);
        })
    last_step :
        (s : System) (i : ℕ)
        → s.pc i ≡ refused
        → Step s (record s { pc = update s.pc i duplicate_pc })
    other_step :
        (s : System) (d : Db)
        → (get (lock_key key) s.db ≢ none → get (lock_key key) d ≢ none)
        → Step s (record s { db = d })

  pub data Reach (s : System) : System → Type 0 where
    here : Reach s s
    next : {t u : System} → Reach s t → Step t u → Reach s u

  pub record IsSafe (s : System) : Type 0 where
    pub accepted_set : (i : ℕ) → s.pc i ≡ accepted_pc → get (lock_key key) s.db ≢ none
    pub one_accepted : (i j : ℕ) → s.pc i ≡ accepted_pc → s.pc j ≡ accepted_pc → i ≡ j

  module _ (lawful : IsLawful S) (pos : 0 < ttl) where
    set_leaves :
        (now : String) (d : Db) → get (lock_key key) (set_nx_ex (lock_key key) now ttl d).0 ≢ none
    set_leaves now d =
        let e = lawful.get-set_nx_ex (lock_key key) (lock_key key) now ttl d pos in
        λ h. ground arith

    Step-IsSafe : {s t : System} → Step s t → IsSafe s → IsSafe t
    Step-IsSafe (get_step s i h) safe = record {
      accepted_set = λ j e. ground (arith, safe.accepted_set j);
      one_accepted = λ j k e f. ground (arith, safe.one_accepted j k);
    }
    Step-IsSafe (set_step s i now h) safe = record {
      accepted_set = λ j e. set_leaves now s.db;
      one_accepted = λ j k e f. ground (
        arith,
        lawful.set_nx_ex_answer (lock_key key) now ttl s.db,
        safe.accepted_set j,
        safe.accepted_set k,
        safe.one_accepted j k,
      );
    }
    Step-IsSafe (last_step s i h) safe = record {
      accepted_set = λ j e. ground (arith, safe.accepted_set j);
      one_accepted = λ j k e f. ground (arith, safe.one_accepted j k);
    }
    Step-IsSafe (other_step s d keeps) safe = record {
      accepted_set = λ j e. keeps (safe.accepted_set j e);
      one_accepted = safe.one_accepted;
    }

    Reach-IsSafe : {s t : System} → IsSafe s → Reach s t → IsSafe t
    Reach-IsSafe safe here = safe
    Reach-IsSafe safe (next r st) = Step-IsSafe st (Reach-IsSafe safe r)

    -- At a lawful server, with a positive time to live: however the commands of any number of
    -- clients that check the same key interleave, and whatever else happens at the server while
    -- the key stays set, at most one client is told ACCEPTED.
    pub at_most_one_accepted :
        (d : Db) (t : System)
        → Reach (record { db = d; pc = λ _. start }) t
        → (i j : ℕ) → t.pc i ≡ accepted_pc
        → t.pc j ≡ accepted_pc
        → i ≡ j
    at_most_one_accepted d t r =
        (Reach-IsSafe (record { accepted_set = λ j e. cc; one_accepted = λ j k e f. cc })
          r).one_accepted
