-- ===== src/Gate/Clients.antt =====
-- Any number of clients that check any keys, over and over, while time passes at the server: the
-- commands of different calls of `check_and_set` interleave at will.
use lidenal85_blip.Base.{
  eqb, if◌then◌else◌, ℕ, ◌+◌, ◌<◌, String, ◌≡◌, refl, Bool, true, false, Option, List, [], ◌∷◌,
}
use lidenal85_blip.Redis.{StringStore, IsLawful}
use lidenal85_blip.Gate.{is_truthy, lock_key}
use lidenal85_blip.Gate.Held.{
  AreApart, Keeps, IsHeld-kept, IsHeld-elapse, IsHeld, set-Keeps, IsHeld-set,
}

-- Where a client stands in `check_and_set` of a key: between calls, before the GET, before the
-- SET, or before the second GET.
pub data Client : Type 0 where
  between_calls : Client
  before_get before_set before_reread : String → Client

abbrev pub update : (ℕ → Client) → ℕ → Client → ℕ → Client
update f i c j = if eqb i j then c else f j

-- after the GET: a text that is not empty is answered DUPLICATE
abbrev pub after_get : String → Option String → Client
after_get key seen = if is_truthy seen then between_calls else before_set key

-- after the SET: ACCEPTED, or another GET
abbrev pub after_set : String → Bool → Client
after_set key set = if set then between_calls else before_reread key

-- the keys that were answered ACCEPTED, with their times, after a SET at a time
abbrev pub recorded : String → ℕ → Bool → List (String × ℕ) → List (String × ℕ)
recorded key now set taken = if set then (key, now) ∷ taken else taken

module _ (S : StringStore String) (ttl : ℕ) where
  open S use {Db, get, set_nx_ex, elapse}

  pub record System : Type 0 where
    pub db : Db
    pub now : ℕ
    pub clients : ℕ → Client
    pub taken : List (String × ℕ)

  pub data Step : System → System → Type 0 where
    begins :
        (s : System) (i : ℕ) (key : String)
        → s.clients i ≡ between_calls
        → Step s (record s { clients = update s.clients i (before_get key) })
    gets :
        (s : System) (i : ℕ) (key : String)
        → s.clients i ≡ before_get key
        → Step s
            (record s { clients = update s.clients i (after_get key (get (lock_key key) s.db)) })
    sets :
        (s : System) (i : ℕ) (key stamp : String)
        → s.clients i ≡ before_set key
        → Step s (record s {
          db = (set_nx_ex (lock_key key) stamp ttl s.db).0;
          clients = update s.clients i (after_set key (set_nx_ex (lock_key key) stamp ttl s.db).1);
          taken = recorded key s.now (set_nx_ex (lock_key key) stamp ttl s.db).1 s.taken;
        })
    rereads :
        (s : System) (i : ℕ) (key : String)
        → s.clients i ≡ before_reread key
        → Step s (record s { clients = update s.clients i between_calls })
    waits : (s : System) (n : ℕ) → Step s (record s { db = elapse n s.db; now = s.now + n })
    -- whatever else happens, as long as it leaves the keys that are set, and their times to live
    other : (s : System) (d : Db) → Keeps S ttl s.db d → Step s (record s { db = d })

  pub data Reach (s : System) : System → Type 0 where
    here : Reach s s
    next : {t u : System} → Reach s t → Step t u → Reach s u

  module _ (lawful : IsLawful S) (pos : 0 < ttl) where
    abbrev Held : System → Type 0
    Held s = IsHeld S ttl s.db s.now s.taken

    recorded-IsHeld :
        (s : System) (key stamp : String) (answer : Bool)
        → (set_nx_ex (lock_key key) stamp ttl s.db).1 ≡ answer
        → Held s
        → IsHeld S ttl
            (set_nx_ex (lock_key key) stamp ttl s.db).0
            s.now
            (recorded key s.now answer s.taken)
    recorded-IsHeld s key stamp true e held =
        IsHeld-set S ttl lawful pos key stamp s.db s.now s.taken e held
    recorded-IsHeld s key stamp false e held =
        IsHeld-kept S ttl s.db (set_nx_ex (lock_key key) stamp ttl s.db).0 s.now s.taken
          (set-Keeps S ttl lawful pos key stamp s.db) held

    Step-Held : {s t : System} → Step s t → Held s → Held t
    Step-Held (begins s i key at) held = held
    Step-Held (gets s i key at) held = held
    Step-Held (sets s i key stamp at) held = recorded-IsHeld s key stamp _ refl held
    Step-Held (rereads s i key at) held = held
    Step-Held (waits s n) held = IsHeld-elapse S ttl lawful pos s.db s.now n s.taken held
    Step-Held (other s d keeps) held = IsHeld-kept S ttl s.db d s.now s.taken keeps held

    Reach-Held : {s t : System} → Held s → Reach s t → Held t
    Reach-Held held here = held
    Reach-Held held (next r step) = Step-Held step (Reach-Held held r)

    -- At a lawful server, with a positive time to live: however the commands of any number of
    -- clients interleave, whatever keys they check and however often, and however long the pauses
    -- are, as long as nothing else takes keys away that are set or shortens their times to live,
    -- two answers ACCEPTED for the same key are the time to live apart, at least.
    pub accepted_apart :
        (d : Db) (now : ℕ) (t : System)
        → Reach (record { db = d; now = now; clients = λ _. between_calls; taken = [] }) t
        → AreApart S ttl t.taken
    accepted_apart d now t r = (Reach-Held (record { apart = tt; blocked = tt }) r).apart
