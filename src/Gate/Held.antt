-- ===== src/Gate/Held.antt =====
-- Keys of the gate that are set, and the times at which they were set: as long as its time to
-- live has not passed, a key refuses to be set again.
use lidenal85_blip.Base.{
  All, All-map, dec_lt, ℕ, ◌+◌, ◌≤◌, ◌<◌, String, ◌≡◌, sym, ap, ◌∙◌, ◌≢◌, true, none, List, [], ◌∷◌,
  arith,
}
use lidenal85_blip.Redis.{StringStore, IsLawful}
use lidenal85_blip.Gate.{lock_key}

module _ (S : StringStore String) (ttl : ℕ) where
  open S use {Db, get, set_nx_ex, elapse}

  -- A key with the time at which it was set: it stays set until its time to live has passed.
  abbrev pub Blocks : Db → ℕ → String × ℕ → Type 0
  Blocks d now entry =
      now < entry.1 + ttl
      → (get (lock_key entry.0) d ≢ none) × (entry.1 + ttl ≤ now + S.ttl (lock_key entry.0) d)

  abbrev After : String × ℕ → String × ℕ → Type 0
  After later earlier = later.0 ≡ earlier.0 → earlier.1 + ttl ≤ later.1

  -- Two entries of the same key, the newest first, are the time to live apart, at least.
  abbrev pub AreApart : List (String × ℕ) → Type 0
  AreApart [] = Unit
  AreApart (entry ∷ earlier) = All (After entry) earlier × AreApart earlier

  -- What is known of the entries at a time.
  pub record IsHeld (d : Db) (now : ℕ) (entries : List (String × ℕ)) : Type 0 where
    pub apart : AreApart entries
    pub blocked : All (Blocks d now) entries

  -- Keys that are set stay so, and live as long as before.
  abbrev pub Keeps : Db → Db → Type 0
  Keeps d d' =
      (key : String) → get key d ≢ none → (get key d' ≢ none) × (S.ttl key d ≤ S.ttl key d')

  Blocks-kept :
      (d d' : Db) (now : ℕ) (entry : String × ℕ)
      → Keeps d d'
      → Blocks d now entry
      → Blocks d' now entry
  Blocks-kept d d' now entry keeps blocks early =
      let (set, left) = blocks early in
      let (set', more) = keeps (lock_key entry.0) set in (set', omega arith)

  pub IsHeld-kept :
      (d d' : Db) (now : ℕ) (entries : List (String × ℕ))
      → Keeps d d'
      → IsHeld d now entries
      → IsHeld d' now entries
  IsHeld-kept d d' now entries keeps held = record {
    apart = held.apart;
    blocked = All-map entries (λ entry. Blocks-kept d d' now entry keeps) held.blocked;
  }

  module _ (lawful : IsLawful S) (pos : 0 < ttl) where
    pub set-Keeps : (key stamp : String) (d : Db) → Keeps d (set_nx_ex (lock_key key) stamp ttl d).0
    set-Keeps key stamp d j set = (
      λ gone. ground (arith, lawful.get-set_nx_ex j (lock_key key) stamp ttl d pos),
      ground (arith, lawful.ttl-set_nx_ex j (lock_key key) stamp ttl d),
    )

    set_taken :
        (key stamp : String) (d : Db)
        → (set_nx_ex (lock_key key) stamp ttl d).1 ≡ true
        → let d' = (set_nx_ex (lock_key key) stamp ttl d).0 in
          (get (lock_key key) d ≡ none)
          × (get (lock_key key) d' ≢ none)
          × (S.ttl (lock_key key) d' ≡ ttl)
    set_taken key stamp d taken =
        let answer = lawful.set_nx_ex_answer (lock_key key) stamp ttl d in
        (
          ground (arith, answer),
          λ gone.
              ground
                (arith, answer, lawful.get-set_nx_ex (lock_key key) (lock_key key) stamp ttl d pos),
          ground (arith, answer, lawful.ttl-set_nx_ex (lock_key key) (lock_key key) stamp ttl d),
        )

    -- a key that is not set blocks nothing any more
    fresh-After :
        (key : String) (d : Db) (now : ℕ) (entry : String × ℕ)
        → get (lock_key key) d ≡ none
        → Blocks d now entry
        → After (key, now) entry
    fresh-After key d now entry fresh blocks same = elim (dec_lt now (entry.1 + ttl)) [
      | yes early ↦
          absurd ((blocks early).0 (ap (λ (k : String). get (lock_key k) d) (sym same) ∙ fresh))
      | no late ↦ omega arith
    ]

    -- the SET that succeeds adds an entry
    pub IsHeld-set :
        (key stamp : String) (d : Db) (now : ℕ) (entries : List (String × ℕ))
        → (set_nx_ex (lock_key key) stamp ttl d).1 ≡ true
        → IsHeld d now entries
        → IsHeld (set_nx_ex (lock_key key) stamp ttl d).0 now ((key, now) ∷ entries)
    IsHeld-set key stamp d now entries taken held =
        let (fresh, set, left) = set_taken key stamp d taken in
        let d' = (set_nx_ex (lock_key key) stamp ttl d).0 in
        record {
          apart = (
            All-map entries (λ entry. fresh-After key d now entry fresh) held.blocked,
            held.apart,
          );
          blocked = (
            λ early. (set, omega (arith, left)),
            All-map entries (λ entry. Blocks-kept d d' now entry (set-Keeps key stamp d))
                held.blocked,
          );
        }

    Blocks-elapse :
        (d : Db) (now n : ℕ) (entry : String × ℕ)
        → Blocks d now entry
        → Blocks (elapse n d) (now + n) entry
    Blocks-elapse d now n entry blocks early =
        let key = lock_key entry.0 in
        let (set, left) = blocks (omega arith) in
        let lasts : n < S.ttl key d = omega arith in
        let same = lawful.get-elapse key n d in
        (λ gone. set (ground (arith, same, lasts)), omega (arith, lawful.ttl-elapse key n d))

    pub IsHeld-elapse :
        (d : Db) (now n : ℕ) (entries : List (String × ℕ))
        → IsHeld d now entries
        → IsHeld (elapse n d) (now + n) entries
    IsHeld-elapse d now n entries held = record {
      apart = held.apart;
      blocked = All-map entries (λ entry. Blocks-elapse d now n entry) held.blocked;
    }
