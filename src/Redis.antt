-- ===== src/Redis.antt =====
-- The Redis server, a parameter of the model: the commands that the program sends on string keys,
-- of texts of the type `A`, and on lists, with the behaviour that the Redis manual documents.
-- String keys and list keys have disjoint names in the program ("idempotency:", "lease:",
-- "session:" against "survey_buffer", "dlq:"), so each kind has a store of its own. A connection
-- error is not modelled here.
use lidenal85_blip.Base.{
  ltb, if◌then◌else◌, ◌==◌, string_eq, length, ℕ, ◌-◌, ◌<◌, String, ◌≡◌, Bool, true, false, Option,
  none, some, List, [], ◌∷◌, ◌++◌,
}

pub record StringStore (A : Type 0) : Type 1 where
  pub Db : Type 0
  -- GET
  pub get : String → Db → Option A
  -- the time that a key has left to live
  pub ttl : String → Db → ℕ
  -- SET key value NX EX seconds
  pub set_nx_ex : String → A → ℕ → Db → Db × Bool
  -- SETEX key seconds value
  pub setex : String → ℕ → A → Db → Db
  -- EXPIRE key seconds
  pub expire : String → ℕ → Db → Db
  -- DEL key
  pub delete : String → Db → Db
  -- the passage of time at the server
  pub elapse : ℕ → Db → Db

abbrev pub is_none {ℓ} : {A : Type ℓ} → Option A → Bool
is_none none = true
is_none (some a) = false

abbrev pub or_new {ℓ} : {A : Type ℓ} → Option A → A → Option A
or_new none v = some v
or_new (some old) v = some old

pub record IsLawful {A : Type 0} (S : StringStore A) : Type 0 where
  pub get-set_nx_ex :
      (j k : String) (v : A) (t : ℕ) (d : S.Db)
      → 0 < t
      → S.get j (S.set_nx_ex k v t d).0 ≡ (if j == k then or_new (S.get k d) v else S.get j d)
  pub set_nx_ex_answer :
      (k : String) (v : A) (t : ℕ) (d : S.Db) → (S.set_nx_ex k v t d).1 ≡ is_none (S.get k d)
  pub ttl-set_nx_ex :
      (j k : String) (v : A) (t : ℕ) (d : S.Db)
      → S.ttl j (S.set_nx_ex k v t d).0
        ≡ (if j == k then (if is_none (S.get k d) then t else S.ttl k d) else S.ttl j d)
  pub get-setex :
      (j k : String) (v : A) (t : ℕ) (d : S.Db)
      → 0 < t
      → S.get j (S.setex k t v d) ≡ (if j == k then some v else S.get j d)
  pub ttl-setex :
      (j k : String) (v : A) (t : ℕ) (d : S.Db)
      → S.ttl j (S.setex k t v d) ≡ (if j == k then t else S.ttl j d)
  pub get-delete :
      (j k : String) (d : S.Db) → S.get j (S.delete k d) ≡ (if j == k then none else S.get j d)
  pub get-expire : (j k : String) (t : ℕ) (d : S.Db) → 0 < t → S.get j (S.expire k t d) ≡ S.get j d
  pub get-elapse :
      (k : String) (n : ℕ) (d : S.Db)
      → S.get k (S.elapse n d) ≡ (if ltb n (S.ttl k d) then S.get k d else none)
  pub ttl-elapse : (k : String) (n : ℕ) (d : S.Db) → S.ttl k (S.elapse n d) ≡ S.ttl k d - n

-- Lists of texts of the type `A`, the newest first.
pub record ListStore (A : Type 0) : Type 1 where
  pub Db : Type 0
  -- LRANGE key 0 -1
  pub items : String → Db → List A
  pub llen : String → Db → ℕ
  pub lpush : String → A → Db → Db
  pub rpop : String → Db → Db × Option A
  pub delete : String → Db → Db
  pub expire : String → ℕ → Db → Db

pub record IsListLawful {A : Type 0} (S : ListStore A) : Type 0 where
  pub llen_items : (k : String) (d : S.Db) → S.llen k d ≡ length (S.items k d)
  pub items-lpush :
      (j k : String) (a : A) (d : S.Db)
      → S.items j (S.lpush k a d) ≡ (if j == k then a ∷ S.items k d else S.items j d)
  pub rpop_empty : (k : String) (d : S.Db) → S.items k d ≡ [] → S.rpop k d ≡ (d, none)
  pub rpop_last :
      (k : String) (older : List A) (a : A) (d : S.Db)
      → S.items k d ≡ older ++ a ∷ []
      → ((S.rpop k d).1 ≡ some a) × (S.items k (S.rpop k d).0 ≡ older)
  pub items-delete :
      (j k : String) (d : S.Db) → S.items j (S.delete k d) ≡ (if j == k then [] else S.items j d)
