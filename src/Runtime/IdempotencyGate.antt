-- ===== src/Runtime/IdempotencyGate.antt =====
-- runtime/idempotency.py: keys with the time at which they were first seen. `check_and_set` reads
-- the clock in `_cleanup` and once more when it stores a key: two arguments, `t` and `t'`.
pub mod Window
use lidenal85_blip.Base.{
  ltb, if◌then◌else◌, string_eq, ℕ, ◌+◌, String, Bool, true, false, List, [], ◌∷◌,
}
use lidenal85_blip.Base.Dict.{Dict, has, insert, erase}

pub record IdempotencyGate : Type 0 where
  pub ttl_seconds : ℕ
  pub store : Dict String ℕ

-- `now - v > ttl`
abbrev pub is_expired : ℕ → ℕ → ℕ → Bool
is_expired ttl now v = ltb (v + ttl) now

-- `[k for k, v in self._store.items() if now - v > self.ttl_seconds]`
unfoldable pub expired : ℕ → ℕ → Dict String ℕ → List String
expired ttl now [] = []
expired ttl now ((k, v) ∷ d) =
    let rest = expired ttl now d in if is_expired ttl now v then k ∷ rest else rest

-- `for k in expired: del self._store[k]`
unfoldable pub erase_all : List String → Dict String ℕ → Dict String ℕ
erase_all [] d = d
erase_all (k ∷ ks) d = erase_all ks (erase k d)

unfoldable pub cleanup : ℕ → IdempotencyGate → IdempotencyGate
unfolding expired erase_all
cleanup now g = record g { store = erase_all (expired g.ttl_seconds now g.store) g.store }

unfoldable pub check_and_set : String → ℕ → ℕ → IdempotencyGate → IdempotencyGate × Bool
check_and_set key t t' g =
    let g' = cleanup t g in
    if has key g'.store then (g', false) else (record g' { store = insert key t' g'.store }, true)
