-- ===== src/Adapters/Proxy.antt =====
-- adapters/proxy.py: ProxyManager over a set of the Redis server, a parameter, and
-- `random.choice`, which is given. Log lines are left out.
use lidenal85_blip.Base.{
  if◌then◌else◌, ◌==◌, string_eq, ℕ, String, ◌≡◌, ◌≢◌, Bool, true, false, ◌||◌, Option, none, some,
  List, [], ◌∷◌, arith,
}

-- SMEMBERS, SADD and SREM of one key.
pub record SetStore : Type 1 where
  pub Db : Type 0
  pub smembers : Db → List String
  pub sadd : String → Db → Db
  pub srem : String → Db → Db

abbrev pub contains : String → List String → Bool
contains x [] = false
contains x (y ∷ ys) = x == y || contains x ys

pub record IsSetLawful (S : SetStore) : Type 0 where
  pub smembers-sadd :
      (x y : String) (d : S.Db)
      → contains x (S.smembers (S.sadd y d)) ≡ (x == y || contains x (S.smembers d))
  pub smembers-srem :
      (x y : String) (d : S.Db)
      → contains x (S.smembers (S.srem y d)) ≡ (if x == y then false else contains x (S.smembers d))

module _ (S : SetStore) where
  open S use {Db, smembers, sadd, srem}

  -- The manager with the server's set; `last_refresh` is none before the first refresh.
  pub record ProxyManager : Type 0 where
    pub db : Db
    pub proxy_cache : List String
    pub last_refresh : Option ℕ

  unfoldable pub add_proxy : String → ProxyManager → ProxyManager
  add_proxy url m = record m { db = sadd url m.db; proxy_cache = [] }

  unfoldable pub remove_proxy : String → ProxyManager → ProxyManager
  remove_proxy url m = record m { db = srem url m.db; proxy_cache = [] }

  unfoldable pub mark_failed : String → ProxyManager → ProxyManager
  unfolding remove_proxy
  mark_failed url m = remove_proxy url m

  unfoldable pub get_proxies : ProxyManager → List String
  get_proxies m = smembers m.db

  choose : (String → List String → String) → List String → Option String
  choose choice [] = none
  choose choice (url ∷ urls) = some (choice url urls)

  -- `get_proxy`; `choice` is given the list as its first item and the others
  unfoldable pub get_proxy : (String → List String → String) → ProxyManager → Option String
  unfolding choose get_proxies
  get_proxy choice m = choose choice (get_proxies m)

  unfoldable pub refresh_cache : ℕ → ProxyManager → ProxyManager
  unfolding get_proxies
  refresh_cache now m = record m { proxy_cache = get_proxies m; last_refresh = some now }

  -- a choice is an item of the list
  abbrev pub IsChoice : (String → List String → String) → Type 0
  IsChoice choice = (x : String) (xs : List String) → contains (choice x xs) (x ∷ xs) ≡ true

  choose-contains :
      (choice : String → List String → String) (xs : List String) {url : String}
      → IsChoice choice
      → choose choice xs ≡ some url
      → contains url xs ≡ true
  unfolding choose
  choose-contains choice [] among e = ground arith
  choose-contains choice (x ∷ xs) among e = ground (arith, among x xs)

  -- A proxy that is got right after another was marked as failed is in the server's set, and is
  -- not the failed one.
  pub mark_failed-get_proxy :
      (lawful : IsSetLawful S) (choice : String → List String → String) (failed : String)
      (m : ProxyManager) {url : String}
      → IsChoice choice
      → get_proxy choice (mark_failed failed m) ≡ some url
      → (url ≢ failed) × (contains url (get_proxies m) ≡ true)
  unfolding get_proxy mark_failed
  mark_failed-get_proxy lawful choice failed m {url} among e = ground (
    arith,
    choose-contains choice (smembers (srem failed m.db)) among e,
    lawful.smembers-srem url failed m.db,
  )
