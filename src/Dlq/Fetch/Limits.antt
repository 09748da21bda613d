-- ===== src/Dlq/Fetch/Limits.antt =====
-- How many items a fetch gives, and what a replay of a cycle deletes.
use mathlib.Core.Path.{subst}
use lidenal85_blip.Base.{
  leb, Bool-cases, if◌then◌else◌, length, length-append, length-take, All, ℕ, suc, ◌+◌, ◌≤◌, ◌<◌,
  String, ◌≡◌, refl, ◌≢◌, inl, inr, Option, none, some, List, [], ◌∷◌, ◌++◌, arith,
}
use lidenal85_blip.Contracts.Value.{Value}
use lidenal85_blip.Contracts.Floats.{Outcome, ok, raise, ◌>>=◌}
use lidenal85_blip.Contracts.Survey.{DlqItem}
use lidenal85_blip.Contracts.Json.{Codec}
use lidenal85_blip.Redis.{ListStore, IsListLawful}
use lidenal85_blip.Dlq.Fetch.{
  read_items, cycle_pattern, lrange, is_logged, unless_logged, read_one, read_keys, fetch_by_cycle,
  delete_keys, replay_by_cycle, delete_by_cycle, replay_items, replay_fetched,
}

-- what a call that returns gives satisfies `P`
abbrev Gives {ℓ} : {A : Type ℓ} → Outcome A → (A → Type 0) → Type 0
Gives (ok a) P = P a
Gives (raise e) P = Unit

Gives-bind {ℓ κ} :
    {A : Type ℓ} {B : Type κ} (P : A → Type 0) (Q : B → Type 0) (o : Outcome A) (f : A → Outcome B)
    → Gives o P
    → ((a : A) → P a → Gives (f a) Q)
    → Gives (o >>= f) Q
Gives-bind P Q (ok a) f h k = k a h
Gives-bind P Q (raise e) f h k = tt

module _ {F : Type 0} (codec : Codec F) (S : ListStore codec.Text)
    (keys_of : String → S.Db → List String) (item_of : Value F → Outcome (DlqItem F)) where
  open codec use {Text, loads}
  open S use {Db, items, delete}

  AtMost : ℕ → List (DlqItem F) → Type 0
  AtMost n is = length is ≤ n

  unless_logged-AtMost :
      (o : Outcome (DlqItem F)) → Gives (unless_logged codec S keys_of item_of o) (AtMost 1)
  unfolding unless_logged AtMost
  unless_logged-AtMost (ok i) = omega arith
  unless_logged-AtMost (raise e) = elim (Bool-cases (is_logged e.class_of)) [
    | inl logged ↦ rw logged (omega arith)
    | inr fatal ↦ rw fatal tt
  ]

  read_one-AtMost : (v : Option (Value F)) → Gives (read_one codec S keys_of item_of v) (AtMost 1)
  unfolding read_one AtMost
  read_one-AtMost none = omega arith
  read_one-AtMost (some v) = unless_logged-AtMost (item_of v)

  read_items-AtMost :
      (ts : List Text) → Gives (read_items codec S keys_of item_of ts) (AtMost (length ts))
  unfolding read_items AtMost
  read_items-AtMost [] = omega arith
  read_items-AtMost (t ∷ ts) =
      Gives-bind (AtMost 1) (AtMost (suc (length ts))) (read_one codec S keys_of item_of (loads t))
        (λ first. read_items codec S keys_of item_of ts >>= λ more. ok (first ++ more))
        (read_one-AtMost (loads t))
        (λ first one.
          Gives-bind (AtMost (length ts)) (AtMost (suc (length ts)))
            (read_items codec S keys_of item_of ts) (λ more. ok (first ++ more))
            (read_items-AtMost ts) (λ more few. omega (arith, length-append first more)))

  lrange-length :
      (limit : ℕ) (key : String) (d : Db)
      → 0 < limit
      → length (lrange codec S keys_of item_of limit key d) ≤ limit
  unfolding lrange
  lrange-length limit key d p = ground (arith, length-take limit (items key d))

  IsBelowTwice : ℕ → List (DlqItem F) → Type 0
  IsBelowTwice limit is = length is < limit + limit

  read_keys-IsBelowTwice :
      (limit : ℕ) (ks : List String) (found : List (DlqItem F)) (d : Db)
      → 0 < limit
      → length found < limit
      → Gives (read_keys codec S keys_of item_of limit ks found d) (IsBelowTwice limit)
  unfolding read_keys IsBelowTwice AtMost
  read_keys-IsBelowTwice limit [] found d p h = omega arith
  read_keys-IsBelowTwice limit (key ∷ ks) found d p h =
      let ts : List Text = lrange codec S keys_of item_of limit key d in
      Gives-bind (AtMost (length ts)) (IsBelowTwice limit) (read_items codec S keys_of item_of ts)
        (λ more.
          let found' = found ++ more in
          let later = read_keys codec S keys_of item_of limit ks found' d in
          if leb limit (length found') then ok found' else later)
        (read_items-AtMost ts)
        (λ more few. elim (Bool-cases (leb limit (length (found ++ more)))) [
          | inl full ↦
              rw full (omega (arith, length-append found more, lrange-length limit key d p))
          | inr room ↦ rw room (read_keys-IsBelowTwice limit ks (found ++ more) d p (ground arith))
        ])

  gives_value {ℓ} :
      {A : Type ℓ} (P : A → Type 0) (o : Outcome A) (a : A) → Gives o P → o ≡ ok a → P a
  gives_value P o a given e = subst (λ (x : Outcome _). Gives x P) e given

  -- A fetch of the items of a cycle that returns gives fewer than twice as many as its limit,
  -- which is not 0: the limit is one of each list and of the lists that are begun.
  pub fetch_by_cycle_bounds :
      (cycle_id : String) (limit : ℕ) (d : Db) {found : List (DlqItem F)}
      → 0 < limit
      → fetch_by_cycle codec S keys_of item_of cycle_id limit d ≡ ok found
      → length found < limit + limit
  unfolding fetch_by_cycle IsBelowTwice
  fetch_by_cycle_bounds cycle_id limit d {found} p e =
      gives_value (IsBelowTwice limit) _ found
        (read_keys-IsBelowTwice limit (keys_of (cycle_pattern cycle_id) d) [] d p p) e

  module _ (lawful : IsListLawful S) where
    stays_empty :
        (ks : List String) (j : String) (d : Db)
        → items j d ≡ []
        → items j (delete_keys codec S keys_of item_of ks d) ≡ []
    unfolding delete_keys
    stays_empty [] j d e = e
    stays_empty (k ∷ ks) j d e =
        stays_empty ks j (delete k d) (ground (arith, lawful.items-delete j k d))

    IsGone : Db → String → Type 0
    IsGone d key = items key d ≡ []

    All-IsGone :
        (ks : List String) (d : Db) → All (IsGone (delete_keys codec S keys_of item_of ks d)) ks
    unfolding delete_keys IsGone
    All-IsGone [] d = tt
    All-IsGone (k ∷ ks) d = (
      stays_empty ks k (delete k d) (ground (arith, lawful.items-delete k k d)),
      All-IsGone ks (delete k d),
    )

    replayed :
        (cycle_id : String) (d : Db) (o : Outcome (List (DlqItem F))) {d' : Db} {successful : ℕ}
        → cycle_id ≢ ""
        → replay_fetched codec S keys_of item_of (some cycle_id) d o ≡ (d', ok successful)
        → 0 < successful
        → (found : List (DlqItem F)) × (o ≡ ok found)
          × (length found ≡ successful)
          × (d' ≡ delete_keys codec S keys_of item_of (keys_of (cycle_pattern cycle_id) d) d)
    unfolding replay_fetched replay_items delete_by_cycle
    replayed cycle_id d (ok []) named e some_found = absurd (ground arith)
    replayed cycle_id d (ok (i ∷ is)) named e some_found =
        (i ∷ is, refl, ground arith, ground arith)
    replayed cycle_id d (raise f) named e some_found = absurd (ground arith)

    -- With lawful lists, a replay of a cycle, which has a name, that answers a number other than
    -- 0 has fetched fewer than 200 items and has emptied all lists of the cycle, however many
    -- items they held.
    pub replay_by_cycle_empties :
        (cycle_id : String) (d : Db) {d' : Db} {successful : ℕ}
        → cycle_id ≢ ""
        → replay_by_cycle codec S keys_of item_of cycle_id d ≡ (d', ok successful)
        → 0 < successful
        → (successful < 200) × All (λ key. items key d' ≡ []) (keys_of (cycle_pattern cycle_id) d)
    unfolding replay_by_cycle IsGone
    replay_by_cycle_empties cycle_id d {d'} {successful} named e some_found =
        let answer : Outcome (List (DlqItem F)) =
          fetch_by_cycle codec S keys_of item_of cycle_id 100 d in
        let (found, fetched, many, emptied) = replayed cycle_id d answer named e some_found in
        let ks : List String = keys_of (cycle_pattern cycle_id) d in
        (
          omega (arith, many, fetch_by_cycle_bounds cycle_id 100 d (omega arith) fetched),
          rw emptied (All-IsGone ks d),
        )
