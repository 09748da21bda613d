-- ===== src/Tests/Store.antt =====
-- A Redis server in memory: what a key holds and how long it has left to live.
use lidenal85_blip.Base.{
  ltb, if◌then◌else◌, ◌==◌, string_eq, length, ℕ, ◌-◌, String, ◌≡◌, refl, ap, ◌∙◌, Option, none,
  some, List, [], ◌∷◌, ◌++◌, arith,
}
use lidenal85_blip.Redis.{is_none, StringStore, IsLawful, ListStore, IsListLawful}

abbrev pub Memory : Type 0 → Type 0
Memory A = String → Option (A × ℕ)

abbrev value : {A : Type 0} → Option (A × ℕ) → Option A
value none = none
value (some (v, t)) = some v

abbrev left : {A : Type 0} → Option (A × ℕ) → ℕ
left none = 0
left (some (v, t)) = t

abbrev put : {A : Type 0} → String → Option (A × ℕ) → Memory A → Memory A
put k e d j = if j == k then e else d j

abbrev renewed : {A : Type 0} → ℕ → Option (A × ℕ) → Option (A × ℕ)
renewed t none = none
renewed t (some (v, old)) = some (v, t)

abbrev aged : {A : Type 0} → ℕ → Option (A × ℕ) → Option (A × ℕ)
aged n none = none
aged n (some (v, t)) = if ltb n t then some (v, t - n) else none

abbrev kept_or_new : {A : Type 0} → A → ℕ → Option (A × ℕ) → Option (A × ℕ)
kept_or_new v t none = some (v, t)
kept_or_new v t (some e) = some e

abbrev pub memory : {A : Type 0} → StringStore A
memory {A} = record {
  Db = Memory A;
  get = λ k d. value (d k);
  ttl = λ k d. left (d k);
  set_nx_ex = λ k v t d. (put k (kept_or_new v t (d k)) d, is_none (value (d k)));
  setex = λ k t v d. put k (some (v, t)) d;
  expire = λ k t d. put k (renewed t (d k)) d;
  delete = λ k d. put k none d;
  elapse = λ n d k. aged n (d k);
}

pub memory-IsLawful : {A : Type 0} → IsLawful (memory {A = A})
memory-IsLawful {A} = record {
  get-set_nx_ex = λ j k v t d pos. ground arith;
  set_nx_ex_answer = λ k v t d. ground arith;
  ttl-set_nx_ex = λ j k v t d. ground arith;
  get-setex = λ j k v t d pos. ground arith;
  ttl-setex = λ j k v t d. ground arith;
  get-delete = λ j k d. ground arith;
  get-expire = λ j k t d pos. ground arith;
  get-elapse = λ k n d. ground arith;
  ttl-elapse = λ k n d. ground arith;
}

abbrev pub nothing : {A : Type 0} → Memory A
nothing k = none

-- The lists of a server in memory.
module _ {A : Type 0} where
  abbrev take_last : List A → List A × Option A
  take_last [] = ([], none)
  take_last (x ∷ []) = ([], some x)
  take_last (x ∷ y ∷ ys) = (x ∷ (take_last (y ∷ ys)).0, (take_last (y ∷ ys)).1)

  take_last-append : (older : List A) (a : A) → take_last (older ++ a ∷ []) ≡ (older, some a)
  take_last-append [] a = refl
  take_last-append (x ∷ []) a = refl
  take_last-append (x ∷ y ∷ ys) a = rw (take_last-append (y ∷ ys) a) refl

  abbrev put_list : String → List A → (String → List A) → String → List A
  put_list k xs d j = if j == k then xs else d j

  abbrev after_pop : String → (String → List A) → List A × Option A → (String → List A) × Option A
  after_pop k d (xs, none) = (d, none)
  after_pop k d (xs, some a) = (put_list k xs d, some a)

abbrev pub list_memory : (A : Type 0) → ListStore A
list_memory A = record {
  Db = String → List A;
  items = λ k d. d k;
  llen = λ k d. length (d k);
  lpush = λ k a d. put_list k (a ∷ d k) d;
  rpop = λ k d. after_pop k d (take_last (d k));
  delete = λ k d. put_list k [] d;
  expire = λ k t d. d;
}

pub list_memory-IsListLawful : (A : Type 0) → IsListLawful (list_memory A)
list_memory-IsListLawful A = record {
  llen_items = λ k d. refl;
  items-lpush = λ j k a d. refl;
  rpop_empty = λ k d e. rw e refl;
  rpop_last = λ k older a d e. rw (ap take_last e ∙ take_last-append older a) (refl, ground arith);
  items-delete = λ j k d. refl;
}
