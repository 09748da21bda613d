-- ===== src/Runtime/Metrics.antt =====
-- runtime/metrics.py: counters with fixed names.
use lidenal85_blip.Base.{
  Option-cases, if◌then◌else◌, ◌==◌, string_eq, ℕ, ◌+◌, String, ◌≡◌, refl, ap, ◌∙◌, inl, inr,
  Option, none, some, List, [], ◌∷◌, arith,
}
use lidenal85_blip.Base.Dict.{Dict, lookup, insert, lookup-insert}

unfoldable pub init : Dict String ℕ
init =
    ("cycles_started", 0)
    ∷ ("cycles_failed", 0)
    ∷ ("cycles_success", 0)
    ∷ ("adapter_failures", 0)
    ∷ ("dlq_items", 0)
    ∷ ("circuit_open", 0)
    ∷ ("notifications_sent", 0)
    ∷ []

count_up : String → Option ℕ → Dict String ℕ → Dict String ℕ
count_up key none counts = counts
count_up key (some n) counts = insert key (n + 1) counts

unfoldable pub inc : String → Dict String ℕ → Dict String ℕ
unfolding count_up
inc key counts = count_up key (lookup key counts) counts

unfoldable pub snapshot : Dict String ℕ → Dict String ℕ
snapshot counts = counts

-- the calls of `inc`, the latest first
unfoldable pub inc_all : List String → Dict String ℕ
inc_all [] = init
inc_all (key ∷ earlier) = inc key (inc_all earlier)

abbrev pub times : String → List String → ℕ
times key [] = 0
times key (k ∷ earlier) = (if key == k then 1 else 0) + times key earlier

abbrev pub plus : ℕ → Option ℕ → Option ℕ
plus n none = none
plus n (some m) = some (m + n)

plus-zero : (o : Option ℕ) → o ≡ plus 0 o
plus-zero none = refl
plus-zero (some n) = ground arith

plus-plus : (a b : ℕ) (o : Option ℕ) → plus a (plus b o) ≡ plus (a + b) o
plus-plus a b none = refl
plus-plus a b (some n) = ground arith

lookup-inc :
    (key k : String) (counts : Dict String ℕ)
    → lookup key (inc k counts) ≡ plus (if key == k then 1 else 0) (lookup key counts)
unfolding inc
lookup-inc key k counts = elim (Option-cases (lookup k counts)) [
  | inl unknown ↦ ground (arith, plus-zero (lookup key counts))
  | inr (n, known) ↦
      ground (arith, lookup-insert key k (n + 1) counts, plus-zero (lookup key counts))
]

-- After any calls of `inc`, the value of a name is that at the start and the number of its calls;
-- a name that was not there at the start is never there.
pub lookup-inc_all :
    (key : String) (calls : List String)
    → lookup key (snapshot (inc_all calls)) ≡ plus (times key calls) (lookup key init)
unfolding inc_all inc snapshot
lookup-inc_all key [] = plus-zero (lookup key init)
lookup-inc_all key (k ∷ earlier) =
    lookup-inc key k (inc_all earlier)
    ∙ ap (plus (if key == k then 1 else 0)) (lookup-inc_all key earlier)
    ∙ plus-plus (if key == k then 1 else 0) (times key earlier) (lookup key init)
