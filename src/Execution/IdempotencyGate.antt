-- ===== src/Execution/IdempotencyGate.antt =====
-- execution/idempotency/gate.py: a set of the keys seen, as the list of its members.
use lidenal85_blip.Base.{
  if◌then◌else◌, ◌==◌, contains, string_eq, ℕ, ◌+◌, String, ◌≡◌, refl, Bool, true, false, not, ◌&&◌,
  List, [], ◌∷◌, arith,
}

unfoldable pub check_and_set : String → List String → List String × Bool
check_and_set key seen = if contains seen key then (seen, false) else (key ∷ seen, true)

-- The keys of a sequence of calls that are answered by True, in order.
unfoldable pub accepted : List String → List String → List String
accepted [] seen = []
accepted (key ∷ keys) seen =
    let rest = accepted keys (check_and_set key seen).0 in
    if (check_and_set key seen).1 then key ∷ rest else rest

-- How often a key stands in a list.
abbrev pub count : String → List String → ℕ
count k [] = 0
count k (x ∷ xs) = (if x == k then 1 else 0) + count k xs

-- Of any sequence of calls the gate lets each key through once, if it occurs and was not seen
-- before, and otherwise never.
pub count-accepted :
    (k : String) (keys seen : List String)
    → count k (accepted keys seen) ≡ (if contains keys k && not (contains seen k) then 1 else 0)
unfolding accepted check_and_set
count-accepted k [] seen = refl
count-accepted k (x ∷ keys) seen =
    ground (arith, count-accepted k keys seen, count-accepted k keys (x ∷ seen))
