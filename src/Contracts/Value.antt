-- ===== src/Contracts/Value.antt =====
-- Python values, as the untyped dicts of the program hold them. `F` is the type of its floats.
use lidenal85_blip.Base.{ℕ, String, ◌≡◌, refl, Bool, true, false, ◌&&◌, List, [], ◌∷◌}
use lidenal85_blip.Base.Dict.{Dict}

-- Python's `int`: `negative n` is -(n + 1).
pub data Integer : Type 0 where
  natural negative : ℕ → Integer

mutual
  pub data Value (F : Type 0) : Type 0 where
    null : Value F
    bool : Bool → Value F
    int : Integer → Value F
    float : F → Value F
    str : String → Value F
    datetime : ℕ → Value F
    list : Items F → Value F
    dict : Fields F → Value F

  pub data Items (F : Type 0) : Type 0 where
    nil : Items F
    cons : Value F → Items F → Items F

  pub data Fields (F : Type 0) : Type 0 where
    end : Fields F
    field : String → Value F → Fields F → Fields F

module _ {F : Type 0} where
  unfoldable pub entries : Fields F → Dict String (Value F)
  entries end = []
  entries (field k v fs) = (k, v) ∷ entries fs

  unfoldable pub of_entries : Dict String (Value F) → Fields F
  of_entries [] = end
  of_entries ((k, v) ∷ d) = field k v (of_entries d)

  unfoldable pub of_strings : List String → Items F
  of_strings [] = nil
  of_strings (s ∷ ss) = cons (str s) (of_strings ss)

  pub entries-of_entries : (d : Dict String (Value F)) → entries (of_entries d) ≡ d
  unfolding entries of_entries
  entries-of_entries [] = refl
  entries-of_entries ((k, v) ∷ d) = rw (entries-of_entries d)

-- `json.dumps` raises a TypeError at a `datetime`, wherever it stands in the value.
unfoldable mutual
  pub is_serialisable : {F : Type 0} → Value F → Bool
  is_serialisable null = true
  is_serialisable (bool b) = true
  is_serialisable (int n) = true
  is_serialisable (float x) = true
  is_serialisable (str s) = true
  is_serialisable (datetime t) = false
  is_serialisable (list xs) = items_serialisable xs
  is_serialisable (dict fs) = fields_serialisable fs

  pub items_serialisable : {F : Type 0} → Items F → Bool
  items_serialisable nil = true
  items_serialisable (cons x xs) = is_serialisable x && items_serialisable xs

  pub fields_serialisable : {F : Type 0} → Fields F → Bool
  fields_serialisable end = true
  fields_serialisable (field k v fs) = is_serialisable v && fields_serialisable fs
