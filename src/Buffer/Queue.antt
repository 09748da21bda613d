-- ===== src/Buffer/Queue.antt =====
-- The buffer as a queue of events: what the list at the server holds, the newest first, is a
-- sequence of events, the oldest first.
use lidenal85_blip.Base.{
  leb, length, length-append, take, drop, All, ℕ, zero, suc, ◌≤◌, ◌<◌, String, ◌≡◌, refl, ap, ◌∙◌,
  true, false, none, some, List, [], ◌∷◌, ◌++◌, arith,
}
use lidenal85_blip.Base.Dict.{Dict}
use lidenal85_blip.Contracts.Value.{is_serialisable, Value}
use lidenal85_blip.Contracts.Floats.{Floats, ok}
use lidenal85_blip.Contracts.Json.{Codec, IsLawful}
use lidenal85_blip.Redis.{ListStore, IsListLawful}
use lidenal85_blip.Buffer.{decoded, pushed, take_event, stamped, push, pop, pop_batch, is_truthy}

-- The texts of the events: each is what `dumps` answers and what `loads` reads back.
unfoldable pub Encodes : {F : Type 0} (codec : Codec F) → List (Value F) → List codec.Text → Type 0
Encodes codec [] texts = texts ≡ []
Encodes codec (v ∷ vs) texts =
    (older : List codec.Text) × (t : codec.Text) × (texts ≡ older ++ t ∷ [])
    × (codec.loads t ≡ some v)
    × (codec.is_blank t ≡ false)
    × Encodes codec vs older

module _ {F : Type 0} (codec : Codec F) where
  Encodes-push :
      (vs : List (Value F)) (v : Value F) (t : codec.Text) (texts : List codec.Text)
      → codec.loads t ≡ some v
      → codec.is_blank t ≡ false
      → Encodes codec vs texts
      → Encodes codec (vs ++ v ∷ []) (t ∷ texts)
  unfolding Encodes
  Encodes-push [] v t texts reads full none_held =
      ([], t, ap (λ ts. t ∷ ts) none_held, reads, full, refl)
  Encodes-push (w ∷ vs) v t texts reads full (older, u, e, reads', full', more) =
      (t ∷ older, u, ap (λ ts. t ∷ ts) e, reads', full', Encodes-push vs v t older reads full more)

  Encodes-length :
      (vs : List (Value F)) (texts : List codec.Text)
      → Encodes codec vs texts
      → length texts ≡ length vs
  unfolding Encodes
  Encodes-length [] texts e = ap length e
  Encodes-length (v ∷ vs) texts (older, t, e, _, _, more) =
      let shorter = Encodes-length vs older more in
      ap length e ∙ length-append older (t ∷ []) ∙ omega arith

module _ (N : Floats) (codec : Codec N.Float) (S : ListStore codec.Text) (key : String)
    (max_size : ℕ) (lawful : IsListLawful S) where
  open N use {Float}
  open S use {Db, items}

  -- The list of the buffer holds the events `vs`.
  abbrev pub Holds : List (Value Float) → Db → Type 0
  Holds vs d = Encodes codec vs (items key d)

  -- A buffer that holds events gives out the oldest and keeps the others; an empty one gives
  -- none.
  pub pop_oldest :
      (v : Value Float) (vs : List (Value Float)) (d : Db)
      → Holds (v ∷ vs) d
      → ((pop N codec S key max_size d).1 ≡ some v) × Holds vs (pop N codec S key max_size d).0
  unfolding pop decoded Encodes
  pop_oldest v vs d (older, t, e, reads, full, more) =
      let (given, kept) = lawful.rpop_last key older t d e in (rw (given, full) reads, rw kept more)

  pop_empty : (d : Db) → Holds [] d → pop N codec S key max_size d ≡ (d, none)
  unfolding pop decoded Encodes
  pop_empty d none_held = rw (lawful.rpop_empty key d none_held) refl

  -- With lawful lists and a lawful codec, as long as fewer than `max_size` events are held, a
  -- push of an event without a datetime is answered True, and the event, stamped with its time,
  -- is the newest.
  pub push_newest :
      (json : IsLawful codec) (now : String) (event : Dict String (Value Float))
      (vs : List (Value Float)) (d : Db)
      → is_serialisable (stamped now event) ≡ true
      → Holds vs d
      → length vs < max_size
      → ((push N codec S key max_size now event d).1 ≡ ok true)
        × Holds (vs ++ stamped now event ∷ []) (push N codec S key max_size now event d).0
  unfolding push pushed
  push_newest json now event vs d plain held room =
      let (t, written, reads, full) = json.dumps_ok (stamped now event) plain in
      let count = lawful.llen_items key d ∙ Encodes-length codec vs (items key d) held in
      let free : leb max_size (S.llen key d) ≡ false = ground arith in
      let more = lawful.items-lpush key key t d in
      let after : items key (S.lpush key t d) ≡ t ∷ items key d = ground (arith, more) in
      rw (free, written)
        (refl, rw after (Encodes-push codec vs (stamped now event) t (items key d) reads full held))

  -- A full buffer answers False and does not change.
  pub push_full :
      (now : String) (event : Dict String (Value Float)) (vs : List (Value Float)) (d : Db)
      → Holds vs d
      → max_size ≤ length vs
      → push N codec S key max_size now event d ≡ (d, ok false)
  unfolding push
  push_full now event vs d held full =
      let count = lawful.llen_items key d ∙ Encodes-length codec vs (items key d) held in
      let over : leb max_size (S.llen key d) ≡ true = ground arith in rw over refl

  -- With lawful lists and a buffer that holds events none of which is empty or false as a
  -- condition, `pop_batch` gives out the oldest events, at most `batch_size` of them, in order,
  -- and the buffer holds the others, in order.
  pub pop_batch_oldest :
      (n : ℕ) (vs : List (Value Float)) (d : Db)
      → All (λ v. is_truthy N v ≡ true) vs
      → Holds vs d
      → ((pop_batch N codec S key max_size n d).1 ≡ take n vs)
        × Holds (drop n vs) (pop_batch N codec S key max_size n d).0
  unfolding pop_batch take_event Encodes
  pop_batch_oldest zero vs d truthy held = (refl, held)
  pop_batch_oldest (suc n) [] d truthy held = rw (pop_empty d held) (refl, held)
  pop_batch_oldest (suc n) (v ∷ vs) d (full, truthy) held =
      let (given, kept) = pop_oldest v vs d held in
      let (rest, held') = pop_batch_oldest n vs (pop N codec S key max_size d).0 truthy kept in
      rw (given, full) (ap (λ ws. v ∷ ws) rest, held')
