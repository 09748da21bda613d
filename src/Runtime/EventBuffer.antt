-- ===== src/Runtime/EventBuffer.antt =====
-- runtime/event_buffer.py: a bounded FIFO queue that refuses, with two errors.
pub mod Fifo
use lidenal85_blip.Base.{
  ℕ, suc, ◌+◌, ◌-◌, Bool, true, false, Option, none, some, List, [], ◌∷◌, ◌++◌, leb, eqb, length,
  drop, if◌then◌else◌,
}

-- The two `RuntimeError`s of `push`.
pub data PushError : Type 0 where
  buffer_closed backpressure_limit_reached : PushError

pub record EventBuffer {ℓ} (A : Type ℓ) : Type ℓ where
  pub buffer : List A
  pub max_size : ℕ
  pub closed : Bool

module _ {ℓ} {A : Type ℓ} where
  -- `deque.append` of a deque with a `maxlen`: what does not fit falls off the left end
  unfoldable pub append_bounded : ℕ → List A → A → List A
  append_bounded maxlen xs x = drop (suc (length xs) - maxlen) (xs ++ x ∷ [])

  unfoldable pub init : ℕ → EventBuffer A
  init max_size = record { buffer = []; max_size = max_size; closed = false }

  unfoldable pub push : A → EventBuffer A → EventBuffer A × Option PushError
  unfolding append_bounded
  push event b =
      if b.closed
      then (b, some buffer_closed)
      else if leb b.max_size (length b.buffer)
      then (b, some backpressure_limit_reached)
      else (record b { buffer = append_bounded b.max_size b.buffer event }, none)

  unfoldable pub popleft : List A → EventBuffer A → EventBuffer A × Option A
  popleft [] b = (b, none)
  popleft (x ∷ xs) b = (record b { buffer = xs }, some x)

  unfoldable pub pop : EventBuffer A → EventBuffer A × Option A
  unfolding popleft
  pop b = popleft b.buffer b

  unfoldable pub size : EventBuffer A → ℕ
  size b = length b.buffer

  unfoldable pub close : EventBuffer A → EventBuffer A
  close b = record b { closed = true }
