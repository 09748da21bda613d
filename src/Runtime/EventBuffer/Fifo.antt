-- ===== src/Runtime/EventBuffer/Fifo.antt =====
-- What holds of an event buffer over every sequence of calls.
use lidenal85_blip.Base.{
  length, length-append, ℕ, suc, ◌-◌, ◌≤◌, ◌<◌, ◌≡◌, refl, ◌∙◌, true, Option, none, some, List, [],
  ◌∷◌, ◌++◌, append_assoc, arith,
}
use lidenal85_blip.Runtime.EventBuffer.{
  EventBuffer, PushError, append_bounded, init, push, popleft, pop, close,
}

pub data Call {ℓ} (A : Type ℓ) : Type ℓ where
  push_call : A → Call A
  pop_call close_call : Call A

-- The buffer, with every event that it accepted and every event that it gave out, in order.
pub record Run {ℓ} (A : Type ℓ) : Type ℓ where
  pub state : EventBuffer A
  pub accepted : List A
  pub popped : List A

module _ {ℓ} {A : Type ℓ} where
  note_push : A → EventBuffer A × Option PushError → Run A → Run A
  note_push x (b, none) r = record r { state = b; accepted = r.accepted ++ x ∷ [] }
  note_push x (b, some e) r = record r { state = b }

  note_pop : EventBuffer A × Option A → Run A → Run A
  note_pop (b, none) r = record r { state = b }
  note_pop (b, some x) r = record r { state = b; popped = r.popped ++ x ∷ [] }

  unfoldable pub step : Call A → Run A → Run A
  unfolding note_push note_pop
  step (push_call x) r = note_push x (push x r.state) r
  step pop_call r = note_pop (pop r.state) r
  step close_call r = record r { state = close r.state }

  unfoldable pub run : List (Call A) → Run A → Run A
  run [] r = r
  run (c ∷ cs) r = run cs (step c r)

  unfoldable pub start : ℕ → Run A
  unfolding init
  start n = record { state = init n; accepted = []; popped = [] }

  pub record IsFifo (n : ℕ) (r : Run A) : Type ℓ where
    pub bounded : length r.state.buffer ≤ n
    pub capacity : r.state.max_size ≡ n
    pub in_order : r.accepted ≡ r.popped ++ r.state.buffer

  -- An append that the guard lets through drops nothing.
  append_bounded_room :
      (n : ℕ) (xs : List A) (x : A) → length xs < n → append_bounded n xs x ≡ xs ++ x ∷ []
  unfolding append_bounded
  append_bounded_room n xs x h =
      let none_over : suc (length xs) - n ≡ 0 = omega arith in rw none_over refl

  step-IsFifo : (n : ℕ) (c : Call A) (r : Run A) → IsFifo n r → IsFifo n (step c r)
  unfolding step push pop popleft close
  step-IsFifo n c r h = grind (arith, append_bounded_room, append_assoc, length-append)

  run_keeps : (n : ℕ) (cs : List (Call A)) (r : Run A) → IsFifo n r → IsFifo n (run cs r)
  unfolding run
  run_keeps n [] r h = h
  run_keeps n (c ∷ cs) r h = run_keeps n cs (step c r) (step-IsFifo n c r h)

  -- After any sequence of pushes, pops and closings of a new buffer of size n, the events
  -- accepted are the events given out followed by those still held, in order, and at most n are
  -- held.
  pub run-IsFifo : (n : ℕ) (cs : List (Call A)) → IsFifo n (run cs (start n))
  unfolding start init
  run-IsFifo n cs = run_keeps n cs (start n) (ground arith)

  closed_step :
      (c : Call A) (r : Run A)
      → r.state.closed ≡ true
      → ((step c r).state.closed ≡ true) × ((step c r).accepted ≡ r.accepted)
  unfolding step push pop popleft close
  closed_step c r h = ground arith

  -- Once the buffer is closed, no later sequence of calls has an event accepted.
  pub close_refuses :
      (cs : List (Call A)) (r : Run A) → r.state.closed ≡ true → (run cs r).accepted ≡ r.accepted
  unfolding run
  close_refuses [] r h = refl
  close_refuses (c ∷ cs) r h =
      let (still, same) = closed_step c r h in close_refuses cs (step c r) still ∙ same
