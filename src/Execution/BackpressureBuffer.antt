-- ===== src/Execution/BackpressureBuffer.antt =====
-- execution/buffer/event_buffer.py: a bounded FIFO queue that answers False when it is full.
use lidenal85_blip.Base.{
  ltb, leb, Bool-cases, if◌then◌else◌, length, length-append, take, drop, take-append-drop,
  take_of_length-le, ℕ, zero, suc, ◌+◌, ◌-◌, ◌≤◌, ◌≡◌, refl, ◌∙◌, ◌↔◌, inl, inr, Bool, true, false,
  List, [], ◌∷◌, ◌++◌, append_assoc, append-nil, arith,
}

pub record BackpressureBuffer {ℓ} (A : Type ℓ) : Type ℓ where
  pub buffer : List A
  pub max_size : ℕ

module _ {ℓ} {A : Type ℓ} where
  unfoldable pub push : A → BackpressureBuffer A → BackpressureBuffer A × Bool
  push event b =
      if leb b.max_size (length b.buffer)
      then (b, false)
      else (record b { buffer = b.buffer ++ event ∷ [] }, true)

  -- the `while` of `pop_batch` over what is left of the buffer and of `out`; it ends because each
  -- round takes an element off the buffer
  unfoldable pub pop_loop : ℕ → List A → List A → List A × List A
  pop_loop batch_size [] out = ([], out)
  pop_loop batch_size (x ∷ xs) out =
      let rest = pop_loop batch_size xs (out ++ x ∷ []) in
      if ltb (length out) batch_size then rest else (x ∷ xs, out)

  unfoldable pub pop_batch : ℕ → BackpressureBuffer A → BackpressureBuffer A × List A
  unfolding pop_loop
  pop_batch batch_size b =
      let (left, out) = pop_loop batch_size b.buffer [] in (record b { buffer = left }, out)

  unfoldable pub size : BackpressureBuffer A → ℕ
  size b = length b.buffer

  take-drop-nil : (k : ℕ) → (drop {A = A} k [] ≡ []) × (take {A = A} k [] ≡ [])
  take-drop-nil zero = (refl, refl)
  take-drop-nil (suc k) = (refl, refl)

  pop_loop_lem :
      (n k : ℕ) (xs out : List A)
      → k ≡ n - length out
      → ((pop_loop n xs out).0 ≡ drop k xs) × ((pop_loop n xs out).1 ≡ out ++ take k xs)
  unfolding pop_loop
  pop_loop_lem n k [] out e = ground (arith, take-drop-nil k, append-nil out)
  pop_loop_lem n zero (x ∷ xs) out e = ground (arith, append-nil out)
  pop_loop_lem n (suc k) (x ∷ xs) out e = grind (
    arith,
    pop_loop_lem n k xs (out ++ x ∷ []),
    length-append out (x ∷ []),
    append_assoc out (x ∷ []) (take k xs),
  )

  -- `pop_batch` gives out the oldest events, at most `batch_size` of them, in order, and keeps
  -- the rest in order.
  pub pop_batch_lem :
      (n : ℕ) (b : BackpressureBuffer A)
      → ((pop_batch n b).1 ≡ take n b.buffer)
        × ((pop_batch n b).0 ≡ record b { buffer = drop n b.buffer })
        × ((pop_batch n b).1 ++ (pop_batch n b).0.buffer ≡ b.buffer)
  unfolding pop_batch
  pop_batch_lem n b = grind (arith, pop_loop_lem n n b.buffer [], take-append-drop n b.buffer)

module _ {A : Type 0} where
  -- A push is refused exactly when the buffer is full; otherwise the event is the last to come
  -- out.
  pub push_lem :
      (x : A) (b : BackpressureBuffer A)
      → length b.buffer ≤ b.max_size
      → (length (push x b).0.buffer ≤ b.max_size)
        × (((push x b).1 ≡ false) ↔ (length b.buffer ≡ b.max_size))
        × ((pop_batch (length b.buffer + 1) (push x b).0).1
            ≡ (if ltb (length b.buffer) b.max_size then b.buffer ++ x ∷ [] else b.buffer))
  unfolding push
  push_lem x b h = elim (Bool-cases (ltb (length b.buffer) b.max_size)) [
    | inl room ↦
        let longer = length-append b.buffer (x ∷ []) in
        let b' = record b { buffer = b.buffer ++ x ∷ [] } in
        let all = take_of_length-le (length b.buffer + 1) (b.buffer ++ x ∷ []) (omega arith) in
        let given = (pop_batch_lem (length b.buffer + 1) b').0 ∙ all in ground arith
    | inr full ↦
        let all = take_of_length-le (length b.buffer + 1) b.buffer (omega arith) in
        let given = (pop_batch_lem (length b.buffer + 1) b).0 ∙ all in ground arith
  ]
