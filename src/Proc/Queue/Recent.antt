-- ===== src/Proc/Queue/Recent.antt =====
-- The queue holds the most recent lines, if its capacity is at least two
-- (pkg/monny/proc/queue.go).
use monny.Base.{
  ℕ, ◌<◌, ◌≤◌, ◌≡◌, sym, ap, ◌∙◌, List, [], ◌∷◌, ◌++◌, append-nil, append_assoc, length, drop,
  Outcome, returned, panic, then_call, arith, length-append, last, last-short, length-last,
  last-snoc,
}
use native.Mathlib.Decide.{dec_lt}
use monny.Proc.Queue.{Queue, add, new_queue}

module _ {ℓ} {A : Type ℓ} where
  -- the calls of `Add` for some lines, up to a panic
  unfoldable pub add_all : List A → Queue A → Outcome (Queue A)
  add_all [] q = returned q
  add_all (s ∷ ss) q = then_call (add s q) (add_all ss)

  add-room :
      (s : A) (q : Queue A)
      → length q.q < q.capacity
      → add s q ≡ returned (record q { q = q.q ++ (s ∷ []) })
  unfolding add
  add-room s q room = ground arith

  add-full :
      (s : A) (q : Queue A)
      → q.capacity ≤ length q.q
      → 2 ≤ length q.q
      → add s q ≡ returned (record q { q = drop 1 q.q ++ (s ∷ []) })
  unfolding add
  add-full s q full two = ground arith

  add-last :
      (cap : ℕ) (xs : List A) (s : A)
      → 2 ≤ cap
      → add s (record { q = last cap xs; capacity = cap })
        ≡ returned (record { q = last cap (xs ++ (s ∷ [])); capacity = cap })
  add-last cap xs s two = elim (dec_lt (length xs) cap) [
    | yes short ↦
        let whole = last-short cap xs (omega arith) in
        let whole' = last-short cap (xs ++ (s ∷ [])) (omega (arith, length-append xs (s ∷ []))) in
        add-room s (record { q = last cap xs; capacity = cap }) (omega (arith, ap length whole))
        ∙ ap (λ l. returned (record { q = l; capacity = cap }))
            (ap (λ l. l ++ (s ∷ [])) whole ∙ sym whole')
    | no long ↦
        let size = length-last cap xs (omega arith) in
        add-full s (record { q = last cap xs; capacity = cap }) (omega (arith, size))
          (omega (arith, size))
        ∙ ap (λ l. returned (record { q = l; capacity = cap }))
            (sym (last-snoc cap xs s (omega arith) (omega arith)))
  ]

  add_all-from :
      (cap : ℕ) (ss xs : List A)
      → 2 ≤ cap
      → add_all ss (record { q = last cap xs; capacity = cap })
        ≡ returned (record { q = last cap (xs ++ ss); capacity = cap })
  unfolding add_all
  add_all-from cap [] xs two =
      ap (λ l. returned (record { q = last cap l; capacity = cap })) (sym (append-nil xs))
  add_all-from cap (s ∷ ss) xs two =
      ap (λ r. then_call r (add_all ss)) (add-last cap xs s two)
      ∙ (add_all-from cap ss (xs ++ (s ∷ [])) two
          ∙ ap (λ l. returned (record { q = last cap l; capacity = cap }))
              (append_assoc xs (s ∷ []) ss))

  -- A queue of capacity at least two never panics, and after any lines it holds the last
  -- `capacity` of them, in order.
  pub add_all-last :
      (cap : ℕ) (ss : List A)
      → 2 ≤ cap
      → add_all ss (new_queue cap) ≡ returned (record { q = last cap ss; capacity = cap })
  unfolding new_queue
  add_all-last cap ss two =
      ap (λ l. add_all ss (record { q = l; capacity = cap }))
        (sym (last-short cap [] (omega arith)))
      ∙ add_all-from cap ss [] two

  -- A queue of capacity one or none panics at its second line at the latest.
  pub add_all-panics :
      (cap : ℕ) (s t : A) (ss : List A) → cap < 2 → add_all (s ∷ t ∷ ss) (new_queue cap) ≡ panic
  unfolding add_all add new_queue
  add_all-panics cap s t ss small = ground arith
