-- ===== src/Proc/Queue.antt =====
-- pkg/monny/proc/queue.go: the queue of recent log lines. Every exported method holds the mutex
-- for all it does. Indexing or slicing past the end of a slice panics.
pub mod Recent
use monny.Base.{
  ℕ, List, [], ◌∷◌, ◌++◌, length, ltb, Outcome, returned, panic, then_call, if◌then◌else◌,
}

pub record Queue {ℓ} (A : Type ℓ) : Type ℓ where
  pub q : List A
  pub capacity : ℕ

module _ {ℓ} {A : Type ℓ} where
  unfoldable pub add_last : A → Queue A → Queue A
  add_last s q = record q { q = q.q ++ (s ∷ []) }

  -- `q.q = q.q[1:]; return q.q[0]`, with the queue as it is left
  unfoldable pub pop : Queue A → Outcome (A × Queue A)
  pop q = elim q.q [
    | [] ↦ panic
    | old ∷ rest ↦ elim rest [
      | [] ↦ panic
      | head ∷ tail ↦ returned (head, record q { q = head ∷ tail })
    ]
  ]

  -- `Add(s)`
  unfoldable pub add : A → Queue A → Outcome (Queue A)
  unfolding add_last pop
  add s q =
      if ltb (length q.q) q.capacity
      then returned (add_last s q)
      else then_call (pop q) (λ r. returned (add_last s r.1))

  -- `Copy()` returns the elements in a slice of its own
  abbrev pub copy : Queue A → List A
  copy q = q.q

  unfoldable pub clear : Queue A → Queue A
  clear q = record q { q = [] }

unfoldable pub new_queue {ℓ} : {A : Type ℓ} → ℕ → Queue A
new_queue capacity = record { q = []; capacity = capacity }
