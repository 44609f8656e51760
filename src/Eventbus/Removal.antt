-- ===== src/Eventbus/Removal.antt =====
-- Unsubscribe of a channel that is registered once (pkg/eventbus/bus.go).
use monny.Base.{
  ℕ, ◌+◌, ◌==◌, ==_iff, ◌≡◌, refl, String, true, false, List, [], ◌∷◌, ◌++◌, none, some, returned,
  arith, inl, inr, Bool-cases,
}
use monny.Eventbus.{
  Bus, contains, registered, seen_behind, remove_channel, remove_topics, unsubscribe,
}
use monny.Eventbus.Closing.{one_if, count, count-append}

-- the second list is the first with one copy of the channel less
abbrev pub IsWithout : ℕ → List ℕ → List ℕ → Type 0
IsWithout c xs ys = (x : ℕ) → count x xs ≡ one_if (x == c) + count x ys

abbrev Removed : ℕ → List ℕ → Type 0
Removed c xs = (ys : List ℕ) × (remove_channel c xs ≡ returned (some ys)) × IsWithout c xs ys

seen_behind-count : (c : ℕ) (xs : List ℕ) → count c xs ≡ 0 → contains c (seen_behind xs) ≡ false
unfolding seen_behind
seen_behind-count c [] h = refl
seen_behind-count c (x ∷ []) h = ground arith
seen_behind-count c (x ∷ (y ∷ ys)) h = ground (arith, seen_behind-count c (y ∷ ys))

remove_channel-absent : (c : ℕ) (xs : List ℕ) → count c xs ≡ 0 → remove_channel c xs ≡ returned none
unfolding remove_channel
remove_channel-absent c [] h = refl
remove_channel-absent c (x ∷ xs) h = ground (arith, remove_channel-absent c xs)

remove_channel-here :
    (c x : ℕ) (xs : List ℕ)
    → (x == c) ≡ true
    → count c xs ≡ 0
    → remove_channel c (x ∷ xs) ≡ returned (some xs)
unfolding remove_channel
remove_channel-here c x xs same h = ground (arith, seen_behind-count c xs)

remove_channel-later :
    (c x : ℕ) (xs ys : List ℕ)
    → (x == c) ≡ false
    → remove_channel c xs ≡ returned (some ys)
    → remove_channel c (x ∷ xs) ≡ returned (some (x ∷ ys))
unfolding remove_channel
remove_channel-later c x xs ys other h = ground arith

swapped : (a b n m k : ℕ) → n ≡ a + m → k ≡ b + n → k ≡ a + (b + m)
swapped a b n m k p q = omega arith

remove_channel-once : (c : ℕ) (xs : List ℕ) → count c xs ≡ 1 → Removed c xs
remove_channel-once c [] h = absurd (omega arith)
remove_channel-once c (x ∷ xs) h = elim (Bool-cases (x == c)) [
  | inl same ↦ (xs, remove_channel-here c x xs same (ground arith), λ y. ground (arith, ==_iff x c))
  | inr other ↦
      let (ys, made, without) = remove_channel-once c xs (ground arith) in
      (
        x ∷ ys,
        remove_channel-later c x xs ys other made,
        λ y.
            swapped (one_if (y == c)) (one_if (y == x)) (count y xs) (count y ys) (count y (x ∷ xs))
              (without y) refl,
      )
]

remove_topics-absent :
    (c : ℕ) (m : List (String × List ℕ)) (closed : List ℕ)
    → count c (registered m) ≡ 0
    → remove_topics c m closed ≡ returned (m, closed)
unfolding remove_topics registered
remove_topics-absent c [] closed h = refl
remove_topics-absent c ((t, chs) ∷ m) closed h = ground (
  arith,
  count-append c chs (registered m),
  remove_channel-absent c chs,
  remove_topics-absent c m closed,
)

remove_topics-here :
    (c : ℕ) (m : List (String × List ℕ)) (t : String) (chs chs' closed : List ℕ)
    → contains c closed ≡ false
    → remove_channel c chs ≡ returned (some chs')
    → count c (registered m) ≡ 0
    → remove_topics c ((t, chs) ∷ m) closed ≡ returned ((t, chs') ∷ m, c ∷ closed)
unfolding remove_topics
remove_topics-here c m t chs chs' closed unclosed made h =
    ground (arith, remove_topics-absent c m (c ∷ closed))

remove_topics-later :
    (c : ℕ) (m m' : List (String × List ℕ)) (t : String) (chs closed : List ℕ)
    → count c chs ≡ 0
    → remove_topics c m closed ≡ returned (m', c ∷ closed)
    → remove_topics c ((t, chs) ∷ m) closed ≡ returned ((t, chs) ∷ m', c ∷ closed)
unfolding remove_topics
remove_topics-later c m m' t chs closed h made = ground (arith, remove_channel-absent c chs)

IsWithout-here : (c : ℕ) (xs ys zs : List ℕ) → IsWithout c xs ys → IsWithout c (xs ++ zs) (ys ++ zs)
IsWithout-here c xs ys zs h x = omega (arith, h x, count-append x xs zs, count-append x ys zs)

IsWithout-later :
    (c : ℕ) (xs ys zs : List ℕ) → IsWithout c xs ys → IsWithout c (zs ++ xs) (zs ++ ys)
IsWithout-later c xs ys zs h x = omega (arith, h x, count-append x zs xs, count-append x zs ys)

remove_topics-once :
    (c : ℕ) (m : List (String × List ℕ)) (closed : List ℕ)
    → contains c closed ≡ false
    → count c (registered m) ≡ 1
    → (m' : List (String × List ℕ)) × (remove_topics c m closed ≡ returned (m', c ∷ closed))
      × IsWithout c (registered m) (registered m')
unfolding registered
remove_topics-once c [] closed unclosed h = absurd (omega arith)
remove_topics-once c ((t, chs) ∷ m) closed unclosed h = elim (Bool-cases (count c chs == 1)) [
  | inl one ↦
      let (chs', made, without) = remove_channel-once c chs (ground arith) in
      (
        (t, chs') ∷ m,
        remove_topics-here c m t chs chs' closed unclosed made
            (ground (arith, count-append c chs (registered m))),
        IsWithout-here c chs chs' (registered m) without,
      )
  | inr other ↦
      let none_here : count c chs ≡ 0 = ground (arith, count-append c chs (registered m)) in
      let (m', made, without) =
        remove_topics-once c m closed unclosed
          (ground (arith, count-append c chs (registered m))) in
      (
        (t, chs) ∷ m',
        remove_topics-later c m m' t chs closed none_here made,
        IsWithout-later c (registered m) (registered m') chs without,
      )
]

module _ {ℓ} {E : Type ℓ} where
  unsubscribe-made :
      (c d : ℕ) (b : Bus E) (m : List (String × List ℕ)) (ds : List ℕ)
      → remove_topics c b.subscribers b.closed ≡ returned (m, c ∷ b.closed)
      → remove_channel d b.done ≡ returned (some ds)
      → contains d b.done_closed ≡ false
      → unsubscribe c d b
        ≡ returned (record b {
          subscribers = m;
          closed = c ∷ b.closed;
          done = ds;
          done_closed = d ∷ b.done_closed;
        })
  unfolding unsubscribe
  unsubscribe-made c d b m ds p q unclosed = ground arith

  -- Unsubscribe of an open channel that is registered once, with an open done channel that is
  -- there once, does not panic: it closes both, takes one copy of each out of the bus and leaves
  -- all other channels registered as often as they were.
  pub unsubscribe-once :
      (c d : ℕ) (b : Bus E)
      → count c (registered b.subscribers) ≡ 1
      → contains c b.closed ≡ false
      → count d b.done ≡ 1
      → contains d b.done_closed ≡ false
      → (b' : Bus E) × (unsubscribe c d b ≡ returned b')
        × IsWithout c (registered b.subscribers) (registered b'.subscribers)
        × IsWithout d b.done b'.done
        × (b'.closed ≡ c ∷ b.closed)
        × (b'.done_closed ≡ d ∷ b.done_closed)
  unsubscribe-once c d b once unclosed once_done open_done =
      let (m, p, without) = remove_topics-once c (b.subscribers) (b.closed) unclosed once in
      let (ds, q, without') = remove_channel-once d (b.done) once_done in
      (
        record b {
          subscribers = m;
          closed = c ∷ b.closed;
          done = ds;
          done_closed = d ∷ b.done_closed;
        },
        unsubscribe-made c d b m ds p q open_done,
        without,
        without',
        refl,
        refl,
      )
