-- ===== src/Eventbus/Closing.antt =====
-- Channels that are closed twice (pkg/eventbus/bus.go, Subscribe and Shutdown).
use monny.Base.{
  ℕ, suc, ◌+◌, ◌==◌, ◌≤◌, ◌<◌, ◌≡◌, refl, sym, ap, ◌∙◌, String, Bool, true, false, ◌||◌, List, [],
  ◌∷◌, ◌++◌, length, ltb, Outcome, returned, panic, then_call, arith, inl, inr, Bool-cases,
}
use monny.Eventbus.{
  Bus, new_bus, or_default, contains, add_channel, add_to_topics, registered, close_all, subscribe,
  shutdown,
}
use monny.Eventbus.Topics.{subscribe_all}

abbrev pub one_if : Bool → ℕ
one_if true = 1
one_if false = 0

abbrev pub count : ℕ → List ℕ → ℕ
count d [] = 0
count d (c ∷ cs) = one_if (d == c) + count d cs

pub count-append : (d : ℕ) (xs ys : List ℕ) → count d (xs ++ ys) ≡ count d xs + count d ys
count-append d [] ys = omega arith
count-append d (x ∷ xs) ys = ground (arith, count-append d xs ys)

contains-count : (d : ℕ) (cs : List ℕ) → contains d cs ≡ ltb 0 (count d cs)
contains-count d [] = refl
contains-count d (c ∷ cs) = ground (arith, contains-count d cs)

-- whether a call panics
abbrev pub is_panic {ℓ} : {A : Type ℓ} → Outcome A → Bool
is_panic panic = true
is_panic (returned a) = false

close_all-panics :
    (d : ℕ) (cs closed : List ℕ)
    → 0 < count d cs
    → 1 < count d cs + count d closed
    → is_panic (close_all cs closed) ≡ true
unfolding close_all
close_all-panics d [] closed p q = absurd (omega arith)
close_all-panics d (c ∷ cs) closed p q =
    ground (arith, contains-count c closed, close_all-panics d cs (c ∷ closed))

count-moved :
    (d c : ℕ) (cs closed : List ℕ)
    → count d (c ∷ cs) + count d closed ≤ 1
    → count d cs + count d (c ∷ closed) ≤ 1
count-moved d c cs closed h = omega arith

close_all-returns :
    (cs closed : List ℕ)
    → ((d : ℕ) → count d cs + count d closed ≤ 1)
    → is_panic (close_all cs closed) ≡ false
unfolding close_all
close_all-returns [] closed h = refl
close_all-returns (c ∷ cs) closed h =
    let later = close_all-returns cs (c ∷ closed) (λ d. count-moved d c cs closed (h d)) in
    ground (arith, contains-count c closed, h c, later)

add_channel-count :
    (d : ℕ) (m : List (String × List ℕ)) (t : String) (c : ℕ)
    → count d (registered (add_channel m t c)) ≡ one_if (d == c) + count d (registered m)
unfolding add_channel registered
add_channel-count d [] t c = refl
add_channel-count d ((t', chs) ∷ m) t c = ground (
  arith,
  add_channel-count d m t c,
  count-append d chs (registered m),
  count-append d (chs ++ c ∷ []) (registered m),
  count-append d chs (c ∷ []),
  count-append d chs (registered (add_channel m t c)),
)

abbrev times : Bool → ℕ → ℕ
times true n = n
times false n = 0

add_to_topics-count :
    (d : ℕ) (m : List (String × List ℕ)) (ts : List String) (c : ℕ)
    → count d (registered (add_to_topics m ts c))
      ≡ times (d == c) (length ts) + count d (registered m)
unfolding add_to_topics
add_to_topics-count d m [] c = ground arith
add_to_topics-count d m (t ∷ ts) c =
    ground (arith, add_to_topics-count d (add_channel m t c) ts c, add_channel-count d m t c)

-- how often the calls of Subscribe register a channel, with channels from `n`
abbrev registrations : ℕ → List (List String) → ℕ → ℕ
registrations n [] d = 0
registrations n (ts ∷ calls) d =
    times (d == n) (length (or_default ts)) + registrations (suc n) calls d

-- a call names more than one topic
abbrev pub several : List (List String) → Bool
several [] = false
several (ts ∷ calls) = ltb 1 (length ts) || several calls

registrations_below : (n d : ℕ) (calls : List (List String)) → d < n → registrations n calls d ≡ 0
registrations_below n d [] h = refl
registrations_below n d (ts ∷ calls) h =
    ground (arith, registrations_below (suc n) d calls (omega arith))

length-or_default : (ts : List String) → ltb 1 (length (or_default ts)) ≡ ltb 1 (length ts)
length-or_default [] = refl
length-or_default (t ∷ ts) = refl

registrations_once :
    (n d : ℕ) (calls : List (List String)) → several calls ≡ false → registrations n calls d ≤ 1
registrations_once n d [] h = omega arith
registrations_once n d (ts ∷ calls) h = ground (
  arith,
  length-or_default ts,
  registrations_once (suc n) d calls,
  registrations_below (suc n) d calls,
)

other : {a b : Bool} → a ≡ false → (a || b) ≡ true → b ≡ true
other p q = ground arith

registrations_more :
    (n d : ℕ) (ts : List String) (calls : List (List String))
    → 1 < registrations (suc n) calls d
    → 1 < registrations n (ts ∷ calls) d
registrations_more n d ts calls h = omega arith

registrations-several :
    (n : ℕ) (calls : List (List String))
    → several calls ≡ true
    → (d : ℕ) × (1 < registrations n calls d)
registrations-several n [] h = absurd (cc)
registrations-several n (ts ∷ calls) h = elim (Bool-cases (ltb 1 (length ts))) [
  | inl many ↦ (n, ground (arith, length-or_default ts))
  | inr one ↦
      let (d, p) = registrations-several (suc n) calls (other one h) in
      (d, registrations_more n d ts calls p)
]

positive : {m n : ℕ} → m ≡ n → 1 < m → 0 < n
positive e h = omega arith

double : {m n : ℕ} → m ≡ n → 1 < m → 1 < n + 0
double e h = omega arith

single : {m n : ℕ} → m ≡ n → n ≤ 1 → m + 0 ≤ 1
single e h = omega arith

is_panic-then {ℓ κ} :
    {A : Type ℓ} {B : Type κ} (o : Outcome A) (f : A → B)
    → is_panic (then_call o (λ a. returned (f a))) ≡ is_panic o
is_panic-then panic f = refl
is_panic-then (returned a) f = refl

module _ {ℓ} {E : Type ℓ} where
  subscribe_all-count :
      (calls : List (List String)) (b : Bus E) (d : ℕ)
      → count d (registered (subscribe_all calls b).subscribers)
        ≡ registrations b.next calls d + count d (registered b.subscribers)
  unfolding subscribe_all subscribe
  subscribe_all-count [] b d = omega arith
  subscribe_all-count (ts ∷ calls) b d = omega (
    arith,
    subscribe_all-count calls (subscribe ts b) d,
    add_to_topics-count d (b.subscribers) (or_default ts) (b.next),
  )

  subscribe_all-closed :
      (calls : List (List String)) (b : Bus E) → (subscribe_all calls b).closed ≡ b.closed
  unfolding subscribe_all subscribe
  subscribe_all-closed [] b = refl
  subscribe_all-closed (ts ∷ calls) b = subscribe_all-closed calls (subscribe ts b)

  shutdown-close_all :
      (b : Bus E) → is_panic (shutdown b) ≡ is_panic (close_all (registered b.subscribers) b.closed)
  unfolding shutdown
  shutdown-close_all b = is_panic-then (close_all (registered b.subscribers) b.closed) _

abbrev started {ℓ} : (E : Type ℓ) → List (List String) → Bus E
unfolding subscribe_all
started E calls = subscribe_all calls (new_bus {E = E})

new_bus-count {ℓ} :
    (E : Type ℓ) (calls : List (List String)) (d : ℕ)
    → count d (registered (started E calls).subscribers) ≡ registrations 0 calls d
unfolding subscribe_all registered
new_bus-count E calls d = omega (arith, subscribe_all-count calls (new_bus {E = E}) d)

-- The `recover` in the body of Shutdown stops no panic: after any calls of Subscribe on a new
-- bus, Shutdown panics if one of the calls named more than one topic, and goes on otherwise.
pub shutdown-panics {ℓ} :
    (E : Type ℓ) (calls : List (List String))
    → is_panic (shutdown (subscribe_all calls (new_bus {E = E}))) ≡ several calls
unfolding subscribe_all registered
shutdown-panics E calls =
    let b = started E calls in
    let closing =
      shutdown-close_all b
      ∙ ap (λ cs. is_panic (close_all (registered b.subscribers) cs))
          (subscribe_all-closed calls (new_bus {E = E})) in
    elim (Bool-cases (several calls)) [
      | inl many ↦
          let (d, p) = registrations-several 0 calls many in
          let q = sym (new_bus-count E calls d) in
          closing
          ∙ (close_all-panics d (registered b.subscribers) [] (positive q p) (double q p)
              ∙ sym many)
      | inr one ↦
          closing
          ∙ (close_all-returns (registered b.subscribers) []
                (λ d. single (new_bus-count E calls d) (registrations_once 0 d calls one))
              ∙ sym one)
    ]
