-- ===== src/Eventbus/Topics.antt =====
-- Which subscribers Dispatch sends an event to (pkg/eventbus/bus.go, Subscribe and Dispatch).
use monny.Base.{
  ℕ, suc, ◌≡◌, refl, sym, ap, ap₂, ◌∙◌, String, false, List, [], ◌∷◌, ◌++◌, append-nil,
  append_assoc, str_eq, eq_iff, if◌then◌else◌, arith, inl, inr, Bool-cases, if_true, if_false,
}
use monny.Eventbus.{
  Bus, default_topic, new_bus, or_default, channels_of, add_channel, add_to_topics, subscribe,
  sends_of, sends_to, dispatch,
}

-- one copy of a channel for each time that the topic is among these
abbrev pub copies : String → List String → ℕ → List ℕ
copies topic [] c = []
copies topic (t ∷ ts) c = if str_eq topic t then c ∷ copies topic ts c else copies topic ts c

-- The calls of Subscribe, as the lists of their topics, taken for a list of subscriptions: the
-- channels of a topic, in the order of the calls, numbered from `n`.
abbrev pub subscribed : ℕ → List (List String) → String → List ℕ
subscribed n [] topic = []
subscribed n (ts ∷ calls) topic = copies topic (or_default ts) n ++ subscribed (suc n) calls topic

abbrev found : String → String → List ℕ → List ℕ
found topic t chs = if str_eq topic t then chs else []

found_here :
    (m : List (String × List ℕ)) (chs : List ℕ) (t t' topic : String) (c : ℕ)
    → t ≡ t'
    → channels_of ((t', chs ++ c ∷ []) ∷ m) topic
      ≡ channels_of ((t', chs) ∷ m) topic ++ found topic t (c ∷ [])
unfolding channels_of
found_here m chs t t' topic c same =
    ground (arith, eq_iff topic t, eq_iff topic t', append-nil (channels_of m topic))

found_later :
    (m m' : List (String × List ℕ)) (chs : List ℕ) (t t' topic : String) (c : ℕ)
    → str_eq t t' ≡ false
    → channels_of m' topic ≡ channels_of m topic ++ found topic t (c ∷ [])
    → channels_of ((t', chs) ∷ m') topic
      ≡ channels_of ((t', chs) ∷ m) topic ++ found topic t (c ∷ [])
unfolding channels_of
found_later m m' chs t t' topic c other later =
    ground (arith, eq_iff t t', eq_iff topic t, eq_iff topic t', append-nil chs)

add_channel-channels_of :
    (m : List (String × List ℕ)) (t topic : String) (c : ℕ)
    → channels_of (add_channel m t c) topic ≡ channels_of m topic ++ found topic t (c ∷ [])
unfolding channels_of add_channel
add_channel-channels_of [] t topic c = refl
add_channel-channels_of ((t', chs) ∷ m) t topic c =
    let here : List (String × List ℕ) = (t', chs ++ c ∷ []) ∷ m in
    let later : List (String × List ℕ) = (t', chs) ∷ add_channel m t c in
    elim (Bool-cases (str_eq t t')) [
      | inl same ↦
          ap (λ l. channels_of l topic) (if_true here later same)
          ∙ found_here m chs t t' topic c ((eq_iff t t').0 same)
      | inr other ↦
          ap (λ l. channels_of l topic) (if_false here later other)
          ∙ found_later m (add_channel m t c) chs t t' topic c other
              (add_channel-channels_of m t topic c)
    ]

add_to_topics-channels_of :
    (m : List (String × List ℕ)) (ts : List String) (topic : String) (c : ℕ)
    → channels_of (add_to_topics m ts c) topic ≡ channels_of m topic ++ copies topic ts c
unfolding add_to_topics
add_to_topics-channels_of m [] topic c = sym (append-nil (channels_of m topic))
add_to_topics-channels_of m (t ∷ ts) topic c = ground (
  arith,
  add_to_topics-channels_of (add_channel m t c) ts topic c,
  add_channel-channels_of m t topic c,
  append_assoc (channels_of m topic) (c ∷ []) (copies topic ts c),
  append-nil (channels_of m topic),
)

module _ {ℓ} {E : Type ℓ} where
  unfoldable pub subscribe_all : List (List String) → Bus E → Bus E
  subscribe_all [] b = b
  subscribe_all (ts ∷ calls) b = subscribe_all calls (subscribe ts b)

  subscribe_all-channels_of :
      (calls : List (List String)) (b : Bus E) (topic : String)
      → channels_of (subscribe_all calls b).subscribers topic
        ≡ channels_of b.subscribers topic ++ subscribed b.next calls topic
  unfolding subscribe_all subscribe
  subscribe_all-channels_of [] b topic = sym (append-nil (channels_of (b.subscribers) topic))
  subscribe_all-channels_of (ts ∷ calls) b topic = ground (
    arith,
    subscribe_all-channels_of calls (subscribe ts b) topic,
    add_to_topics-channels_of (b.subscribers) (or_default ts) topic (b.next),
    append_assoc (channels_of (b.subscribers) topic) (copies topic (or_default ts) (b.next))
        (subscribed (suc (b.next)) calls topic),
  )

  -- the sends of an event for each of some topics, by the list of subscriptions
  abbrev pub expected : List (List String) → E → List String → List (ℕ × E)
  expected calls e [] = []
  expected calls e (topic ∷ topics) =
      sends_of e (subscribed 0 calls topic) ++ expected calls e topics

  sends_to-expected :
      (calls : List (List String)) (e : E) (topics : List String)
      → sends_to (subscribe_all calls new_bus).subscribers e topics ≡ expected calls e topics
  unfolding sends_to channels_of
  sends_to-expected calls e [] = refl
  sends_to-expected calls e (topic ∷ topics) =
      ap₂ (λ xs ys. sends_of e xs ++ ys) (subscribe_all-channels_of calls new_bus topic)
        (sends_to-expected calls e topics)

  subscribe_all-quiet :
      (calls : List (List String)) (b : Bus E)
      → ((subscribe_all calls b).sd_started ≡ b.sd_started)
        × ((subscribe_all calls b).pending ≡ b.pending)
  unfolding subscribe_all subscribe
  subscribe_all-quiet [] b = (refl, refl)
  subscribe_all-quiet (ts ∷ calls) b = subscribe_all-quiet calls (subscribe ts b)

  -- The map of topics implements a list of subscriptions: after any calls of Subscribe on a new
  -- bus, Dispatch starts for each of its topics, and for the default topic behind them, one send
  -- to each subscription to that topic, in the order of the calls, and no other; a subscriber
  -- without topics counts as one to the default topic.
  pub dispatch-expected :
      (calls : List (List String)) (e : E) (topics : List String)
      → (dispatch e topics (subscribe_all calls new_bus)).pending
        ≡ expected calls e (topics ++ default_topic ∷ [])
  unfolding dispatch
  dispatch-expected calls e topics = ground (
    arith,
    subscribe_all-quiet calls (new_bus {E = E}),
    sends_to-expected calls e (topics ++ default_topic ∷ []),
  )
