-- ===== src/Eventbus.antt =====
-- pkg/eventbus/bus.go: the event bus, with the channels and the goroutines that it makes. An event
-- channel and the done channel of one call of Subscribe share a number. A goroutine that sends
-- stands in `pending` until it takes the read lock, and in `sending` as long as it holds the lock
-- in front of a full channel; `waiting` is the Shutdown that holds the write lock, with the done
-- channels that it waits for.
pub mod Steps
pub mod Topics
pub mod Closing
pub mod Removal
pub mod Quiet
pub mod Blocked
pub mod Event
mod Tests
use monny.Base.{
  ℕ, suc, ◌==◌, String, Bool, true, false, not, ◌&&◌, ◌||◌, List, [], ◌∷◌, ◌++◌, Option, none, some,
  Outcome, returned, panic, then_call, str_eq, if◌then◌else◌,
}

pub record Bus {ℓ} (E : Type ℓ) : Type ℓ where
  pub subscribers : List (String × List ℕ)
  pub done : List ℕ
  pub sd_started : Bool
  pub next : ℕ
  pub closed : List ℕ
  pub done_closed : List ℕ
  pub buffer : ℕ → Option E
  pub pending : List (ℕ × E)
  pub sending : List (ℕ × E)
  pub waiting : Option (List ℕ)

abbrev pub default_topic : String
default_topic = "__default__"

abbrev pub contains : ℕ → List ℕ → Bool
contains c [] = false
contains c (d ∷ ds) = c == d || contains c ds

-- the channels of a topic; none for a topic that the map does not have
unfoldable pub channels_of : List (String × List ℕ) → String → List ℕ
channels_of [] topic = []
channels_of ((t, chs) ∷ m) topic = if str_eq topic t then chs else channels_of m topic

-- the two cases of subscribe's switch
unfoldable pub add_channel : List (String × List ℕ) → String → ℕ → List (String × List ℕ)
add_channel [] topic c = (topic, c ∷ []) ∷ []
add_channel ((t, chs) ∷ m) topic c =
    let rest = add_channel m topic c in
    if str_eq topic t then (t, chs ++ c ∷ []) ∷ m else (t, chs) ∷ rest

unfoldable pub add_to_topics : List (String × List ℕ) → List String → ℕ → List (String × List ℕ)
unfolding add_channel
add_to_topics m [] c = m
add_to_topics m (topic ∷ topics) c = add_to_topics (add_channel m topic c) topics c

-- every channel under every topic
unfoldable pub registered : List (String × List ℕ) → List ℕ
registered [] = []
registered ((t, chs) ∷ m) = chs ++ registered m

-- `close` of each channel: of a closed one it panics, which `recover` in the same body, not in a
-- deferred call, does not stop
unfoldable pub close_all : List ℕ → List ℕ → Outcome (List ℕ)
close_all [] closed = returned closed
close_all (c ∷ cs) closed =
    let rest = close_all cs (c ∷ closed) in if contains c closed then panic else rest

-- The loop of Unsubscribe over one slice, which it shifts in place under the loop: behind the
-- match it skips the next channel and sees the last one twice. Closing a second match panics.
unfoldable pub seen_behind : List ℕ → List ℕ
seen_behind [] = []
seen_behind (x ∷ []) = x ∷ []
seen_behind (x ∷ (y ∷ ys)) = y ∷ seen_behind (y ∷ ys)

-- the slice without the first match, if there is one
unfoldable pub remove_channel : ℕ → List ℕ → Outcome (Option (List ℕ))
unfolding seen_behind
remove_channel c [] = returned none
remove_channel c (x ∷ xs) =
    let rest = remove_channel c xs in
    if x == c
    then (if contains c (seen_behind xs) then panic else returned (some xs))
    else then_call rest (λ o. returned (elim o [ none ↦ none | some ys ↦ some (x ∷ ys) ]))

-- the done channels that `shutdownNotify` still waits for
abbrev pub all_closed : List ℕ → List ℕ → Bool
all_closed closed [] = true
all_closed closed (d ∷ ds) = contains d closed && all_closed closed ds

abbrev pub in_front_of :
    String × List ℕ
    → Outcome (List (String × List ℕ) × List ℕ)
    → Outcome (List (String × List ℕ) × List ℕ)
in_front_of entry panic = panic
in_front_of entry (returned (m, closed)) = returned (entry ∷ m, closed)

-- The loop of Unsubscribe over the topics, with the channels that are closed: a second close of
-- the channel panics.
unfoldable pub remove_topics :
    ℕ → List (String × List ℕ) → List ℕ → Outcome (List (String × List ℕ) × List ℕ)
unfolding remove_channel
remove_topics c [] closed = returned ([], closed)
remove_topics c ((t, chs) ∷ m) closed =
    let unclosed = remove_topics c m closed in
    let behind = remove_topics c m (c ∷ closed) in
    elim (remove_channel c chs) [
      | panic ↦ panic
      | returned none ↦ in_front_of (t, chs) unclosed
      | returned (some chs') ↦ if contains c closed then panic else in_front_of (t, chs') behind
    ]

abbrev pub or_default : List String → List String
or_default [] = default_topic ∷ []
or_default (t ∷ ts) = t ∷ ts

module _ {ℓ} {E : Type ℓ} where
  -- `New()`
  abbrev pub new_bus : Bus E
  new_bus = record {
    subscribers = [];
    done = [];
    sd_started = false;
    next = 0;
    closed = [];
    done_closed = [];
    buffer = λ c. none;
    pending = [];
    sending = [];
    waiting = none;
  }

  -- `Subscribe(topics...)`: the new channel has the number `next`
  unfoldable pub subscribe : List String → Bus E → Bus E
  unfolding add_to_topics
  subscribe topics b = record b {
    subscribers = add_to_topics (b.subscribers) (or_default topics) (b.next);
    done = b.done ++ b.next ∷ [];
    next = suc (b.next);
  }

  abbrev pub sends_of : E → List ℕ → List (ℕ × E)
  sends_of e [] = []
  sends_of e (c ∷ cs) = (c, e) ∷ sends_of e cs

  -- the goroutines that Dispatch starts for its topics
  unfoldable pub sends_to : List (String × List ℕ) → E → List String → List (ℕ × E)
  unfolding channels_of
  sends_to m e [] = []
  sends_to m e (topic ∷ topics) = sends_of e (channels_of m topic) ++ sends_to m e topics

  -- `Dispatch(event, topics...)`
  unfoldable pub dispatch : E → List String → Bus E → Bus E
  unfolding sends_to
  dispatch e topics b = if b.sd_started then b else (record b {
    pending = b.pending ++ sends_to (b.subscribers) e (topics ++ default_topic ∷ []);
  })

  abbrev pub put : ℕ → E → (ℕ → Option E) → ℕ → Option E
  put c e buffer d = if d == c then some e else buffer d

  -- `c <- evt` under the read lock: the channel holds one event
  unfoldable pub send : ℕ → E → Bus E → Outcome (Bus E)
  send c e b = if contains c (b.closed) then panic else elim (b.buffer c) [
    | none ↦ returned (record b { buffer = put c e (b.buffer) })
    | some x ↦ returned (record b { sending = b.sending ++ (c, e) ∷ [] })
  ]

  -- the goroutine of Dispatch that has taken the read lock
  unfoldable pub start_send : ℕ → E → Bus E → Outcome (Bus E)
  unfolding send
  start_send c e b = let sent = send c e b in if b.sd_started then returned b else sent

  -- a subscriber takes the event out of its channel
  unfoldable pub receive : ℕ → Bus E → Bus E
  receive c b = record b { buffer = λ d. if d == c then none else b.buffer d }

  -- the call of a ShutdownFunc: `doneCloser.close`, which closes once
  unfoldable pub close_done : ℕ → Bus E → Bus E
  close_done d b =
      if contains d (b.done_closed) then b else (record b { done_closed = d ∷ b.done_closed })

  -- `Shutdown(ctx)` up to its select
  unfoldable pub shutdown : Bus E → Outcome (Bus E)
  unfolding close_all registered
  shutdown b = then_call (close_all (registered (b.subscribers)) (b.closed)) (λ closed.
      returned (record b { sd_started = true; closed = closed; waiting = some (b.done) }))

  -- the end of Shutdown: its select has taken either case
  unfoldable pub end_shutdown : Bus E → Bus E
  end_shutdown b = record b { waiting = none }

  -- `Unsubscribe(c, done)`
  unfoldable pub unsubscribe : ℕ → ℕ → Bus E → Outcome (Bus E)
  unfolding remove_topics
  unsubscribe c d b = then_call (remove_topics c (b.subscribers) (b.closed)) (λ (m, closed).
      then_call (remove_channel d (b.done)) (λ o. elim o [
        | none ↦ returned (record b { subscribers = m; closed = closed })
        | some ds ↦
            if contains d (b.done_closed)
            then panic
            else returned (record b {
              subscribers = m;
              closed = closed;
              done = ds;
              done_closed = d ∷ b.done_closed;
            })
      ]))
