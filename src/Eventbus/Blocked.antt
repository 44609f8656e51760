-- ===== src/Eventbus/Blocked.antt =====
-- A send that waits for a full channel, and Shutdown (pkg/eventbus/bus.go).
use monny.Base.{
  ℕ, ◌==◌, ◌≡◌, refl, sym, ap, ◌∙◌, String, Bool, true, false, not, ◌&&◌, ◌||◌, List, [], ◌∷◌, ◌++◌,
  Option, none, some, returned, arith, ◌≢◌, not-true,
}
use monny.Eventbus.{Bus, dispatch, start_send, send, receive, close_done}
use monny.Eventbus.Steps.{
  Action, receives, Step, Run, IsFree, subscribe_step, dispatch_step, start_step, resume_step,
  receive_step, exit_step, unsubscribe_step, shutdown_step, timeout_step, complete_step, stop,
  then_run,
}

not-is_true : {a : Bool} → not a ≡ true → a ≡ false
not-is_true h = ground arith

not_waiting : (w : Option (List ℕ)) (ds : List ℕ) → w ≡ none → w ≢ some ds
not_waiting none ds p q = absurd (cc)
not_waiting (some es) ds p q = absurd (cc)

module _ {ℓ} {E : Type ℓ} where
  -- a send to the channel is among these
  abbrev pub is_sent : ℕ → List (ℕ × E) → Bool
  is_sent c [] = false
  is_sent c ((d, e) ∷ sends) = c == d || is_sent c sends

  -- the channel holds an event that nobody takes, and a send to it holds the read lock
  abbrev pub IsBlocked : ℕ → E → Bus E → Type ℓ
  IsBlocked c x b = (is_sent c b.sending ≡ true) × (b.buffer c ≡ some x)

  abbrev pub never_receives : ℕ → List (Action E) → Bool
  never_receives c [] = true
  never_receives c (receives d ∷ actions) = not (c == d) && never_receives c actions
  never_receives c (_ ∷ actions) = never_receives c actions

  abbrev stays : ℕ → Action E → Bool
  stays c (receives d) = not (c == d)
  stays c _ = true

  is_sent-append :
      (c : ℕ) (xs ys : List (ℕ × E)) → is_sent c (xs ++ ys) ≡ (is_sent c xs || is_sent c ys)
  is_sent-append c [] ys = refl
  is_sent-append c ((d, e) ∷ xs) ys = ground (arith, is_sent-append c xs ys)

  -- what no step changes as long as the send is blocked
  abbrev pub IsHeld : Bus E → Bus E → Type 0
  IsHeld b b' = (b'.sd_started ≡ b.sd_started) × (b'.closed ≡ b.closed) × (b'.waiting ≡ b.waiting)

  blocked_not-IsFree : (c : ℕ) (b : Bus E) → is_sent c b.sending ≡ true → ¬ IsFree b
  blocked_not-IsFree c b sent (empty, w) = not-true sent (ap (is_sent c) empty)

  abbrev StaysFull : ℕ → E → Bus E → Bus E → Type ℓ
  StaysFull c x b b' = (is_sent c b'.sending ≡ true) × (b'.buffer c ≡ some x) × IsHeld b b'

  send-full :
      (c d : ℕ) (e x : E) (b b' : Bus E)
      → is_sent c (b.sending ++ (d, e) ∷ []) ≡ true
      → b.buffer c ≡ some x
      → send d e b ≡ returned b'
      → StaysFull c x b b'
  unfolding send
  send-full c d e x b b' sent full made = ground (arith, is_sent-append c (b.sending) ((d, e) ∷ []))

  start_send-full :
      (c d : ℕ) (e x : E) (b b' : Bus E)
      → is_sent c b.sending ≡ true
      → b.buffer c ≡ some x
      → start_send d e b ≡ returned b'
      → StaysFull c x b b'
  unfolding start_send
  start_send-full c d e x b b' sent full made =
      ground (arith, is_sent-append c (b.sending) ((d, e) ∷ []), send-full c d e x b b')

  dispatch-full :
      (c : ℕ) (e x : E) (topics : List String) (b : Bus E)
      → is_sent c b.sending ≡ true
      → b.buffer c ≡ some x
      → StaysFull c x b (dispatch e topics b)
  unfolding dispatch
  dispatch-full c e x topics b sent full = ground arith

  close_done-full :
      (c d : ℕ) (x : E) (b : Bus E)
      → is_sent c b.sending ≡ true
      → b.buffer c ≡ some x
      → StaysFull c x b (close_done d b)
  unfolding close_done
  close_done-full c d x b sent full = ground arith

  receive-full :
      (c d : ℕ) (x : E) (b : Bus E)
      → (c == d) ≡ false
      → is_sent c b.sending ≡ true
      → b.buffer c ≡ some x
      → StaysFull c x b (receive d b)
  unfolding receive
  receive-full c d x b other sent full = ground arith

  -- the sends with one of them moved to the end
  is_sent-moved :
      (c : ℕ) (front back : List (ℕ × E)) (p : ℕ × E)
      → is_sent c (front ++ p ∷ back) ≡ true
      → is_sent c ((front ++ back) ++ p ∷ []) ≡ true
  is_sent-moved c front back p h = ground (
    arith,
    is_sent-append c front (p ∷ back),
    is_sent-append c (front ++ back) (p ∷ []),
    is_sent-append c front back,
  )

  Step-StaysFull :
      {a : Action E} (c : ℕ) (x : E) (b b' : Bus E)
      → Step a b b'
      → b.waiting ≡ none
      → stays c a ≡ true
      → IsBlocked c x b
      → StaysFull c x b b'
  Step-StaysFull c x b b' (subscribe_step topics free) w s (sent, full) =
      absurd (blocked_not-IsFree c b sent free)
  Step-StaysFull c x b b' (dispatch_step e topics free) w s (sent, full) =
      dispatch-full c e x topics b sent full
  Step-StaysFull c x b b' (start_step front back d e p free made) w s (sent, full) =
      start_send-full c d e x (record b { pending = front ++ back }) b' sent full made
  Step-StaysFull c x b b' (resume_step front back d e p made) w s (sent, full) =
      send-full c d e x (record b { sending = front ++ back }) b'
        (is_sent-moved c front back (d, e) (ap (is_sent c) (sym p) ∙ sent)) full made
  Step-StaysFull c x b b' (receive_step d) w s (sent, full) =
      receive-full c d x b (not-is_true s) sent full
  Step-StaysFull c x b b' (exit_step d) w s (sent, full) = close_done-full c d x b sent full
  Step-StaysFull c x b b' (unsubscribe_step e d free made) w s (sent, full) =
      absurd (blocked_not-IsFree c b sent free)
  Step-StaysFull c x b b' (shutdown_step free made) w s (sent, full) =
      absurd (blocked_not-IsFree c b sent free)
  Step-StaysFull c x b b' (timeout_step ds w') w s (sent, full) =
      absurd (not_waiting (b.waiting) ds w w')
  Step-StaysFull c x b b' (complete_step ds w' all) w s (sent, full) =
      absurd (not_waiting (b.waiting) ds w w')

  never_receives-cons :
      (c : ℕ) (a : Action E) (actions : List (Action E))
      → never_receives c (a ∷ actions) ≡ true
      → (stays c a ≡ true) × (never_receives c actions ≡ true)
  never_receives-cons c (receives d) actions h = ground arith
  never_receives-cons c (_) actions h = (refl, h)

  -- A send that waits for a full channel holds the read lock. As long as the subscriber does not
  -- receive, whatever else happens, the lock is never free, so that no Shutdown begins and no
  -- channel is closed.
  pub IsBlocked-never_shuts :
      {actions : List (Action E)} (c : ℕ) (x : E) (b b' : Bus E)
      → Run actions b b'
      → never_receives c actions ≡ true
      → b.waiting ≡ none
      → IsBlocked c x b
      → (¬ IsFree b') × IsBlocked c x b' × IsHeld b b'
  IsBlocked-never_shuts c x b b' stop h w (sent, full) =
      (blocked_not-IsFree c b sent, (sent, full), (refl, refl, refl))
  IsBlocked-never_shuts c x b b'' (then_run {a} {actions} {b' = b'} step rest) h w blocked =
      let (s, more) = never_receives-cons c a actions h in
      let (sent, full, (started, closed, waits)) = Step-StaysFull c x b b' step w s blocked in
      let (busy, still, (started', closed', waits')) =
        IsBlocked-never_shuts c x b' b'' rest more (waits ∙ w) (sent, full) in
      (busy, still, (started' ∙ started, closed' ∙ closed, waits' ∙ waits))
