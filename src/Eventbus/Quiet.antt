-- ===== src/Eventbus/Quiet.antt =====
-- Events and a shutdown of the bus (pkg/eventbus/bus.go, Shutdown and the goroutines of Dispatch).
use monny.Base.{ℕ, ◌≡◌, sym, ap, ◌∙◌, String, true, List, [], ◌∷◌, ◌++◌, some, returned, arith, ◌≢◌}
use monny.Eventbus.{
  Bus, subscribe, dispatch, start_send, receive, close_done, shutdown, end_shutdown, unsubscribe,
}
use monny.Eventbus.Steps.{
  Action, shuts_down, Step, Run, subscribe_step, dispatch_step, start_step, resume_step,
  receive_step, exit_step, unsubscribe_step, shutdown_step, timeout_step, complete_step, stop,
  then_run,
}

module _ {ℓ} {E : Type ℓ} where
  -- no send holds the lock
  abbrev IsShut : Bus E → Type ℓ
  IsShut b = (b.sd_started ≡ true) × (b.sending ≡ [])

  -- every event in a channel of the second bus is there in the first
  abbrev pub NothingNew : Bus E → Bus E → Type ℓ
  NothingNew b b' = (c : ℕ) (e : E) → b'.buffer c ≡ some e → b.buffer c ≡ some e

  -- what most steps leave alone
  abbrev pub IsAsBefore : Bus E → Bus E → Type ℓ
  IsAsBefore b b' =
      (b'.sd_started ≡ b.sd_started) × (b'.sending ≡ b.sending) × (b'.buffer ≡ b.buffer)

  unsubscribe-IsAsBefore :
      (c d : ℕ) (b b' : Bus E) → unsubscribe c d b ≡ returned b' → IsAsBefore b b'
  unfolding unsubscribe
  unsubscribe-IsAsBefore c d b b' made = ground arith

  dispatch-IsAsBefore :
      (e : E) (topics : List String) (b : Bus E) → IsAsBefore b (dispatch e topics b)
  unfolding dispatch
  dispatch-IsAsBefore e topics b = ground arith

  close_done-IsAsBefore : (d : ℕ) (b : Bus E) → IsAsBefore b (close_done d b)
  unfolding close_done
  close_done-IsAsBefore d b = ground arith

  start_send-shut :
      (c : ℕ) (e : E) (b b' : Bus E)
      → b.sd_started ≡ true
      → start_send c e b ≡ returned b'
      → IsAsBefore b b'
  unfolding start_send
  start_send-shut c e b b' h made = ground arith

  shutdown-shut :
      (b b' : Bus E)
      → shutdown b ≡ returned b'
      → (b'.sd_started ≡ true) × (b'.sending ≡ b.sending) × (b'.buffer ≡ b.buffer)
  unfolding shutdown
  shutdown-shut b b' made = ground arith

  no_sending : (front back : List (ℕ × E)) (p : ℕ × E) → [] ≢ front ++ p ∷ back
  no_sending [] back p h = absurd (cc)
  no_sending (x ∷ front) back p h = absurd (cc)

  kept : (b b' : Bus E) → IsAsBefore b b' → IsShut b → IsShut b' × NothingNew b b'
  kept b b' (started, sending, buffer) (shut, empty) =
      ((started ∙ shut, sending ∙ empty), λ c e h. ap (λ f. f c) (sym buffer) ∙ h)

  receive-NothingNew : (c : ℕ) (b : Bus E) → NothingNew b (receive c b)
  unfolding receive
  receive-NothingNew c b d e h = ground arith

  step_shut : {a : Action E} (b b' : Bus E) → Step a b b' → IsShut b → IsShut b' × NothingNew b b'
  unfolding subscribe receive end_shutdown
  step_shut b b' (subscribe_step topics free) h = (h, λ c e p. p)
  step_shut b b' (dispatch_step e topics free) h = kept b b' (dispatch-IsAsBefore e topics b) h
  step_shut b b' (start_step front back c e p free made) h =
      kept b b' (start_send-shut c e (record b { pending = front ++ back }) b' h.0 made) h
  step_shut b b' (resume_step front back c e p made) h =
      absurd (no_sending front back (c, e) (sym h.1 ∙ p))
  step_shut b b' (receive_step c) h = (h, receive-NothingNew c b)
  step_shut b b' (exit_step d) h = kept b b' (close_done-IsAsBefore d b) h
  step_shut b b' (unsubscribe_step c d free made) h =
      kept b b' (unsubscribe-IsAsBefore c d b b' made) h
  step_shut b b' (shutdown_step free made) h =
      let (started, sending, buffer) = shutdown-shut b b' made in
      kept b b' (started ∙ sym h.0, sending, buffer) h
  step_shut b b' (timeout_step ds w) h = (h, λ c e p. p)
  step_shut b b' (complete_step ds w all) h = (h, λ c e p. p)

  run_shut :
      {actions : List (Action E)} (b b' : Bus E)
      → Run actions b b'
      → IsShut b
      → IsShut b' × NothingNew b b'
  run_shut b b' stop h = (h, λ c e p. p)
  run_shut b b'' (then_run {b' = b'} step rest) h =
      let (h', first) = step_shut b b' step h in
      let (h'', more) = run_shut b' b'' rest h' in (h'', λ c e p. first c e (more c e p))

  -- A shutdown waits until no send holds the lock. From there on, whatever calls, sends and
  -- receives follow, also behind the end of Shutdown, no channel gets an event: what a subscriber
  -- still finds in its channel was there when the shutdown began.
  pub shutdown-NothingNew :
      {actions : List (Action E)} (b b' b'' : Bus E)
      → Step shuts_down b b'
      → Run actions b' b''
      → NothingNew b b''
  shutdown-NothingNew b b' b'' (shutdown_step free made) run =
      let (started, sending, buffer) = shutdown-shut b b' made in
      let (h, more) = run_shut b' b'' run (started, sending ∙ free.0) in
      λ c e p. ap (λ f. f c) (sym buffer) ∙ more c e p
