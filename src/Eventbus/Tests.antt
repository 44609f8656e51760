-- ===== src/Eventbus/Tests.antt =====
-- The theorems about the event bus (pkg/eventbus/bus.go) at concrete runs.
use monny.Base.{ℕ, ◌≡◌, refl, String, true, List, [], ◌∷◌, none, some, returned}
use monny.Eventbus.{
  Bus, default_topic, new_bus, dispatch, start_send, close_done, shutdown, registered, end_shutdown,
  unsubscribe, put,
}
use monny.Eventbus.Steps.{
  starts, exits, shuts_down, times_out, Step, Run, IsFree, start_step, exit_step, shutdown_step,
  timeout_step, stop, then_run,
}
use monny.Eventbus.Topics.{subscribe_all, expected, dispatch-expected}
use monny.Eventbus.Closing.{several, is_panic, count, shutdown-panics}
use monny.Eventbus.Quiet.{NothingNew, shutdown-NothingNew}
use monny.Eventbus.Blocked.{IsBlocked, IsHeld, IsBlocked-never_shuts}
use monny.Eventbus.Removal.{IsWithout, unsubscribe-once}

abbrev calls : List (List String)
calls = [] ∷ ("logs" ∷ []) ∷ ("logs" ∷ "errors" ∷ []) ∷ []

dispatch-expected_example :
    (dispatch {E = ℕ} 7 ("logs" ∷ []) (subscribe_all calls new_bus)).pending
    ≡ expected {E = ℕ} calls 7 ("logs" ∷ default_topic ∷ [])
dispatch-expected_example = dispatch-expected {E = ℕ} calls 7 ("logs" ∷ [])

three_sends : expected {E = ℕ} calls 7 ("logs" ∷ default_topic ∷ []) ≡ (1, 7) ∷ (2, 7) ∷ (0, 7) ∷ []
three_sends = refl

shutdown-panics_example :
    is_panic (shutdown (subscribe_all calls (new_bus {E = ℕ}))) ≡ several calls
shutdown-panics_example = shutdown-panics ℕ calls

-- one subscriber, an event in its channel and a send of a second one
abbrev one_subscriber : Bus ℕ
one_subscriber = record (new_bus {E = ℕ}) {
  subscribers = (default_topic, 0 ∷ []) ∷ [];
  done = 0 ∷ [];
  next = 1;
  buffer = put 0 7 (λ c. none);
  pending = (0, 8) ∷ [];
}

abbrev shutting : Bus ℕ
shutting = record one_subscriber { sd_started = true; closed = 0 ∷ []; waiting = some (0 ∷ []) }

abbrev shut_down : Bus ℕ
shut_down = record shutting { waiting = none; pending = [] }

begins : Step shuts_down one_subscriber shutting
unfolding shutdown
begins = shutdown_step (refl, refl) refl

goes_on : Run (times_out ∷ starts 0 8 ∷ []) shutting shut_down
unfolding start_send end_shutdown
goes_on =
    then_run (timeout_step (0 ∷ []) refl) (then_run (start_step [] [] 0 8 refl refl refl) stop)

shutdown-NothingNew_example : NothingNew one_subscriber shut_down
shutdown-NothingNew_example = shutdown-NothingNew one_subscriber shutting shut_down begins goes_on

abbrev stuck : Bus ℕ
stuck = record one_subscriber { pending = []; sending = (0, 8) ∷ [] }

blocks : start_send 0 8 (record one_subscriber { pending = [] }) ≡ returned stuck
unfolding start_send
blocks = refl

abbrev later : Bus ℕ
later = close_done 3 stuck

waits : Run (exits 3 ∷ []) stuck later
waits = then_run (exit_step 3) stop

IsBlocked-never_shuts_example : (¬ IsFree later) × IsBlocked 0 7 later × IsHeld stuck later
IsBlocked-never_shuts_example = IsBlocked-never_shuts 0 7 stuck later waits refl refl (refl, refl)

registered_once : count 0 (registered one_subscriber.subscribers) ≡ 1
unfolding registered
registered_once = refl

unsubscribe-once_example :
    (b' : Bus ℕ) × (unsubscribe 0 0 one_subscriber ≡ returned b')
    × IsWithout 0 (registered one_subscriber.subscribers) (registered b'.subscribers)
    × IsWithout 0 one_subscriber.done b'.done
    × (b'.closed ≡ 0 ∷ one_subscriber.closed)
    × (b'.done_closed ≡ 0 ∷ one_subscriber.done_closed)
unsubscribe-once_example = unsubscribe-once 0 0 one_subscriber registered_once refl refl refl
