-- ===== src/Fsm/Stopping.antt =====
-- The stop condition of a machine (pkg/fsm/options.go, WithStoppable) under any sequence of
-- attempted transitions.
use monny.Base.{◌≡◌, ◌↔◌, refl, ◌∙◌, Option, none, some, true, false, ◌&&◌, List, [], ◌∷◌, arith}
use monny.Fsm.Defs.{State, Machine, FsmError, stop_error, is_allowable, transition, reset}

-- A transition returns no error exactly when the machine is not stopped and the transition is
-- allowed from the current state.
pub transition_succeeds_iff :
    (m : Machine) (to : State)
    → ((transition m to).1 ≡ none) ↔ (
        ((m.stoppable.stop_on_error && m.stoppable.stopped) ≡ false)
        × (is_allowable m m.current to ≡ true))
unfolding transition
transition_succeeds_iff m to = ground arith

-- A refused transition leaves the current state alone and sets the stop flag, on both of the
-- paths that refuse.
pub transition_refused :
    (m : Machine) (to : State) {e : FsmError}
    → (transition m to).1 ≡ some e
    → ((transition m to).0.current ≡ m.current)
      × ((transition m to).0.stoppable.stopped ≡ true)
      × ((transition m to).0.stoppable.stop_on_error ≡ m.stoppable.stop_on_error)
      × ((transition m to).0.initial ≡ m.initial)
unfolding transition
transition_refused m to h = ground arith

-- The attempts of a client, with the error of each.
unfoldable pub attempts : Machine → List State → Machine × List (Option FsmError)
attempts m [] = (m, [])
attempts m (to ∷ tos) =
    let (m', e) = transition m to in let (n, es) = attempts m' tos in (n, e ∷ es)

abbrev pub IsStopped : Machine → Type 0
IsStopped m = (m.stoppable.stop_on_error ≡ true) × (m.stoppable.stopped ≡ true)

-- `StopError` for each of the attempts
abbrev pub all_stop_errors : List State → List (Option FsmError)
all_stop_errors [] = []
all_stop_errors (to ∷ tos) = some stop_error ∷ all_stop_errors tos

transition-IsStopped :
    (m : Machine) (to : State)
    → IsStopped m
    → ((transition m to).1 ≡ some stop_error)
      × ((transition m to).0.current ≡ m.current)
      × ((transition m to).0.initial ≡ m.initial)
      × IsStopped (transition m to).0
unfolding transition
transition-IsStopped m to h = ground arith

attempts-IsStopped :
    (m : Machine) (tos : List State)
    → IsStopped m
    → ((attempts m tos).1 ≡ all_stop_errors tos)
      × ((attempts m tos).0.current ≡ m.current)
      × ((attempts m tos).0.initial ≡ m.initial)
      × IsStopped (attempts m tos).0
unfolding attempts
attempts-IsStopped m [] h = (refl, refl, refl, h)
attempts-IsStopped m (to ∷ tos) h =
    let step = transition-IsStopped m to h in
    let rest = attempts-IsStopped (transition m to).0 tos step.3 in
    (ground (arith, rest, step), rest.1 ∙ step.1, rest.2 ∙ step.2, rest.3)

-- After the first refused transition of a machine that stops on errors, every further attempt,
-- allowed or not, returns `StopError` and the state does not move; `Reset` brings it back to its
-- initial state with the stop condition cleared.
pub refused_stops :
    (m : Machine) (to : State) (tos : List State) {e : FsmError}
    → m.stoppable.stop_on_error ≡ true
    → (transition m to).1 ≡ some e
    → let n = (transition m to).0 in
      let (n', es) = attempts n tos in
      (es ≡ all_stop_errors tos)
      × (n'.current ≡ m.current)
      × ((reset n').current ≡ m.initial)
      × ((reset n').stoppable.stopped ≡ false)
unfolding reset
refused_stops m to tos s h =
    let refused = transition_refused m to h in
    let stays = attempts-IsStopped (transition m to).0 tos (refused.2 ∙ s, refused.1) in
    (stays.0, stays.1 ∙ refused.0, stays.2 ∙ refused.3, refl)
