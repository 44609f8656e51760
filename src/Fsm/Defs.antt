-- ===== src/Fsm/Defs.antt =====
-- pkg/fsm/fsm.go, options.go, transition.go and errors.go. A method that mutates `*Machine`
-- returns the new machine beside its `error`, which is `none` for nil.
use monny.Base.{
  String, Option, none, some, Bool, true, false, ◌&&◌, List, [], ◌∷◌, ◌++◌, str_eq, Result, ok, err,
  if◌then◌else◌,
}

-- `type State string`
abbrev pub State : Type 0
State = String

pub record Transition : Type 0 where
  pub from : State
  pub to : State

-- The error types of errors.go. The message of a refused transition is formatted from the two
-- states that are kept here.
pub data FsmError : Type 0 where
  transition_not_allowed : State → State → FsmError
  stop_error : FsmError
  nonce_error : FsmError
  read_error : FsmError

-- `map[State][]State`. A missing key reads as the nil slice.
abbrev pub Allowable : Type 0
Allowable = List (State × List State)

unfoldable pub targets : Allowable → State → List State
targets [] s = []
targets ((k, tos) ∷ m) s = if str_eq k s then tos else targets m s

-- `m[from] = append(m[from], to)`
unfoldable pub append_target : Allowable → State → State → Allowable
append_target [] from to = (from, to ∷ []) ∷ []
append_target ((k, tos) ∷ m) from to =
    if str_eq k from then (k, tos ++ (to ∷ [])) ∷ m else (k, tos) ∷ append_target m from to

pub record Stoppable : Type 0 where
  pub stop_on_error : Bool
  pub stopped : Bool

pub record Machine : Type 0 where
  pub current : State
  pub initial : State
  pub allowable : Allowable
  pub stoppable : Stoppable

-- `func (s stoppable) ok() error`
unfoldable pub stoppable_ok : Stoppable → Option FsmError
stoppable_ok s = if s.stop_on_error && s.stopped then some stop_error else none

-- `T(from, tos...)`
unfoldable pub transitions_from : State → List State → List Transition
transitions_from from [] = []
transitions_from from (to ∷ tos) = (record { from = from; to = to }) ∷ transitions_from from tos

unfoldable pub flatten : List (List Transition) → List Transition
flatten [] = []
flatten (t ∷ ts) = t ++ flatten ts

abbrev pub MachineOption : Type 0
MachineOption = Machine → Machine × Option FsmError

abbrev pub add_transition : Transition → Machine → Machine
add_transition t m = record m { allowable = append_target m.allowable t.from t.to }

unfoldable pub with_transition : Transition → MachineOption
with_transition t m = (add_transition t m, none)

-- the `range` loop of `WithTransitions`
unfoldable pub add_all : List Transition → Machine → Machine
add_all [] m = m
add_all (t ∷ ts) m = add_all ts (add_transition t m)

unfoldable pub with_transitions : List (List Transition) → MachineOption
unfolding flatten add_all
with_transitions tss m = (add_all (flatten tss) m, none)

unfoldable pub with_stoppable : MachineOption
with_stoppable m =
    (record m { stoppable = record { stop_on_error = true; stopped = m.stoppable.stopped } }, none)

-- the loop over the options: the first error ends the construction
unfoldable pub apply_options : List MachineOption → Machine → Result FsmError Machine
apply_options [] m = ok m
apply_options (opt ∷ opts) m =
    let (m', e) = opt m in elim e [ none ↦ apply_options opts m' | some x ↦ err x ]

unfoldable pub new_machine : State → List MachineOption → Result FsmError Machine
unfolding apply_options
new_machine initial opts = apply_options opts (record {
  current = initial;
  initial = initial;
  allowable = [];
  stoppable = record { stop_on_error = false; stopped = false };
})

unfoldable pub contains : State → List State → Bool
contains s [] = false
contains s (a ∷ all) = if str_eq s a then true else contains s all

-- `Allowable(from, to)`
unfoldable pub is_allowable : Machine → State → State → Bool
unfolding contains targets
is_allowable m from to = contains to (targets m.allowable from)

-- The interface `transitionGuard`: a call of `ok()` on objects that it may change. `G` is what
-- those objects hold; nothing for the copy of a stop condition.
abbrev pub Guard {ℓ} : Type ℓ → Type ℓ
Guard G = G → G × Option FsmError

-- the loop over the guards of `transition`: the first that objects ends it
unfoldable pub check_guards {ℓ} : {G : Type ℓ} → List (Guard G) → G → G × Option FsmError
check_guards [] g = (g, none)
check_guards (guard ∷ guards) g =
    let (g', e) = guard g in elim e [ none ↦ check_guards guards g' | some x ↦ (g', some x) ]

abbrev pub set_stopped : Bool → Machine → Machine
set_stopped b m = record m {
  stoppable = record { stop_on_error = m.stoppable.stop_on_error; stopped = b };
}

-- the `switch` below the guards of `transition`
unfoldable pub switch_state : Machine → State → Machine × Option FsmError
unfolding is_allowable
switch_state m to =
    if is_allowable m m.current to
    then (record m { current = to }, none)
    else (set_stopped true m, some (transition_not_allowed m.current to))

-- `func (m *Machine) transition(to State, guards ...transitionGuard) error`
unfoldable pub guarded_transition {ℓ} :
    {G : Type ℓ} → Machine → State → List (Guard G) → G → Machine × G × Option FsmError
unfolding check_guards switch_state
guarded_transition m to guards g =
    let (g', e) = check_guards guards g in
    elim e [
      | none ↦ let (m', e') = switch_state m to in (m', g', e')
      | some x ↦ (set_stopped true m, g', some x)
    ]

-- the argument `m.stoppable`, passed by value
abbrev pub stop_guard {ℓ} : {G : Type ℓ} → Stoppable → Guard G
stop_guard s g = (g, stoppable_ok s)

-- `Transition(to)`
unfoldable pub transition : Machine → State → Machine × Option FsmError
unfolding guarded_transition stoppable_ok
transition m to =
    let (m', _, e) = guarded_transition m to (stop_guard m.stoppable ∷ []) (tt {0}) in (m', e)

-- `Reset()` and `reset()`; the latter's error is always nil
unfoldable pub reset : Machine → Machine
reset m = record (set_stopped false m) { current = m.initial }
