-- ===== src/Stat/Machine.antt =====
-- pkg/stat/state.go: the states of a statistic and the machine that moves between them.
use monny.Base.{
  ◌≡◌, refl, [], ◌∷◌, Bool, true, false, Option, none, some, Result, ok, if◌then◌else◌,
}
use monny.Fsm.{
  State, Machine, FsmError, transition_not_allowed, new_machine, transitions_from, with_transitions,
  transition, append_target,
}

abbrev pub reset_state : State
reset_state = "reset"

abbrev pub ucl_initial : State
ucl_initial = "ucl_initial"

abbrev pub testing_ucl : State
testing_ucl = "testing_ucl"

abbrev pub ucl_trip : State
ucl_trip = "ucl_trip"

abbrev pub lcl_initial : State
lcl_initial = "lcl_initial"

abbrev pub testing_lcl : State
testing_lcl = "testing_lcl"

abbrev pub lcl_trip : State
lcl_trip = "lcl_trip"

-- `newMachine(initial)`
unfoldable pub new_stat_machine : State → Result FsmError Machine
new_stat_machine initial = new_machine initial (
    with_transitions (
      transitions_from reset_state (ucl_initial ∷ lcl_initial ∷ [])
      ∷ transitions_from ucl_initial (testing_ucl ∷ reset_state ∷ [])
      ∷ transitions_from testing_ucl (ucl_trip ∷ reset_state ∷ [])
      ∷ transitions_from ucl_trip (lcl_initial ∷ reset_state ∷ [])
      ∷ transitions_from lcl_initial (testing_lcl ∷ reset_state ∷ [])
      ∷ transitions_from testing_lcl (lcl_trip ∷ reset_state ∷ [])
      ∷ transitions_from lcl_trip (reset_state ∷ [])
      ∷ [])
    ∷ [])

-- The states as an enumeration.
pub data Phase : Type 0 where
  resetting collecting_ucl watching_ucl tripped_ucl collecting_lcl watching_lcl tripped_lcl : Phase

abbrev pub name_of : Phase → State
name_of resetting = reset_state
name_of collecting_ucl = ucl_initial
name_of watching_ucl = testing_ucl
name_of tripped_ucl = ucl_trip
name_of collecting_lcl = lcl_initial
name_of watching_lcl = testing_lcl
name_of tripped_lcl = lcl_trip

-- The diagram: every phase may be reset, and each of the two tests runs from collecting through
-- watching to the trip, the lower test only after the upper one has tripped or from a reset.
unfoldable pub is_edge : Phase → Phase → Bool
is_edge resetting collecting_ucl = true
is_edge resetting collecting_lcl = true
is_edge resetting _ = false
is_edge _ resetting = true
is_edge collecting_ucl watching_ucl = true
is_edge watching_ucl tripped_ucl = true
is_edge tripped_ucl collecting_lcl = true
is_edge collecting_lcl watching_lcl = true
is_edge watching_lcl tripped_lcl = true
is_edge _ _ = false

-- The machine of a statistic at a phase, stopped or not.
abbrev pub machine_at : Phase → Bool → Machine
machine_at p stopped = record {
  current = name_of p;
  initial = ucl_initial;
  allowable =
      (reset_state, ucl_initial ∷ lcl_initial ∷ [])
      ∷ (ucl_initial, testing_ucl ∷ reset_state ∷ [])
      ∷ (testing_ucl, ucl_trip ∷ reset_state ∷ [])
      ∷ (ucl_trip, lcl_initial ∷ reset_state ∷ [])
      ∷ (lcl_initial, testing_lcl ∷ reset_state ∷ [])
      ∷ (testing_lcl, lcl_trip ∷ reset_state ∷ [])
      ∷ (lcl_trip, reset_state ∷ [])
      ∷ [];
  stoppable = record { stop_on_error = false; stopped = stopped };
}

pub new_stat_machine_lem : new_stat_machine ucl_initial ≡ ok (machine_at collecting_ucl false)
unfolding new_stat_machine new_machine with_transitions transitions_from append_target
new_stat_machine_lem = refl

-- what a transition of the machine comes to
abbrev pub moved : Phase → Phase → Bool → Machine × Option FsmError
moved p q stopped =
    if is_edge p q
    then (machine_at q stopped, none)
    else (machine_at p true, some (transition_not_allowed (name_of p) (name_of q)))

-- The machine allows exactly the edges of the diagram.
pub transition-machine_at :
    (p q : Phase) (stopped : Bool)
    → transition (machine_at p stopped) (name_of q) ≡ moved p q stopped
unfolding transition is_edge
transition-machine_at resetting resetting b = refl
transition-machine_at resetting _ b = refl
transition-machine_at collecting_ucl resetting b = refl
transition-machine_at collecting_ucl _ b = refl
transition-machine_at watching_ucl resetting b = refl
transition-machine_at watching_ucl _ b = refl
transition-machine_at tripped_ucl resetting b = refl
transition-machine_at tripped_ucl _ b = refl
transition-machine_at collecting_lcl resetting b = refl
transition-machine_at collecting_lcl _ b = refl
transition-machine_at watching_lcl resetting b = refl
transition-machine_at watching_lcl _ b = refl
transition-machine_at tripped_lcl resetting b = refl
transition-machine_at tripped_lcl _ b = refl
