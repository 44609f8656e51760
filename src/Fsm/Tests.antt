-- ===== src/Fsm/Tests.antt =====
-- The theorems about machines (pkg/fsm) at concrete machines.
use monny.Base.{
  ◌≡◌, ◌≢◌, refl, arith, none, some, true, false, List, [], ◌∷◌, ℕ, returned, panic, ok, eq_iff,
}
use monny.Fsm.Defs.{
  Transition, Machine, transition_not_allowed, nonce_error, read_error, is_allowable, transition,
  transitions_from, with_transitions, new_machine, reset, flatten,
}
use monny.Fsm.Allowed.{
  configured, new_machine-is_allowable, Call, go_to, restart, run, Follows, run-reached,
}
use monny.Fsm.Stopping.{attempts, all_stop_errors, refused_stops}
use monny.Fsm.Nonce.{MachineNonce, Draw, transition_nonce}
use monny.Fsm.Nonce.Replay.{replay_refused, refused_draw_panics}

abbrev door_transitions : List (List Transition)
door_transitions =
    transitions_from "open" ("closed" ∷ [])
    ∷ transitions_from "closed" ("open" ∷ "locked" ∷ [])
    ∷ []

abbrev door : Machine
door = record {
  current = "open";
  initial = "open";
  allowable = ("open", "closed" ∷ []) ∷ ("closed", "open" ∷ "locked" ∷ []) ∷ [];
  stoppable = record { stop_on_error = true; stopped = false };
}

abbrev door_calls : List Call
door_calls = go_to "closed" ∷ go_to "locked" ∷ go_to "open" ∷ restart ∷ []

declared_moves :
    (m : Machine) × (new_machine "open" (with_transitions door_transitions ∷ []) ≡ ok m)
    × (m.current ≡ "open")
    × (m.stoppable.stopped ≡ false)
    × (is_allowable m "closed" "locked" ≡ configured (flatten door_transitions) "closed" "locked")
declared_moves = new_machine-is_allowable "open" door_transitions "closed" "locked"

run-reached_example : Follows door (run door door_calls)
run-reached_example = run-reached door door_calls refl

door_refuses : (transition door "locked").1 ≡ some (transition_not_allowed "open" "locked")
unfolding transition
door_refuses = refl

refused_stops_example :
    let n = (transition door "locked").0 in
    let (n', es) = attempts n ("closed" ∷ "open" ∷ []) in
    (es ≡ all_stop_errors ("closed" ∷ "open" ∷ []))
    × (n'.current ≡ "open")
    × ((reset n').current ≡ "open")
    × ((reset n').stoppable.stopped ≡ false)
refused_stops_example = refused_stops door "locked" ("closed" ∷ "open" ∷ []) refl door_refuses

abbrev guarded_door : MachineNonce
guarded_door = record {
  machine = door;
  nonce = some (record { current = 1 ∷ 2 ∷ []; once = false; received = [] });
}

abbrev closed_door : MachineNonce
closed_door = record {
  machine = record door { current = "closed" };
  nonce = some (record { current = 3 ∷ 4 ∷ []; once = false; received = [] });
}

closes :
    transition_nonce guarded_door "closed" (1 ∷ 2 ∷ []) (some (3 ∷ 4 ∷ []))
    ≡ returned (closed_door, none)
unfolding transition_nonce
closes = refl

moved : closed_door.machine.current ≢ guarded_door.machine.current
moved = ground (arith, eq_iff "closed" "open")

abbrev fresh : Draw
fresh = some (3 ∷ 4 ∷ [])

abbrev used : List ℕ
used = 1 ∷ 2 ∷ []

other : fresh ≢ some used
other = ground arith

not_read : transition_not_allowed "open" "locked" ≢ read_error
not_read = ground arith

allowed : is_allowable door "open" "closed" ≡ true
unfolding is_allowable
allowed = refl

replays :
    transition_nonce closed_door "open" (1 ∷ 2 ∷ []) (some (5 ∷ 6 ∷ []))
    ≡ returned (
      record {
        machine = record (closed_door.machine) {
          stoppable = record { stop_on_error = true; stopped = true };
        };
        nonce = some (record { current = 5 ∷ 6 ∷ []; once = false; received = [] });
      },
      some nonce_error,
    )
unfolding transition_nonce
replays = refl

replay_refused_example :
    (some nonce_error ≢ none) × (closed_door.machine.current ≡ closed_door.machine.current)
replay_refused_example =
    replay_refused guarded_door "closed" "open" (1 ∷ 2 ∷ []) (some (3 ∷ 4 ∷ [])) (some (5 ∷ 6 ∷ []))
      other closes replays

abbrev broken_door : MachineNonce
broken_door = record {
  machine = record door { stoppable = record { stop_on_error = true; stopped = true } };
  nonce = none;
}

breaks :
    transition_nonce guarded_door "locked" (1 ∷ 2 ∷ []) none
    ≡ returned (broken_door, some (transition_not_allowed "open" "locked"))
unfolding transition_nonce
breaks = refl

draw_refused : transition_nonce broken_door "closed" (1 ∷ 2 ∷ []) (some (7 ∷ [])) ≡ panic
draw_refused =
    refused_draw_panics guarded_door "locked" "closed" (1 ∷ 2 ∷ []) (1 ∷ 2 ∷ []) (some (7 ∷ []))
      breaks not_read
