-- ===== src/Fsm/Nonce.antt =====
-- pkg/fsm/nonce.go: a machine whose transitions are protected by a nonce. The bytes that
-- `rand.Read` yields are an argument of each call that draws, `none` where it fails.
pub mod Replay
use monny.Base.{
  ℕ, ◌==◌, Option, none, some, Bool, true, false, ◌&&◌, List, [], ◌∷◌, Outcome, returned, panic,
  Result, ok, err, if◌then◌else◌,
}
use monny.Fsm.Defs.{
  State, FsmError, nonce_error, read_error, Machine, MachineOption, new_machine, is_allowable,
  stoppable_ok, stop_guard, guarded_transition, reset,
}

-- `once` holds whether the nonce was checked before.
pub record Nonce : Type 0 where
  pub current : List ℕ
  pub once : Bool
  pub received : List ℕ

-- A nil pointer after a failed draw is `none`.
pub record MachineNonce : Type 0 where
  pub machine : Machine
  pub nonce : Option Nonce

-- what `rand.Read` fills in
abbrev pub Draw : Type 0
Draw = Option (List ℕ)

-- `bytes.Equal`
unfoldable pub bytes_equal : List ℕ → List ℕ → Bool
bytes_equal [] [] = true
bytes_equal (x ∷ xs) (y ∷ ys) = x == y && bytes_equal xs ys
bytes_equal _ _ = false

-- `func (n *nonce) ok() error`: the closure of `makeNonceCheck` runs the first time only, and
-- `res.match` is false otherwise
unfoldable pub nonce_ok : Nonce → Nonce × Option FsmError
unfolding bytes_equal
nonce_ok n =
    let matched = if n.once then false else bytes_equal n.current n.received in
    (record n { once = true }, if matched then none else some nonce_error)

-- `newNonce()`
unfoldable pub new_nonce : Draw → Option Nonce
new_nonce none = none
new_nonce (some bytes) = some (record { current = bytes; once = false; received = [] })

unfoldable pub new_machine_nonce : State → List MachineOption → Draw → Result FsmError MachineNonce
unfolding new_nonce
new_machine_nonce initial opts draw = elim (new_machine initial opts) [
  | err e ↦ err e
  | ok m ↦ elim (new_nonce draw) [
    | none ↦ err read_error
    | some n ↦ ok (record { machine = m; nonce = some n })
  ]
]

-- the part of `Transition` behind the assignment of `received`, which panics at a nil pointer
unfoldable pub transition_with : Machine → State → Nonce → Draw → MachineNonce × Option FsmError
unfolding guarded_transition stoppable_ok nonce_ok new_nonce
transition_with m to n draw =
    let (m', n', e) = guarded_transition m to (stop_guard m.stoppable ∷ nonce_ok ∷ []) n in
    elim e [
      | some x ↦ (record { machine = m'; nonce = new_nonce draw }, some x)
      | none ↦ elim (new_nonce draw) [
        | none ↦ (record { machine = m'; nonce = some n' }, some read_error)
        | some fresh ↦ (record { machine = m'; nonce = some fresh }, none)
      ]
    ]

-- `Transition(to, nonce)`
unfoldable pub transition_nonce :
    MachineNonce → State → List ℕ → Draw → Outcome (MachineNonce × Option FsmError)
unfolding transition_with
transition_nonce m to received draw = elim m.nonce [
  | none ↦ panic
  | some n ↦ returned (transition_with m.machine to (record n { received = received }) draw)
]

-- `Reset()` and `reset()`: on a failed draw the machine is reset and the old nonce stays
unfoldable pub reset_nonce : MachineNonce → Draw → MachineNonce × Option FsmError
unfolding new_nonce reset
reset_nonce m draw = elim (new_nonce draw) [
  | none ↦ (record m { machine = reset m.machine }, some read_error)
  | some n ↦ (record { machine = reset m.machine; nonce = some n }, none)
]

-- `State()` and `Nonce()`
abbrev pub state : MachineNonce → State
state m = m.machine.current

unfoldable pub current_nonce : MachineNonce → Outcome (List ℕ)
current_nonce m = elim m.nonce [ none ↦ panic | some n ↦ returned n.current ]
