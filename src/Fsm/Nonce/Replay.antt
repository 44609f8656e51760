-- ===== src/Fsm/Nonce/Replay.antt =====
-- What the nonce protects: no transition without the current nonce, and none with a used one.
use monny.Base.{
  ℕ, ◌≡◌, ◌≢◌, ◌↔◌, refl, inl, inr, Option-cases, Option, none, some, Bool, true, false, ◌&&◌, List,
  [], ◌∷◌, returned, panic, arith, if◌then◌else◌,
}
use monny.Fsm.Defs.{State, FsmError, read_error, Machine, is_allowable}
use monny.Fsm.Nonce.{
  Nonce, MachineNonce, Draw, bytes_equal, new_nonce, transition_with, transition_nonce,
}

bytes_equal_iff : (xs ys : List ℕ) → (bytes_equal xs ys ≡ true) ↔ (xs ≡ ys)
unfolding bytes_equal
bytes_equal_iff [] [] = ground arith
bytes_equal_iff [] (y ∷ ys) = ground arith
bytes_equal_iff (x ∷ xs) [] = ground arith
bytes_equal_iff (x ∷ xs) (y ∷ ys) = ground (arith, bytes_equal_iff xs ys)

-- The state of the machine changes only for the bytes of a nonce that was not checked before.
pub moves_only_with_nonce :
    (m : MachineNonce) (to : State) (received : List ℕ) (draw : Draw) {m' : MachineNonce}
    {e : Option FsmError} {n : Nonce}
    → m.nonce ≡ some n
    → transition_nonce m to received draw ≡ returned (m', e)
    → m'.machine.current ≢ m.machine.current
    → (received ≡ n.current)
      × (n.once ≡ false)
      × (is_allowable m.machine m.machine.current to ≡ true)
unfolding transition_nonce
moves_only_with_nonce m to received draw {m'} {e} {n} have call moved =
    ground (arith, bytes_equal_iff n.current received)

-- Whether the nonce that a machine holds, if any, would accept `bytes`.
abbrev accepts : List ℕ → Option Nonce → Bool
accepts bytes none = false
accepts bytes (some n) = if n.once then false else bytes_equal n.current bytes

draw-accepts :
    (draw : Draw) (bytes : List ℕ) → draw ≢ some bytes → accepts bytes (new_nonce draw) ≡ false
unfolding new_nonce
draw-accepts none bytes other = refl
draw-accepts (some drawn) bytes other = ground (arith, bytes_equal_iff drawn bytes)

transition_with-accepts :
    (m : Machine) (to : State) (n : Nonce) (draw : Draw)
    → accepts n.received (new_nonce draw) ≡ false
    → accepts n.received (transition_with m to n draw).0.nonce ≡ false
unfolding transition_with
transition_with-accepts m to n draw other = ground arith

transition_with-rejected :
    (m : Machine) (to : State) (n : Nonce) (draw : Draw)
    → accepts n.received (some n) ≡ false
    → ((transition_with m to n draw).1 ≢ none)
      × ((transition_with m to n draw).0.machine.current ≡ m.current)
unfolding transition_with
transition_with-rejected m to n draw rejects = ground arith

-- Bytes that were used once are refused the next time: unless the first call drew the same bytes
-- again, a second transition with them returns an error and leaves the state alone. That holds
-- for every outcome of the first call and of both draws; a call that panics returns nothing.
pub replay_refused :
    (m : MachineNonce) (to to' : State) (received : List ℕ) (draw draw' : Draw)
    {m' m'' : MachineNonce} {e e' : Option FsmError}
    → draw ≢ some received
    → transition_nonce m to received draw ≡ returned (m', e)
    → transition_nonce m' to' received draw' ≡ returned (m'', e')
    → (e' ≢ none) × (m''.machine.current ≡ m'.machine.current)
unfolding transition_nonce
replay_refused m to to' received draw draw' {m'} other first second = elim (Option-cases m.nonce) [
  | inl nil ↦ ground arith
  | inr (n, have) ↦ elim (Option-cases m'.nonce) [
    | inl nil ↦ ground arith
    | inr (n', have') ↦ ground (
      arith,
      draw-accepts draw received other,
      transition_with-accepts m.machine to (record n { received = received }) draw,
      transition_with-rejected m'.machine to' (record n' { received = received }) draw',
    )
  ]
]

-- what a failed draw makes of the next nonce
abbrev draw_error : Draw → Option FsmError
draw_error none = some read_error
draw_error (some drawn) = none

-- With the bytes of a fresh nonce and an allowed transition of a machine that is not stopped, the
-- state moves whether or not the next nonce can be drawn; the error is nil if it is
-- drawn, and otherwise the draw's, although the state has moved.
pub accepted_moves :
    (m : MachineNonce) (to : State) (draw : Draw) {n : Nonce}
    → m.nonce ≡ some n
    → n.once ≡ false
    → (m.machine.stoppable.stop_on_error && m.machine.stoppable.stopped) ≡ false
    → is_allowable m.machine m.machine.current to ≡ true
    → (m' : MachineNonce) × (e : Option FsmError) × (transition_nonce m to n.current draw
        ≡ returned (m', e))
      × (m'.machine.current ≡ to)
      × (e ≡ draw_error draw)
unfolding transition_nonce
accepted_moves m to draw {n} have fresh running allowed =
    let n' : Nonce = record n { received = n.current } in
    let out = transition_with m.machine to n' draw in
    let same = (bytes_equal_iff n.current n.current).1 refl in
    (out.0, out.1, ground arith, ground arith, ground arith)

-- A transition that is refused, by the stop condition, the nonce or the graph, and whose draw
-- fails leaves a nil nonce: whatever is passed to the next transition, it panics.
pub refused_draw_panics :
    (m : MachineNonce) (to to' : State) (received received' : List ℕ) (draw : Draw)
    {m' : MachineNonce} {e : FsmError}
    → transition_nonce m to received none ≡ returned (m', some e)
    → e ≢ read_error
    → transition_nonce m' to' received' draw ≡ panic
unfolding transition_nonce
refused_draw_panics m to to' received received' draw {m'} {e} refused other = ground arith
