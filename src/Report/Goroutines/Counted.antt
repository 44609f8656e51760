-- ===== src/Report/Goroutines/Counted.antt =====
-- What the wait group counts (pkg/monny/report.go, sendBackground and Wait).
use mathlib.Core.Path.{subst}
use monny.Base.{ℕ, zero, suc, ◌+◌, ◌≡◌, ◌↔◌, refl, sym, ap, ap₂, ◌∙◌, List, [], ◌∷◌, ◌++◌, arith}
use monny.Report.Goroutines.{
  Background, sending, offering, Transmission, handed_over, WaitGroup, counted, Moves, begins,
  retried, delivers, cancelled, cancelled_closed, receives, times_out, closes, closes_late, in_wait,
  exited, World, at_start, Step, spawns, drops, hands_over, moves, panics, waits, exits, Reached,
  begin, then_step,
}

-- one for a transmission between `wg.Add` and `wg.Done`
abbrev pub in_progress : Background → ℕ
in_progress sending = 1
in_progress (offering success) = 1
in_progress _ = 0

abbrev pub count_in_progress : List Transmission → ℕ
count_in_progress [] = 0
count_in_progress (t ∷ ts) = in_progress t.background + count_in_progress ts

count_in_progress-append :
    (front back : List Transmission)
    → count_in_progress (front ++ back) ≡ count_in_progress front + count_in_progress back
count_in_progress-append [] back = omega arith
count_in_progress-append (t ∷ front) back = omega (arith, count_in_progress-append front back)

-- a move of one transmission, beside `others` that are in progress
Moves-counted :
    {t t' : Transmission} {w : WaitGroup} (others : ℕ)
    → Moves t w t'
    → counted w (in_progress t.background + others) ≡ in_progress t'.background + others
Moves-counted others begins = omega arith
Moves-counted others (retried success) = refl
Moves-counted others (delivers open_yet) = omega arith
Moves-counted others cancelled = omega arith
Moves-counted others cancelled_closed = omega arith
Moves-counted others receives = refl
Moves-counted others times_out = refl
Moves-counted others closes = refl
Moves-counted others closes_late = refl

Step-counted :
    {v w : World}
    → v.wg ≡ count_in_progress v.transmissions
    → Step v w
    → w.wg ≡ count_in_progress w.transmissions
Step-counted so_far (spawns live) = so_far
Step-counted so_far (drops live) = so_far
Step-counted so_far (hands_over {ts} live) =
    omega (arith, so_far, count_in_progress-append ts (handed_over ∷ []))
Step-counted {v} so_far (moves {w = op} {t} {t'} front back live move) =
    let others = count_in_progress front + count_in_progress back in
    let before : v.wg ≡ in_progress t.background + others =
      omega (arith, so_far, count_in_progress-append front (t ∷ back)) in
    ap (counted op) before
    ∙ (Moves-counted others move ∙ omega (arith, count_in_progress-append front (t' ∷ back)))
Step-counted so_far (panics front t back live late) = so_far
Step-counted so_far waits = so_far
Step-counted so_far exits = so_far

-- The wait group counts exactly the transmissions between the start of sendBackground and its
-- end, at every point of every run; none of the goroutines that have not come to it yet.
pub Reached-counted : {w : World} → Reached w → w.wg ≡ count_in_progress w.transmissions
Reached-counted begin = refl
Reached-counted (then_step run step) = Step-counted (Reached-counted run) step

-- The next step can be the end of Wait.
abbrev pub CanExit : World → Type 0
CanExit w = (w' : World) × Step w w' × (w'.main ≡ exited)

exit-idle : {w w' : World} → Step w w' → w'.main ≡ exited → w.main ≡ in_wait → w.wg ≡ 0
exit-idle exits e at = refl
exit-idle (spawns live) e at = absurd (cc)
exit-idle (drops live) e at = absurd (cc)
exit-idle (hands_over live) e at = absurd (cc)
exit-idle (moves front back live move) e at = absurd (cc)
exit-idle (panics front t back live late) e at = absurd (cc)
exit-idle waits e at = absurd (cc)

idle-exit : (w : World) → w.main ≡ in_wait → w.wg ≡ 0 → CanExit w
idle-exit w at idle =
    let idle_world : World = record w { main = in_wait; wg = 0 } in
    let same_world : idle_world ≡ w =
      ap₂ (λ m n. record w { main = m; wg = n }) (sym at) (sym idle) in
    subst CanExit same_world (record idle_world { main = exited }, exits, refl)

-- Where main is in Wait, the program can end at once exactly if no transmission is between the
-- start of sendBackground and its end: reports that were spawned or handed over, but not yet
-- begun, are not waited for.
pub Reached-exits :
    (w : World) → Reached w → w.main ≡ in_wait → CanExit w ↔ (count_in_progress w.transmissions ≡ 0)
Reached-exits w run at = (
  λ (w', step, e). sym (Reached-counted run) ∙ exit-idle step e at,
  λ idle. idle-exit w at (Reached-counted run ∙ idle),
)

spawned_only : (n : ℕ) → Reached (record at_start { spawned = n })
spawned_only zero = begin
spawned_only (suc n) = then_step (spawned_only n) (spawns refl)

-- Any number of reports can be lost: the program has a run in which it has started to send them,
-- and ends although none of them has been handed to the transport.
pub unsent_exit :
    (n : ℕ) → (w : World) × Reached w × (w.main ≡ exited) × (w.spawned ≡ n) × (w.transmissions ≡ [])
unsent_exit n = (
  record at_start { main = exited; spawned = n },
  then_step (then_step (spawned_only n) waits) exits,
  refl,
  refl,
  refl,
)
