-- ===== src/Report/Goroutines/Tests.antt =====
-- Runs of the goroutines of pkg/monny/report.go.
use monny.Base.{◌≡◌, ◌≢◌, ◌↔◌, refl, true, false, [], ◌∷◌, none}
use monny.Report.Goroutines.{
  Transmission, offering, closed, begins, retried, times_out, closes_late, running, in_wait, exited,
  panicked, World, spawns, hands_over, moves, panics, waits, Reached, begin, then_step,
}
use monny.Report.Goroutines.Counted.{count_in_progress, CanExit, Reached-exits, unsent_exit}
use monny.Report.Goroutines.Closed.{Reached-late}

-- a report whose Send gives up while the retries go on
abbrev late : Transmission
late = record { background = offering true; sender = closed true; result = none; cancel = true }

abbrev one_late : World
one_late = record { main = running; wg = 1; spawned = 0; transmissions = late ∷ [] }

gives_up : Reached one_late
gives_up =
    then_step
      (then_step
        (then_step
          (then_step (then_step (then_step begin (spawns refl)) (hands_over refl))
            (moves [] [] refl begins))
          (moves [] [] refl times_out))
        (moves [] [] refl closes_late))
      (moves [] [] refl (retried true))

-- its result meets the closed channel
late_panic : Reached (record one_late { main = panicked })
late_panic = then_step gives_up (panics [] late [] refl refl)

Reached-late_example : closed true ≢ closed false
Reached-late_example = Reached-late [] late [] gives_up refl refl

abbrev one_waited : World
one_waited = record one_late { main = in_wait }

waited : Reached one_waited
waited = then_step gives_up waits

Reached-exits_example : CanExit one_waited ↔ (count_in_progress (late ∷ []) ≡ 0)
Reached-exits_example = Reached-exits one_waited waited refl

two_unsent : (w : World) × Reached w × (w.main ≡ exited) × (w.spawned ≡ 2) × (w.transmissions ≡ [])
two_unsent = unsent_exit 2
