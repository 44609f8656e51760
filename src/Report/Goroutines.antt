-- ===== src/Report/Goroutines.antt =====
-- The goroutines of pkg/monny/report.go as steps in any order: those of Send, which wait for a
-- result or their timeout, those of sendBackground, which retry the transport, and the main one,
-- which ends the program when Wait returns. create makes a report for each call, so that the case
-- of no report in sendBackground is left out. The transport is outside: a retry ends in some way. A
-- command is assumed to have a reporter of errors, without which a failed report ends the program
-- before it comes to its next step.
pub mod Counted
pub mod Closed
mod Tests
use monny.Base.{
  ℕ, zero, suc, ◌-◌, ◌+◌, ◌≡◌, Bool, true, false, List, [], ◌∷◌, ◌++◌, Option, none, some,
}

-- Where a call of sendBackground is: not run yet, behind `wg.Add`, at the `select` with the result
-- of the retries, whether it is a success, or behind `wg.Done`.
pub data Background : Type 0 where
  queued sending : Background
  offering : Bool → Background
  ended : Background

-- Where the `select` of Send is: it waits, has received a result, has sent on `cancel` after its
-- timeout, or has closed both channels, behind its timeout or not.
pub data Sender : Type 0 where
  waiting : Sender
  answered : Bool → Sender
  giving_up : Sender
  closed : Bool → Sender

-- a report that was handed to sendBackground, with what its two channels hold
pub record Transmission : Type 0 where
  pub background : Background
  pub sender : Sender
  pub result : Option Bool
  pub cancel : Bool

abbrev pub handed_over : Transmission
handed_over = record { background = queued; sender = waiting; result = none; cancel = false }

abbrev pub is_open : Sender → Bool
is_open (closed late) = false
is_open _ = true

-- what a step does to the wait group
pub data WaitGroup : Type 0 where
  same add done : WaitGroup

abbrev pub counted : WaitGroup → ℕ → ℕ
counted same n = n
counted add n = suc n
counted done n = n - 1

pub data Moves : Transmission → WaitGroup → Transmission → Type 0 where
  -- `s.wg.Add(1)`
  begins :
      {s : Sender} {r : Option Bool} {c : Bool}
      → Moves
          (record { background = queued; sender = s; result = r; cancel = c })
          add
          (record { background = sending; sender = s; result = r; cancel = c })
  -- `backoff.Retry` returns
  retried :
      {s : Sender} {r : Option Bool} {c : Bool} (success : Bool)
      → Moves
          (record { background = sending; sender = s; result = r; cancel = c })
          same
          (record { background = offering success; sender = s; result = r; cancel = c })
  -- `case result <- ...`, into the buffer of the channel
  delivers :
      {s : Sender} {c success : Bool}
      → is_open s ≡ true
      → Moves
          (record { background = offering success; sender = s; result = none; cancel = c })
          done
          (record { background = ended; sender = s; result = some success; cancel = c })
  -- `case <-cancel`, by a value or because the channel is closed
  cancelled :
      {s : Sender} {r : Option Bool} {success : Bool}
      → Moves
          (record { background = offering success; sender = s; result = r; cancel = true })
          done
          (record { background = ended; sender = s; result = r; cancel = false })
  cancelled_closed :
      {r : Option Bool} {success late : Bool}
      → Moves
          (record {
            background = offering success;
            sender = closed late;
            result = r;
            cancel = false;
          })
          done
          (record { background = ended; sender = closed late; result = r; cancel = false })
  -- `case err := <-result`
  receives :
      {b : Background} {c success : Bool}
      → Moves
          (record { background = b; sender = waiting; result = some success; cancel = c })
          same
          (record { background = b; sender = answered success; result = none; cancel = c })
  -- `case <-timeout`, with `cancel <- true`
  times_out :
      {b : Background} {r : Option Bool}
      → Moves
          (record { background = b; sender = waiting; result = r; cancel = false })
          same
          (record { background = b; sender = giving_up; result = r; cancel = true })
  -- `closeChannels()`
  closes :
      {b : Background} {r : Option Bool} {c success : Bool}
      → Moves
          (record { background = b; sender = answered success; result = r; cancel = c })
          same
          (record { background = b; sender = closed false; result = r; cancel = c })
  closes_late :
      {b : Background} {r : Option Bool} {c : Bool}
      → Moves
          (record { background = b; sender = giving_up; result = r; cancel = c })
          same
          (record { background = b; sender = closed true; result = r; cancel = c })

abbrev pub is_late : Background → Sender → Bool
is_late (offering success) (closed late) = true
is_late _ _ = false

-- a transmission with a result for a channel that is closed
abbrev pub offers_closed : Transmission → Bool
offers_closed t = is_late t.background t.sender

-- where the main goroutine is: in Exec, in Wait, behind it, or the program has panicked
pub data Main : Type 0 where
  running in_wait exited panicked : Main

abbrev pub is_live : Main → Bool
is_live running = true
is_live in_wait = true
is_live _ = false

-- `spawned` counts the goroutines of Send that have not come to their `switch`.
pub record World : Type 0 where
  pub main : Main
  pub wg : ℕ
  pub spawned : ℕ
  pub transmissions : List Transmission

abbrev pub at_start : World
at_start = record { main = running; wg = 0; spawned = 0; transmissions = [] }

pub data Step : World → World → Type 0 where
  -- `go c.report.Send(...)`
  spawns :
      {m : Main} {n k : ℕ} {ts : List Transmission}
      → is_live m ≡ true
      → Step
          (record { main = m; wg = n; spawned = k; transmissions = ts })
          (record { main = m; wg = n; spawned = suc k; transmissions = ts })
  -- a report that the `switch` drops
  drops :
      {m : Main} {n k : ℕ} {ts : List Transmission}
      → is_live m ≡ true
      → Step
          (record { main = m; wg = n; spawned = suc k; transmissions = ts })
          (record { main = m; wg = n; spawned = k; transmissions = ts })
  -- `go r.sender.sendBackground(...)`
  hands_over :
      {m : Main} {n k : ℕ} {ts : List Transmission}
      → is_live m ≡ true
      → Step
          (record { main = m; wg = n; spawned = suc k; transmissions = ts })
          (record { main = m; wg = n; spawned = k; transmissions = ts ++ handed_over ∷ [] })
  moves :
      {m : Main} {n k : ℕ} {w : WaitGroup} {t t' : Transmission} (front back : List Transmission)
      → is_live m ≡ true
      → Moves t w t'
      → Step
          (record { main = m; wg = n; spawned = k; transmissions = front ++ t ∷ back })
          (record { main = m; wg = counted w n; spawned = k; transmissions = front ++ t' ∷ back })
  -- `result <- ...` on a channel that is closed
  panics :
      {m : Main} {n k : ℕ} (front : List Transmission) (t : Transmission) (back : List Transmission)
      → is_live m ≡ true
      → offers_closed t ≡ true
      → Step
          (record { main = m; wg = n; spawned = k; transmissions = front ++ t ∷ back })
          (record { main = panicked; wg = n; spawned = k; transmissions = front ++ t ∷ back })
  -- Exec returns, and main calls Wait
  waits :
      {n k : ℕ} {ts : List Transmission}
      → Step
          (record { main = running; wg = n; spawned = k; transmissions = ts })
          (record { main = in_wait; wg = n; spawned = k; transmissions = ts })
  -- `s.wg.Wait()` returns, and main calls os.Exit
  exits :
      {k : ℕ} {ts : List Transmission}
      → Step
          (record { main = in_wait; wg = 0; spawned = k; transmissions = ts })
          (record { main = exited; wg = 0; spawned = k; transmissions = ts })

-- the worlds that a run from the start comes to
pub data Reached : World → Type 0 where
  begin : Reached at_start
  then_step : {w w' : World} → Reached w → Step w w' → Reached w'
