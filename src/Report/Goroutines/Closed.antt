-- ===== src/Report/Goroutines/Closed.antt =====
-- When a result meets a closed channel (pkg/monny/report.go, Send and sendBackground).
use mathlib.Core.Path.{subst}
use monny.Base.{◌≡◌, ◌≢◌, refl, ap, Bool, true, false, List, [], ◌∷◌, ◌++◌, some, arith}
use monny.Report.Goroutines.{
  Background, ended, Sender, answered, closed, Transmission, handed_over, WaitGroup, Moves, begins,
  retried, delivers, cancelled, cancelled_closed, receives, times_out, closes, closes_late, World,
  Step, spawns, drops, hands_over, moves, panics, waits, exits, Reached, begin, then_step,
}

-- sendBackground has ended
abbrev pub has_ended : Background → Bool
has_ended ended = true
has_ended _ = false

-- Send has its result, or has closed its channels without a timeout.
abbrev pub is_answered : Sender → Bool
is_answered (answered success) = true
is_answered (closed false) = true
is_answered _ = false

-- A result in the channel, or one that was received, is of a sendBackground that has ended.
record IsSettled (t : Transmission) : Type 0 where
  by_answer : is_answered t.sender ≡ true → has_ended t.background ≡ true
  by_result : (success : Bool) → t.result ≡ some success → has_ended t.background ≡ true

Moves-IsSettled : {t t' : Transmission} {w : WaitGroup} → Moves t w t' → IsSettled t → IsSettled t'
Moves-IsSettled begins inv = record {
  by_answer = λ a. absurd (ground (arith, inv.by_answer a));
  by_result = λ s r. absurd (ground (arith, inv.by_result s r));
}
Moves-IsSettled (retried success) inv = record {
  by_answer = λ a. absurd (ground (arith, inv.by_answer a));
  by_result = λ s r. absurd (ground (arith, inv.by_result s r));
}
Moves-IsSettled (delivers open_yet) inv = record { by_answer = λ a. refl; by_result = λ s r. refl }
Moves-IsSettled cancelled inv = record { by_answer = λ a. refl; by_result = λ s r. refl }
Moves-IsSettled cancelled_closed inv = record { by_answer = λ a. refl; by_result = λ s r. refl }
Moves-IsSettled receives inv = record {
  by_answer = λ a. inv.by_result _ refl;
  by_result = λ s r. absurd (cc);
}
Moves-IsSettled times_out inv = record { by_answer = λ a. absurd (cc); by_result = inv.by_result }
Moves-IsSettled closes inv = record {
  by_answer = λ a. inv.by_answer refl;
  by_result = inv.by_result;
}
Moves-IsSettled closes_late inv = record { by_answer = λ a. absurd (cc); by_result = inv.by_result }

abbrev AllSettled : List Transmission → Type 0
AllSettled [] = Unit
AllSettled (t ∷ ts) = IsSettled t × AllSettled ts

AllSettled-append :
    (front back : List Transmission)
    → AllSettled front
    → AllSettled back
    → AllSettled (front ++ back)
AllSettled-append [] back h h' = h'
AllSettled-append (t ∷ front) back (i, h) h' = (i, AllSettled-append front back h h')

AllSettled-at :
    (front : List Transmission) (t : Transmission) (back : List Transmission)
    → AllSettled (front ++ t ∷ back)
    → IsSettled t
AllSettled-at [] t back (i, h) = i
AllSettled-at (s ∷ front) t back (i, h) = AllSettled-at front t back h

AllSettled-set :
    (front : List Transmission) (t t' : Transmission) (back : List Transmission)
    → IsSettled t'
    → AllSettled (front ++ t ∷ back)
    → AllSettled (front ++ t' ∷ back)
AllSettled-set [] t t' back i' (i, h) = (i', h)
AllSettled-set (s ∷ front) t t' back i' (i, h) = (i, AllSettled-set front t t' back i' h)

handed_over-IsSettled : IsSettled handed_over
handed_over-IsSettled = record { by_answer = λ a. absurd (cc); by_result = λ s r. absurd (cc) }

Reached-AllSettled : {w : World} → Reached w → AllSettled w.transmissions
Reached-AllSettled begin = tt
Reached-AllSettled (then_step run step) = go step (Reached-AllSettled run)
  where
    go : {v w : World} → Step v w → AllSettled v.transmissions → AllSettled w.transmissions
    go (spawns live) h = h
    go (drops live) h = h
    go (hands_over {ts} live) h =
        AllSettled-append ts (handed_over ∷ []) h (handed_over-IsSettled, tt)
    go (moves {t} {t'} front back live move) h =
        AllSettled-set front t t' back (Moves-IsSettled move (AllSettled-at front t back h)) h
    go (panics front t back live late) h = h
    go waits h = h
    go exits h = h

-- At every point of every run, a sendBackground that has not ended while the channels of its Send
-- are closed is one whose Send has reached its timeout: no result meets a closed channel, which
-- panics, where none has.
pub Reached-late :
    {w : World} (front : List Transmission) (t : Transmission) (back : List Transmission)
    → Reached w
    → w.transmissions ≡ front ++ t ∷ back
    → has_ended t.background ≡ false
    → t.sender ≢ closed false
Reached-late front t back run at alive e =
    let inv = AllSettled-at front t back (subst AllSettled at (Reached-AllSettled run)) in
    absurd (ground (arith, inv.by_answer (ap is_answered e)))
