-- ===== src/Metric/Counter/Totals.antt =====
-- What the counters count (pkg/metric/counter.go).
use monny.Base.{ℕ, ◌+◌, ◌%◌, ◌^◌, ◌≡◌, refl, ap, ap₂, ◌∙◌, true, false, List, [], ◌∷◌, ◌++◌, arith}
use monny.Base.Int.{ℤ, pos, ◌+ℤ◌, ltb_ℤ, int_laws}
use monny.Metric.Counter.{
  Clock, Counter, WindowedCounter, end_of, value, new_history, add_windowed, history_inclusive,
  new_windowed_counter,
}

abbrev pub total : List Counter → ℕ
total [] = 0
total (c ∷ hist) = c.value + total hist

total-append : (xs ys : List Counter) → total (xs ++ ys) ≡ total xs + total ys
total-append [] ys = omega arith
total-append (x ∷ xs) ys = omega (arith, total-append xs ys)

-- One call of `Add`, with the readings of the clock that it makes.
pub record Added : Type 0 where
  pub now : ℤ
  pub later : ℤ
  pub clock : Clock
  pub amount : ℕ

unfoldable pub add_each : List Added → WindowedCounter → WindowedCounter
add_each [] c = c
add_each (a ∷ rest) c = add_each rest (add_windowed a.now a.later a.clock a.amount c)

abbrev pub sum_amounts : List Added → ℕ
sum_amounts [] = 0
sum_amounts (a ∷ rest) = a.amount + sum_amounts rest

abbrev IsUnlimited : WindowedCounter → Type 0
IsUnlimited c = (c.max_history ≡ pos 0) × (c.max_history_duration ≡ pos 0)

add_windowed-total :
    (a : Added) (c : WindowedCounter)
    → IsUnlimited c
    → let c' = add_windowed a.now a.later a.clock a.amount c in
      ((total c'.hist + c'.current.value) % 2 ^ 64
        ≡ (total c.hist + c.current.value + a.amount) % 2 ^ 64)
      × IsUnlimited c'
unfolding add_windowed new_history
add_windowed-total a c u = ground (arith, total-append c.hist (c.current ∷ []))

add_each-total :
    (adds : List Added) (c : WindowedCounter)
    → IsUnlimited c
    → ((total (add_each adds c).hist + (add_each adds c).current.value) % 2 ^ 64
        ≡ (total c.hist + c.current.value + sum_amounts adds) % 2 ^ 64)
      × IsUnlimited (add_each adds c)
unfolding add_each
add_each-total [] c u =
    let none_more : total c.hist + c.current.value ≡ total c.hist + c.current.value + 0 =
      omega arith in
    (ap (λ n. n % 2 ^ 64) none_more, u)
add_each-total (a ∷ adds) c u =
    let step = add_windowed-total a c u in
    let rest = add_each-total adds (add_windowed a.now a.later a.clock a.amount c) step.1 in
    (omega (arith, step.0, rest.0), rest.1)

total-history_inclusive :
    (clock : Clock) (c : WindowedCounter)
    → IsUnlimited c
    → total (history_inclusive clock c) ≡ total c.hist + c.current.value
unfolding history_inclusive new_history
total-history_inclusive clock c u = ground (arith, total-append c.hist (c.current ∷ []))

add_windowed-unwindowed :
    (a : Added) (c : WindowedCounter)
    → c.current.duration ≡ pos 0
    → let c' = add_windowed a.now a.later a.clock a.amount c in
      (c'.current.value % 2 ^ 64 ≡ (c.current.value + a.amount) % 2 ^ 64)
      × (c'.current.start ≡ c.current.start)
      × (c'.current.duration ≡ pos 0)
unfolding add_windowed
add_windowed-unwindowed a c d = ground arith

-- Without a limit on the history, nothing is lost or counted twice: whatever the windows and the
-- clock, the counters of the inclusive history of a new windowed counter add up to all that was
-- added, modulo 2^64, at which the counters wrap around.
pub history_inclusive-total :
    (start duration : ℤ) (adds : List Added) (clock : Clock)
    → total (history_inclusive clock (add_each adds (new_windowed_counter start duration))) % 2 ^ 64
      ≡ sum_amounts adds % 2 ^ 64
history_inclusive-total start duration adds clock =
    let c = new_windowed_counter start duration in
    let fresh : IsUnlimited c = unfold new_windowed_counter in (refl, refl) in
    let empty : total c.hist + c.current.value ≡ 0 = unfold new_windowed_counter in refl in
    let all = add_each-total adds c fresh in
    omega (arith, total-history_inclusive clock (add_each adds c) all.1, all.0, empty)

add_each-unwindowed :
    (adds : List Added) (c : WindowedCounter)
    → c.current.duration ≡ pos 0
    → let c' = add_each adds c in
      (c'.current.value % 2 ^ 64 ≡ (c.current.value + sum_amounts adds) % 2 ^ 64)
      × (c'.current.start ≡ c.current.start)
      × (c'.current.duration ≡ pos 0)
unfolding add_each
add_each-unwindowed [] c d = (omega arith, refl, d)
add_each-unwindowed (a ∷ adds) c d =
    let one = add_windowed-unwindowed a c d in
    let rest = add_each-unwindowed adds (add_windowed a.now a.later a.clock a.amount c) one.2 in
    (omega (arith, one.0, rest.0), rest.1 ∙ one.1, rest.2)

+ℤ-zero : (a : ℤ) → a +ℤ pos 0 ≡ a
+ℤ-zero a = omega int_laws

value-closed :
    (now : ℤ) (c : WindowedCounter)
    → ltb_ℤ (end_of c.current) now ≡ true
    → ltb_ℤ c.current.duration (pos 0) ≡ false
    → value now c ≡ pos 0
unfolding value
value-closed now c past nonneg = rw (past, nonneg)

-- A new windowed counter of duration zero adds everything to its one counter, which wraps around,
-- but `Value` returns zero at any reading of the clock behind the counter's start.
pub value-unwindowed :
    (start now : ℤ) (adds : List Added)
    → ltb_ℤ start now ≡ true
    → let c = add_each adds (new_windowed_counter start (pos 0)) in
      (c.current.value % 2 ^ 64 ≡ sum_amounts adds % 2 ^ 64) × (value now c ≡ pos 0)
unfolding new_windowed_counter
value-unwindowed start now adds h =
    let c = new_windowed_counter start (pos 0) in
    let c' = add_each adds c in
    let all = add_each-unwindowed adds c refl in
    let ends : end_of c'.current ≡ start = ap₂ ◌+ℤ◌ all.1 all.2 ∙ +ℤ-zero start in
    (
      omega (arith, all.0),
      value-closed now c' (ap (λ t. ltb_ℤ t now) ends ∙ h) (ap (λ d. ltb_ℤ d (pos 0)) all.2),
    )
