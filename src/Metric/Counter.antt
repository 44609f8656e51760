-- ===== src/Metric/Counter.antt =====
-- pkg/metric/counter.go: a counter, and a counter of which each value counts one window of time.
-- Times and durations are whole nanoseconds; the clock is an argument of each call that reads it.
pub mod History
pub mod Totals
pub mod Concurrent
use monny.Base.{
  ℕ, ◌+◌, ◌-◌, ◌%◌, ◌^◌, ◌==◌, Bool, true, false, ◌&&◌, ◌||◌, not, List, [], ◌∷◌, ◌++◌, drop,
  length, ltb, leb, Outcome, returned, panic, Option, none, some, if◌then◌else◌,
}
use monny.Base.Int.{ℤ, pos, negsuc, ◌+ℤ◌, ◌-ℤ◌, ltb_ℤ, pos_part, neg_part}

-- `value` is an `int` of 64 bits, kept by its bits in two's complement, as a number below 2^64.
pub record Counter : Type 0 where
  pub start : ℤ
  pub duration : ℤ
  pub value : ℕ

abbrev pub new_counter : Counter
new_counter = record { start = pos 0; duration = pos 0; value = 0 }

-- the `int` that has these bits
abbrev pub int_of : ℕ → ℤ
int_of bits = if ltb bits (2 ^ 63) then pos bits else negsuc (2 ^ 64 - 1 - bits)

-- `c.value += int(i)`: the conversion of a `uint` keeps its bits, and the sum wraps around
unfoldable pub add : ℕ → Counter → Counter
add i c = record c { value = (c.value + i) % 2 ^ 64 }

unfoldable pub reset : Counter → Counter
reset c = record c { value = 0 }

pub record WindowedCounter : Type 0 where
  pub hist : List Counter
  pub current : Counter
  pub max_history : ℤ
  pub max_history_duration : ℤ

-- `c.start.Add(c.duration)`
abbrev pub end_of : Counter → ℤ
end_of c = c.start +ℤ c.duration

abbrev pub is_zero : ℤ → Bool
is_zero d = pos_part d == 0 && neg_part d == 0

-- `Value()`
unfoldable pub value : ℤ → WindowedCounter → ℤ
value now c =
    if ltb_ℤ (end_of c.current) now && not (ltb_ℤ c.current.duration (pos 0))
    then pos 0
    else int_of c.current.value

-- Readings of the clock, numbered down: reading `n` is taken with `n` counters still to come.
abbrev pub Clock : Type 0
Clock = ℕ → ℤ

-- the loop of `newHistory`: a counter stays if it is not older than the duration, by a reading of
-- its own
unfoldable pub keep_recent : Clock → ℤ → List Counter → List Counter
keep_recent clock max_duration [] = []
keep_recent clock max_duration (h ∷ hist) =
    let rest = keep_recent clock max_duration hist in
    if ltb_ℤ max_duration (clock (length hist) -ℤ h.start) then rest else h ∷ rest

-- `hist[len(hist)-max:]` where the slice is longer than a positive `max`
unfoldable pub last_of : ℤ → List Counter → List Counter
last_of max hist =
    if ltb_ℤ (pos 0) max && ltb (pos_part max) (length hist)
    then drop (length hist - pos_part max) hist
    else hist

-- `newHistory(hist, max, maxduration)`
unfoldable pub new_history : Clock → List Counter → ℤ → ℤ → List Counter
new_history clock hist max max_duration =
    if is_zero max && is_zero max_duration
    then hist
    else (if ltb_ℤ (pos 0) max_duration
        then keep_recent clock max_duration (last_of max hist)
        else last_of max hist)

-- `Add(i)`. The clock is read again for the start of a new window.
unfoldable pub add_windowed : ℤ → ℤ → Clock → ℕ → WindowedCounter → WindowedCounter
unfolding add
add_windowed now later clock i c =
    if ltb_ℤ now (end_of c.current) || is_zero c.current.duration
    then record c { current = add i c.current }
    else record c {
      hist = new_history clock (c.hist ++ (c.current ∷ [])) c.max_history c.max_history_duration;
      current = add i (record { start = later; duration = c.current.duration; value = 0 });
    }

-- `History()`
unfoldable pub history : ℤ → Clock → WindowedCounter → List Counter
history now clock c =
    if ltb_ℤ (end_of c.current) now || is_zero c.current.duration
    then new_history clock (c.hist ++ (c.current ∷ [])) c.max_history c.max_history_duration
    else new_history clock c.hist c.max_history c.max_history_duration

-- `HistoryInclusive()`
unfoldable pub history_inclusive : Clock → WindowedCounter → List Counter
history_inclusive clock c =
    new_history clock (c.hist ++ (c.current ∷ [])) c.max_history c.max_history_duration

unfoldable pub reset_windowed : ℤ → WindowedCounter → WindowedCounter
reset_windowed now c = record c {
  hist = [];
  current = record { start = now; duration = c.current.duration; value = 0 };
}

unfoldable pub new_windowed_counter : ℤ → ℤ → WindowedCounter
new_windowed_counter now duration = record {
  hist = [];
  current = record { start = now; duration = duration; value = 0 };
  max_history = pos 0;
  max_history_duration = pos 0;
}
