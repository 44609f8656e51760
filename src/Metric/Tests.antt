-- ===== src/Metric/Tests.antt =====
-- The theorems about series and counters (pkg/metric) at concrete series, counters and clocks.
use monny.Metric.Counter.Concurrent.{
  Shared, idle, loaded, Steps, lock_step, load_step, then_step, stop, remaining, begun, total_of,
  concurrent_adds,
}
use monny.Metric.Name.{Store, Name, Encoding, contents, new_name_from, set_key, text_of}
use monny.Metric.Name.Copies.{
  Change, annotations, metadata, make_all, changed, IsMade, new_name_from-changed,
}
use monny.Base.{
  true, ◌+◌, ◌-◌, ◌%◌, ◌^◌, ℕ, ◌≡◌, refl, arith, false, List, [], ◌∷◌, ok, some, returned,
}
use monny.Base.Int.{ℤ, pos, ◌-ℤ◌}
use monny.Base.Float.{whole}
use monny.Metric.Series.{Series, new_series, with_values, values_of, no_name, record_all}
use monny.Metric.Series.Reads.{values-new_series}
use monny.Metric.Sampled.{SampledSeries, sample_sum}
use monny.Metric.Sampled.Windows.{Call, observe, fire, run, summaries, run-summaries}
use monny.Metric.Counter.{Counter, new_history, value, history_inclusive, new_windowed_counter}
use monny.Metric.Counter.History.{OldestFirst, documented_history, new_history-eq-documented}
use monny.Metric.Counter.Totals.{
  Added, add_each, sum_amounts, total, history_inclusive-total, value-unwindowed,
}

abbrev observed : List ℕ
observed = 4 ∷ 5 ∷ 6 ∷ 7 ∷ 8 ∷ []

values-new_series_example :
    (s : Series ℕ) × (new_series 0 3 (with_values observed ∷ []) ≡ ok s)
    × (s.count ≡ 5)
    × (values_of s ≡ 6 ∷ 7 ∷ 8 ∷ [])
values-new_series_example = values-new_series 0 3 observed (omega arith) (omega arith) (omega arith)

abbrev used : Series ℕ
used = record { name = no_name; count = 5; values = 7 ∷ 8 ∷ 6 ∷ [] }

abbrev per_second : SampledSeries ℕ
per_second = record { series = used; obs = []; transform = sample_sum; direct = false }

abbrev calls : List (Call ℕ)
calls = observe 1 ∷ observe 2 ∷ fire ∷ fire ∷ observe 5 ∷ []

run-summaries_example :
    (run calls per_second).series ≡ record_all (summaries sample_sum [] calls) used
run-summaries_example = run-summaries calls per_second refl

abbrev counter_at : ℕ → Counter
counter_at n = record { start = pos n; duration = pos 10; value = n }

abbrev counters : List Counter
counters = counter_at 0 ∷ counter_at 10 ∷ counter_at 20 ∷ []

-- a clock that advances between the counters
abbrev advancing : ℕ → ℤ
advancing n = pos (30 - n)

oldest_first : OldestFirst advancing counters
unfolding ◌-ℤ◌
oldest_first = (omega arith, (omega arith, tt))

new_history-eq-documented_example :
    new_history advancing counters (pos 2) (pos 20)
    ≡ documented_history advancing counters (pos 2) (pos 20)
new_history-eq-documented_example =
    new_history-eq-documented advancing counters (pos 2) (pos 20) oldest_first

abbrev adds : List Added
adds =
    (record { now = pos 1; later = pos 2; clock = λ n. pos 2; amount = 3 })
    ∷ (record { now = pos 12; later = pos 13; clock = λ n. pos 13; amount = 4 })
    ∷ []

history_inclusive-total_example :
    total (history_inclusive (λ n. pos 20) (add_each adds (new_windowed_counter (pos 0) (pos 10))))
      % 2 ^ 64
    ≡ sum_amounts adds % 2 ^ 64
history_inclusive-total_example = history_inclusive-total (pos 0) (pos 10) adds (λ n. pos 20)

no_window_value :
    let c = add_each adds (new_windowed_counter (pos 0) (pos 0)) in
    (c.current.value % 2 ^ 64 ≡ sum_amounts adds % 2 ^ 64) × (value (pos 20) c ≡ pos 0)
no_window_value = value-unwindowed (pos 0) (pos 20) adds refl

-- an encoder that writes one text, and sorts that leave their lists alone
abbrev plain : Encoding
plain = record {
  sort_keys = λ keys. keys;
  sort_strings = λ texts. texts;
  encode = λ keys. some "host=pod";
  join = λ texts. "@mean";
}

abbrev one_map : Store
one_map = record { maps = λ a. ("host", "pod") ∷ []; next = 1 }

abbrev latency : Name
latency = record { name = "latency"; md = some 0 }

abbrev changes : List Change
changes = annotations ("mean" ∷ []) ∷ metadata (("host", "other") ∷ []) ∷ []

latency-IsMade : IsMade latency one_map
latency-IsMade a e = ground arith

new_name_from-changed_example :
    let (copy, st') = new_name_from latency one_map in
    (st'' : Store) × (make_all changes copy st' ≡ returned st'')
    × (contents copy.md st'' ≡ changed changes (contents latency.md one_map))
    × (text_of plain latency st'' ≡ text_of plain latency one_map)
new_name_from-changed_example = new_name_from-changed plain latency one_map changes latency-IsMade

both_changes : changed changes (contents latency.md one_map) ≡ ("host", "other") ∷ ("mean", "") ∷ []
unfolding changed set_key
both_changes = refl

-- two goroutines, of which the second has read the value
abbrev amounts : List (List ℕ)
amounts = (3 ∷ 4 ∷ []) ∷ (5 ∷ []) ∷ []

abbrev halfway : Shared
halfway = record { value = 10; mu = true; goroutines = idle (3 ∷ 4 ∷ []) ∷ loaded 10 5 [] ∷ [] }

goes_halfway : Steps (record { value = 10; mu = false; goroutines = begun amounts }) halfway
goes_halfway =
    then_step (lock_step (idle (3 ∷ 4 ∷ []) ∷ []) [] 5 [] 10)
      (then_step (load_step (idle (3 ∷ 4 ∷ []) ∷ []) [] 5 [] 10 true) stop)

concurrent_adds_example :
    (halfway.value + remaining halfway.goroutines) % 2 ^ 64 ≡ (10 + total_of amounts) % 2 ^ 64
concurrent_adds_example = concurrent_adds 10 amounts goes_halfway
