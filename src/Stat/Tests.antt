-- ===== src/Stat/Tests.antt =====
-- The theorems about statistics and tests (pkg/stat) at concrete statistics over whole numbers.
use monny.Base.{
  ℕ, ◌<◌, ◌+◌, ◌≡◌, refl, arith, true, false, ◌&&◌, not, none, some, List, [], ◌∷◌, length, ok,
}
use monny.Base.Float.{whole}
use monny.Metric.Series.{Series}
use monny.Metric.Recorder.{series_recorder}
use monny.Metric.Sampled.{SampledSeries, tick, sample_sum, sampled_recorder}
use monny.Metric.Sampled.Windows.{observe, fire, Call}
use monny.Metric.Sampled.Counted.{sampled-IsCounting, tick-IsTicking}
use monny.Fsm.{transition_not_allowed}
use monny.Stat.Machine.{
  Phase, resetting, collecting_ucl, watching_ucl, tripped_ucl, machine_at, ucl_initial, ucl_trip,
}
use monny.Stat.Pdf.{Pdf, fixed, log_normal, is_undefined}
use monny.Stat.Statistic
use monny.Stat.Statistic.{
  TestStatistic, StatError, transform_undefined, fsm, record_obs, new_ewma_statistic, upper,
}
use monny.Stat.Statistic.Alarm.{record_obs-error, alarm_iff_crosses, crosses}
use monny.Stat.Statistic.Latched.{record_each, alarm_latched}
use monny.Stat.Statistic.Bootstrap.{record_run, new_ewma_statistic-quiet}
use monny.Stat.Suite
use monny.Stat.Suite.{Test, record_subs}
use monny.Stat.Suite.Latch.{record_tests, has_alarmed-record_tests}

abbrev latencies : List ℕ → ℕ → Series ℕ
latencies values count = record {
  name = record { name = "latency"; md = [] };
  count = count;
  values = values;
}

abbrev with_k : Pdf ℕ
with_k = log_normal (fixed 3)

abbrev statistic_at : Phase → Series ℕ → TestStatistic ℕ (Series ℕ)
statistic_at p s = record {
  name = "shewart";
  lambda = 1;
  limit = 20;
  series = s;
  machine = machine_at p false;
  current = 10;
  pdf = with_k;
}

abbrev seen : Series ℕ
seen = latencies (8 ∷ 12 ∷ []) 2

record_obs-error_example :
    (record_obs 25 (statistic_at resetting seen)).1
    ≡ some (fsm (transition_not_allowed ucl_initial ucl_trip))
unfolding log_normal
record_obs-error_example = record_obs-error 25 resetting false (statistic_at resetting seen) refl

alarm_iff_crosses_example :
    Statistic.has_alarmed (record_obs 25 (statistic_at watching_ucl seen)).0 ≡ (
      not (is_undefined (with_k.transform 25))
      && crosses watching_ucl (with_k.transform 25) (statistic_at watching_ucl seen))
alarm_iff_crosses_example =
    alarm_iff_crosses 25 watching_ucl false (statistic_at watching_ucl seen) refl refl

alarm_latched_example :
    (Statistic.has_alarmed (record_each (1 ∷ 2 ∷ []) (statistic_at tripped_ucl seen)) ≡ true)
    × ((record_each (1 ∷ 2 ∷ []) (statistic_at tripped_ucl seen)).current ≡ 10)
    × ((record_each (1 ∷ 2 ∷ []) (statistic_at tripped_ucl seen)).limit ≡ 20)
alarm_latched_example =
    alarm_latched (1 ∷ 2 ∷ []) tripped_ucl false (statistic_at tripped_ucl seen) refl refl

-- no sample window has been closed, one holds an observation
abbrev unseen : SampledSeries ℕ
unseen = record {
  series = latencies (0 ∷ 0 ∷ 0 ∷ 0 ∷ []) 0;
  obs = 6 ∷ [];
  transform = sample_sum;
  direct = false;
}

abbrev early : List (Call ℕ)
early = observe 4 ∷ fire ∷ fire ∷ []

has_room : unseen.series.count + length early < length unseen.series.values
has_room = omega arith

new_ewma_statistic-quiet_example :
    (e : TestStatistic ℕ (SampledSeries ℕ)) × (new_ewma_statistic "ewma" 1 with_k unseen ≡ ok e)
    × ((record_run tick early e).machine ≡ machine_at collecting_ucl false)
    × (Statistic.has_alarmed (record_run tick early e) ≡ false)
new_ewma_statistic-quiet_example =
    new_ewma_statistic-quiet sampled-IsCounting tick tick-IsTicking "ewma" 1 with_k unseen early
      has_room

refuses :
    (record_obs 25 (statistic_at resetting seen)).1
    ≡ some (fsm (transition_not_allowed ucl_initial ucl_trip))
unfolding log_normal
refuses = record_obs-error 25 resetting false (statistic_at resetting seen) refl

accepts : (record_obs 25 (statistic_at watching_ucl seen)).1 ≡ none
accepts = record_obs-error 25 watching_ucl false (statistic_at watching_ucl seen) refl

abbrev alarmed_test : Test ℕ (Series ℕ)
alarmed_test = record {
  name = record { name = "latency"; md = [] };
  sub = statistic_at watching_ucl seen ∷ statistic_at tripped_ucl seen ∷ [];
}

has_alarm : Suite.has_alarmed alarmed_test ≡ true
unfolding Suite.has_alarmed Statistic.has_alarmed
has_alarm = refl

stays_alarmed : Suite.has_alarmed (record_tests (1 ∷ 2 ∷ []) alarmed_test) ≡ true
stays_alarmed =
    has_alarmed-record_tests (1 ∷ 2 ∷ []) alarmed_test
      ((watching_ucl, false, refl), ((tripped_ucl, false, refl), tt)) has_alarm
