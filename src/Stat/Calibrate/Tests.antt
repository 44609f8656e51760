-- ===== src/Stat/Calibrate/Tests.antt =====
-- The calibration at small sizes, over whole numbers.
use monny.Base.{◌≡◌, refl, ℕ, ◌+◌, ◌≤◌, some, List, [], ◌∷◌, ok, arith, length}
use monny.Base.Float.{whole}
use monny.Fsm.{transition}
use monny.Metric.Series.{Series, record_value, next_index, index_of, float_of_int, values_of}
use monny.Metric.Recorder.{series_recorder}
use monny.Stat.Pdf.{Pdf, fixed, log_normal, mean_normal, variance_normal}
use monny.Stat.Statistic.{record_obs, dispatch, collect}
use monny.Stat.Suite.{record_test}
use monny.Stat.Calibrate.{Sizes, warm_up, calibrated_test, rate_of, measure}
use monny.Stat.Calibrate.FalseAlarms.{AllWarmUp, count_alarmed, fresh, measure-alarmed}

abbrev small : Sizes
small = record { loops = 2; run = 3; cap = 2 }

abbrev empty_series : Series ℕ
empty_series = record { name = record { name = ""; md = [] }; count = 0; values = 0 ∷ 0 ∷ [] }

abbrev with_k : Pdf ℕ
with_k = log_normal (fixed 3)

abbrev rngs : List (ℕ → ℕ)
rngs = (λ n. 8 + n) ∷ (λ n. 4) ∷ []

all_warm : AllWarmUp small (fresh with_k empty_series) rngs
unfolding warm_up record_test record_obs dispatch collect record_value next_index index_of
    float_of_int log_normal mean_normal values_of variance_normal transition
all_warm = ((_, refl), ((_, refl), tt))

measure-alarmed_example :
    (measure small rngs (calibrated_test with_k (ok empty_series))
      ≡ rate_of 2 (some (count_alarmed small (fresh with_k empty_series) rngs)))
    × (count_alarmed small (fresh with_k empty_series) rngs ≤ length rngs)
measure-alarmed_example = measure-alarmed small rngs with_k empty_series (omega arith) all_warm
