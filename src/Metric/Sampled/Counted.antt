-- ===== src/Metric/Sampled/Counted.antt =====
-- A sampled series as a recorder of a statistic (pkg/metric/sampled.go): neither an observation nor
-- a tick counts more than one value.
use monny.Base.{◌≡◌, ◌+◌, ◌≤◌, arith, length}
use monny.Base.Float.{Float}
use monny.Metric.Recorder.{
  IsCounting, IsTicking, count-record_value, capacity-record_value, count-reset, capacity-reset,
}
use monny.Metric.Sampled.{SampledSeries, add_obs, tick, reset, sampled_recorder}

module _ {ℓ} {F : Type ℓ} ⦃f : Float F⦄ where
  count-add_obs : (x : F) (s : SampledSeries F) → (add_obs x s).series.count ≤ s.series.count + 1
  unfolding add_obs
  count-add_obs x s = ground (arith, count-record_value x s.series)

  capacity-add_obs :
      (x : F) (s : SampledSeries F) → length (add_obs x s).series.values ≡ length s.series.values
  unfolding add_obs
  capacity-add_obs x s = ground (arith, capacity-record_value x s.series)

  pub sampled-IsCounting : IsCounting {F = F} {S = SampledSeries F} sampled_recorder
  unfolding reset
  sampled-IsCounting = record {
    count-add_value = count-add_obs;
    capacity-add_value = capacity-add_obs;
    count-reset = λ s. count-reset s.series;
    capacity-reset = λ s. capacity-reset s.series;
  }

  count-tick : (s : SampledSeries F) → (tick s).series.count ≤ s.series.count + 1
  unfolding tick
  count-tick s =
      ground (
        arith,
        count-record_value f.nought s.series,
        count-record_value (s.transform s.obs) s.series,
      )

  capacity-tick : (s : SampledSeries F) → length (tick s).series.values ≡ length s.series.values
  unfolding tick
  capacity-tick s = ground (
    arith,
    capacity-record_value f.nought s.series,
    capacity-record_value (s.transform s.obs) s.series,
  )

  pub tick-IsTicking : IsTicking {F = F} {S = SampledSeries F} sampled_recorder tick
  tick-IsTicking = record { count-tick = count-tick; capacity-tick = capacity-tick }
