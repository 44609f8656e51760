-- ===== src/Metric/Sampled.antt =====
-- pkg/metric/sampled.go: a series of which each value summarises the observations of one sample
-- window. Every method takes the lock for all it does, and so does the goroutine at a tick of its
-- ticker: a run is a sequence of these calls, in any order.
pub mod Counted
pub mod Windows
use monny.Base.{ℕ, Bool, true, false, List, [], ◌∷◌, ◌++◌, length, Result, ok, err, if◌then◌else◌}
use monny.Base.Int.{ℤ, pos, ltb_ℤ}
use monny.Base.Float.{Float}
use monny.Metric.Series
use monny.Metric.Series.{Series, SeriesOption, SeriesError, new_series, record_value}
use monny.Metric.Recorder.{Recorder}

-- The ticker, the channels and the lock are left out; `direct` is the mode without a ticker.
pub record SampledSeries {ℓ} (F : Type ℓ) : Type ℓ where
  pub series : Series F
  pub obs : List F
  pub transform : List F → F
  pub direct : Bool

module _ {ℓ} {F : Type ℓ} ⦃f : Float F⦄ where
  -- `NewSampledSeries(capacity, sampleWindow, transform, opts...)`. In direct mode the transform
  -- is nil and never called.
  unfoldable pub new_sampled_series :
      ℕ → ℤ → (List F → F) → List (SeriesOption F) → Result SeriesError (SampledSeries F)
  new_sampled_series capacity sample_window transform opts =
      elim (new_series f.nought capacity opts) [
        | err e ↦ err e
        | ok s ↦ ok (record {
          series = s;
          obs = [];
          transform = transform;
          direct = if ltb_ℤ (pos 0) sample_window then false else true;
        })
      ]

  -- `Record(obs)`
  unfoldable pub add_obs : F → SampledSeries F → SampledSeries F
  add_obs o s =
      if s.direct
      then record s { series = record_value o s.series }
      else record s { obs = s.obs ++ (o ∷ []) }

  -- what the goroutine does when the ticker fires
  unfoldable pub tick : SampledSeries F → SampledSeries F
  tick s = elim s.obs [
    | [] ↦ record s { series = record_value f.nought s.series }
    | x ∷ xs ↦ record s { series = record_value (s.transform (x ∷ xs)) s.series; obs = [] }
  ]

  unfoldable pub reset : SampledSeries F → SampledSeries F
  reset s = record s { series = Series.reset f.nought s.series; obs = [] }

  -- the loop of `SampleSum`
  unfoldable pub sum_from : F → List F → F
  sum_from sum [] = sum
  sum_from sum (o ∷ obs) = sum_from (f.add sum o) obs

  unfoldable pub sample_sum : List F → F
  unfolding sum_from
  sample_sum obs = sum_from f.nought obs

  unfoldable pub sample_average : List F → F
  unfolding sample_sum
  sample_average [] = f.nought
  sample_average (o ∷ obs) = f.div (sample_sum (o ∷ obs)) (f.of_int (length (o ∷ obs)))

  unfoldable pub min_from : F → List F → F
  min_from low [] = low
  min_from low (o ∷ obs) = min_from (f.min low o) obs

  unfoldable pub sample_min : List F → F
  unfolding min_from
  sample_min [] = f.nought
  sample_min (o ∷ obs) = min_from o (o ∷ obs)

  unfoldable pub max_from : F → List F → F
  max_from high [] = high
  max_from high (o ∷ obs) = max_from (f.max high o) obs

  unfoldable pub sample_max : List F → F
  unfolding max_from
  sample_max [] = f.nought
  sample_max (o ∷ obs) = max_from o (o ∷ obs)

instance abbrev pub sampled_recorder {ℓ} : {F : Type ℓ} ⦃f : Float F⦄ → Recorder F (SampledSeries F)
sampled_recorder = record {
  values = λ s. Series.values_of s.series;
  add_value = add_obs;
  count = λ s. s.series.count;
  capacity = λ s. Series.capacity s.series;
  reset = reset;
}
