-- ===== src/Metric/Recorder.antt =====
-- The interface `SeriesRecorder` of pkg/metric/series.go, and `Series` as an implementation.
use monny.Base.{ℕ, ◌+◌, ◌≤◌, ◌≡◌, refl, List, arith, length, length-set, length-map}
use monny.Base.Float.{Float}
use monny.Metric.Series
use monny.Metric.Series.{Series}

-- `S` is the state of a recorder, `F` the type of its observations. `Name` is left out: no code
-- of the program calls it through the interface.
pub record Recorder {ℓ κ} (F : Type ℓ) (S : Type κ) : Type (ℓ ⊔ κ) where
  pub values : S → List F
  pub add_value : F → S → S
  pub count : S → ℕ
  pub capacity : S → ℕ
  pub reset : S → S

instance abbrev pub series_recorder {ℓ} : {F : Type ℓ} ⦃f : Float F⦄ → Recorder F (Series F)
series_recorder ⦃f⦄ = record {
  values = Series.values_of;
  add_value = Series.record_value;
  count = λ s. s.count;
  capacity = Series.capacity;
  reset = Series.reset f.nought;
}

-- What a statistic relies on: a recorder never counts more than what it was given, and keeps its
-- capacity; after `Reset` it has counted nothing.
pub record IsCounting {ℓ κ} {F : Type ℓ} {S : Type κ} (r : Recorder F S) : Type (ℓ ⊔ κ) where
  pub count-add_value : (x : F) (s : S) → r.count (r.add_value x s) ≤ r.count s + 1
  pub capacity-add_value : (x : F) (s : S) → r.capacity (r.add_value x s) ≡ r.capacity s
  pub count-reset : (s : S) → r.count (r.reset s) ≡ 0
  pub capacity-reset : (s : S) → r.capacity (r.reset s) ≡ r.capacity s

-- What a goroutine beside the calls does to a recorder, such as the ticks of a sampled series: at
-- most one value is counted, and the capacity stays.
pub record IsTicking {ℓ κ} {F : Type ℓ} {S : Type κ} (r : Recorder F S) (tick : S → S)
    : Type (ℓ ⊔ κ) where
  pub count-tick : (s : S) → r.count (tick s) ≤ r.count s + 1
  pub capacity-tick : (s : S) → r.capacity (tick s) ≡ r.capacity s

module _ {ℓ} {F : Type ℓ} ⦃f : Float F⦄ where
  pub count-record_value : (x : F) (s : Series F) → (Series.record_value x s).count ≤ s.count + 1
  unfolding Series.record_value
  count-record_value x s = ground arith

  pub capacity-record_value :
      (x : F) (s : Series F) → length (Series.record_value x s).values ≡ length s.values
  unfolding Series.record_value
  capacity-record_value x s = ground (arith, length-set s.values (Series.next_index s) x)

  pub count-reset : (s : Series F) → (Series.reset f.nought s).count ≡ 0
  unfolding Series.reset
  count-reset s = refl

  pub capacity-reset : (s : Series F) → length (Series.reset f.nought s).values ≡ length s.values
  unfolding Series.reset
  capacity-reset s = length-map s.values (λ v. f.nought)

  -- `Series` is such a recorder.
  pub series-IsCounting : IsCounting {F = F} {S = Series F} series_recorder
  series-IsCounting = record {
    count-add_value = count-record_value;
    capacity-add_value = capacity-record_value;
    count-reset = count-reset;
    capacity-reset = capacity-reset;
  }
