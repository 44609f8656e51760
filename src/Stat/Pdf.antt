-- ===== src/Stat/Pdf.antt =====
-- pkg/stat/pdf.go, k.go and kconst_gen.go: the assumed distribution of the observations, with the
-- estimates that a control limit is computed from.
use monny.Base.{ℕ, Bool, ◌||◌, List, [], ◌∷◌, length, Result, ok, err, if◌then◌else◌}
use monny.Base.Int.{ℤ}
use monny.Base.Float.{Float}
use monny.Metric.Series.{Series, SeriesError, new_series}
use monny.Metric.Sampled.{SampledSeries, new_sampled_series}

-- `KErrorRate` and `KFixed`, the two implementations of the interface `K`
pub data K {ℓ} (F : Type ℓ) : Type ℓ where
  error_rate : F → K F
  fixed : F → K F

-- The error of `KErrorRate.calculate`. The value 6.5 that comes with it is never used.
pub data KError : Type 0 where
  no_k : KError

-- The interface `PDF`. `NewSeries` and `Done`, which create and tear down a series, are the
-- functions `new_series` and `new_sampled_series` and the end of a run; `String` only names it.
pub record Pdf {ℓ} (F : Type ℓ) : Type ℓ where
  pub mean : List F → F
  pub variance : List F → F → F
  pub transform : F → F
  pub k : Result KError F

module _ {ℓ} {F : Type ℓ} ⦃f : Float F⦄ where
  -- the generated constants
  abbrev log_normal_a : F
  log_normal_a = f.literal 17633792324895346 15

  abbrev log_normal_b : F
  log_normal_b = f.sub f.nought (f.literal 39288603662670885 16)

  abbrev poisson_a : F
  poisson_a = f.literal 1919575770635499 14

  abbrev poisson_b : F
  poisson_b = f.sub f.nought (f.literal 4069410457800821 15)

  -- what no observation or estimate may be
  abbrev pub is_undefined : F → Bool
  is_undefined x = f.is_nan x || f.is_inf x || f.is_neg_inf x

  unfoldable pub calculate_k : F → F → F → Result KError F
  calculate_k rate a b =
      let kest = f.div (f.sub (f.log rate) a) b in if is_undefined kest then err no_k else ok kest

  unfoldable pub calculate_ln : K F → Result KError F
  unfolding calculate_k
  calculate_ln (error_rate rate) = calculate_k rate log_normal_a log_normal_b
  calculate_ln (fixed k) = ok k

  unfoldable pub calculate_p : K F → Result KError F
  unfolding calculate_k
  calculate_p (error_rate rate) = calculate_k rate poisson_a poisson_b
  calculate_p (fixed k) = ok k

  unfoldable pub sum_values : F → List F → F
  sum_values s [] = s
  sum_values s (v ∷ values) = sum_values (f.add s v) values

  unfoldable pub mean_normal : List F → F
  unfolding sum_values
  mean_normal [] = f.nought
  mean_normal (v ∷ values) =
      f.div (sum_values f.nought (v ∷ values)) (f.of_int (length (v ∷ values)))

  unfoldable pub sum_squares : F → F → List F → F
  sum_squares mean s [] = s
  sum_squares mean s (v ∷ values) =
      sum_squares mean (f.add s (f.pow (f.sub v mean) (f.of_int 2))) values

  -- `float64(len(values)-1)`, which is -1 at no values
  unfoldable pub variance_normal : List F → F → F
  unfolding sum_squares
  variance_normal [] mean = f.div f.nought (f.sub f.nought f.one)
  variance_normal (v ∷ values) mean =
      f.div (sum_squares mean f.nought (v ∷ values)) (f.of_int (length values))

  unfoldable pub mean_poisson : List F → F
  unfolding mean_normal
  mean_poisson values = mean_normal values

  unfoldable pub variance_poisson : List F → F → F
  variance_poisson values mean = mean

  -- the methods of `LogNormal` and of `Poisson`
  unfoldable pub log_normal : K F → Pdf F
  log_normal k = record {
    mean = mean_normal;
    variance = variance_normal;
    transform = f.log;
    k = calculate_ln k;
  }

  unfoldable pub poisson : K F → Pdf F
  poisson k = record {
    mean = mean_poisson;
    variance = variance_poisson;
    transform = λ x. x;
    k = calculate_p k;
  }

  unfoldable pub log_normal_series : ℕ → Result SeriesError (Series F)
  log_normal_series capacity = new_series f.nought capacity []

  unfoldable pub poisson_series : ℕ → ℤ → (List F → F) → Result SeriesError (SampledSeries F)
  poisson_series capacity window strategy = new_sampled_series capacity window strategy []
