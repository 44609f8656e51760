-- ===== src/Metric/Sampled/Windows.antt =====
-- What a sampled series records: one summary for each window that a tick has closed
-- (pkg/metric/sampled.go).
use monny.Base.{◌≡◌, refl, ap, ◌∙◌, false, List, [], ◌∷◌, ◌++◌, arith}
use monny.Base.Float.{Float}
use monny.Metric.Series.{record_value, record_all}
use monny.Metric.Sampled.{SampledSeries, add_obs, tick}

-- The calls that change a sampled series while it runs.
pub data Call {ℓ} (F : Type ℓ) : Type ℓ where
  observe : F → Call F
  fire : Call F

module _ {ℓ} {F : Type ℓ} ⦃f : Float F⦄ where
  unfoldable pub run : List (Call F) → SampledSeries F → SampledSeries F
  run [] s = s
  run (observe o ∷ cs) s = run cs (add_obs o s)
  run (fire ∷ cs) s = run cs (tick s)

  -- What one closed window is worth: zero if it saw nothing.
  pub summary : (List F → F) → List F → F
  summary transform [] = f.nought
  summary transform (o ∷ obs) = transform (o ∷ obs)

  -- The summaries of the windows that the calls close, the first of which holds `open_obs` already.
  pub summaries : (List F → F) → List F → List (Call F) → List F
  summaries transform open_obs [] = []
  summaries transform open_obs (observe o ∷ cs) = summaries transform (open_obs ++ (o ∷ [])) cs
  summaries transform open_obs (fire ∷ cs) = summary transform open_obs ∷ summaries transform [] cs

  tick_lem :
      (s : SampledSeries F)
      → tick s ≡ record s { series = record_value (summary s.transform s.obs) s.series; obs = [] }
  unfolding tick summary
  tick_lem s = ground arith

  add_obs_lem :
      (o : F) (s : SampledSeries F)
      → s.direct ≡ false
      → add_obs o s ≡ record s { obs = s.obs ++ (o ∷ []) }
  unfolding add_obs
  add_obs_lem o s d = ground arith

  -- With a ticker, however observations and ticks interleave, the series underneath is the plain
  -- series that recorded the summary of each closed window in order.
  pub run-summaries :
      (cs : List (Call F)) (s : SampledSeries F)
      → s.direct ≡ false
      → (run cs s).series ≡ record_all (summaries s.transform s.obs cs) s.series
  unfolding run summaries record_all
  run-summaries [] s d = refl
  run-summaries (observe o ∷ cs) s d =
      ap (λ t. (run cs t).series) (add_obs_lem o s d)
      ∙ run-summaries cs (record s { obs = s.obs ++ (o ∷ []) }) d
  run-summaries (fire ∷ cs) s d =
      let w = record_value (summary s.transform s.obs) s.series in
      ap (λ t. (run cs t).series) (tick_lem s)
      ∙ run-summaries cs (record s { series = w; obs = [] }) d
