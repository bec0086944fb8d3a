-- ===== src/Score/Series.antt =====
-- services/score/velocity.py and inauth.py: the dense series, and the range of the inauthenticity.
use pi_news_aggregator.Prelude.{
  ℕ, zero, suc, ◌+◌, ◌-◌, ◌≤◌, ◌<◌, ◌≡◌, inl, inr, true, leb, ltb, List, [], ◌∷◌, Dict, Bool-cases,
  arith, nat_eq,
}
use pi_news_aggregator.Floats.{Float, Ordered}
use pi_news_aggregator.Enrich.Governor.Clamps.{Within, clamp-Within}
use pi_news_aggregator.Enrich.Governor.{clamp}
use package.pi_news_aggregator.Score.{
  ScoreConfig, StorySignals, bucket_at, fill_loop, fill_series, clamp01, inauthenticity,
}

module _ (fl : Float) where
  -- One value for each time t, t + step, … up to `until`.
  pub data Filled (buckets : Dict ℕ fl.F) (until step : ℕ) : ℕ → List fl.F → Type 0 where
    past : {t : ℕ} → until < t → Filled buckets until step t []
    bucket :
        {t : ℕ} {rest : List fl.F}
        → t ≤ until
        → Filled buckets until step (t + step) rest
        → Filled buckets until step t (bucket_at fl buckets t ∷ rest)

  fill_loop-Filled :
      (fuel : ℕ) (buckets : Dict ℕ fl.F) (t until step : ℕ)
      → 1 ≤ step
      → suc until - t ≤ fuel
      → Filled buckets until step t (fill_loop fl fuel buckets t until step)
  unfolding fill_loop
  fill_loop-Filled zero buckets t until step h k = past (omega (arith, k))
  fill_loop-Filled (suc fuel) buckets t until step h k = elim (Bool-cases (leb t until)) [
    | inl b ↦ rw b (
        bucket (ground (arith, b))
          (fill_loop-Filled fuel buckets (t + step) until step h (omega (arith, h, k))))
    | inr b ↦ rw b (past (ground (arith, b)))
  ]

  -- With a step of at least one, the series has one value for each bucket from `since` up to
  -- `until`, in order: the bucket's count, or zero if there is none.
  pub fill_series-Filled :
      (buckets : Dict ℕ fl.F) (since until step : ℕ)
      → 1 ≤ step
      → Filled buckets until step since (fill_series fl buckets since until step)
  unfolding fill_series
  fill_series-Filled buckets since until step h =
      fill_loop-Filled (suc until - since) buckets since until step h (omega arith)

  clamp01-Within :
      (ord : Ordered fl) (x : fl.F)
      → fl.leb (fl.dec 0 0) (fl.dec 1 0) ≡ true
      → Within fl ord (fl.dec 0 0) (fl.dec 1 0) (clamp01 fl x)
  unfolding clamp01 clamp
  clamp01-Within ord x h = clamp-Within fl ord (fl.dec 0 0) (fl.dec 1 0) x h

  zero-Within :
      (ord : Ordered fl)
      → fl.leb (fl.dec 0 0) (fl.dec 1 0) ≡ true
      → Within fl ord (fl.dec 0 0) (fl.dec 1 0) (fl.dec 0 0)
  unfolding Within
  zero-Within ord h = (elim (ord.le_total (fl.dec 0 0) (fl.dec 0 0)) [ inl p ↦ p | inr p ↦ p ], h)

  -- The inauthenticity of a story is between 0 and 1, whatever its signals and the weights are.
  pub inauthenticity-Within :
      (ord : Ordered fl) (cfg : ScoreConfig fl.F) (sig : StorySignals)
      → fl.leb (fl.dec 0 0) (fl.dec 1 0) ≡ true
      → Within fl ord (fl.dec 0 0) (fl.dec 1 0) (inauthenticity fl cfg sig)
  unfolding inauthenticity
  inauthenticity-Within ord cfg sig h = elim (Bool-cases (ltb sig.social_items cfg.min_social)) [
    | inl t ↦ rw t (zero-Within ord h)
    | inr f ↦ rw f (clamp01-Within ord _ h)
  ]
