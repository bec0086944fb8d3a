-- ===== src/Trust/States.antt =====
-- libs/trust/states.py, and the trust states of libs/schema/story.py. The corroboration weights are
-- tenths: 0, 7 and 10 for the source's 0.0, 0.7 and 1.0.
pub mod Promotion
use pi_news_aggregator.Prelude.{ℕ, Bool, true, false, ◌&&◌, leb, ltb, if◌then◌else◌, Text, codes}

pub data TrustState : Type 0 where
  rumor corroborated primary_backed : TrustState

-- TrustState.value
abbrev pub trust_value : TrustState → Text
trust_value rumor = codes "rumor"
trust_value corroborated = codes "corroborated"
trust_value primary_backed = codes "primary_backed"

unfoldable pub corroboration_weight : TrustState → ℕ
corroboration_weight rumor = 0
corroboration_weight corroborated = 7
corroboration_weight primary_backed = 10

abbrev pub default_n_corroboration : ℕ
default_n_corroboration = 3

abbrev pub min_corroboration_sources : ℕ
min_corroboration_sources = 2

-- _RANK
abbrev pub rank : TrustState → ℕ
rank rumor = 0
rank corroborated = 1
rank primary_backed = 2

-- The arguments in the source's order: current, origins, distinct_sources, primary_matched, n,
-- min_sources.
unfoldable pub next_state : TrustState → ℕ → ℕ → Bool → ℕ → ℕ → TrustState
next_state current origins distinct_sources primary_matched n min_sources =
    let implied =
      if primary_matched
      then primary_backed
      else if leb n origins && leb min_sources distinct_sources
      then corroborated
      else rumor in
    if ltb (rank current) (rank implied) then implied else current
