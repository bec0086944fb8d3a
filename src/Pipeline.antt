-- ===== src/Pipeline.antt =====
-- The services that share the tables: services/writer/main.py, services/cluster/main.py and
-- services/trust/main.py. Here each handles one message at a time, in any order with the others, in any
-- state of its own counters, and the database raises nothing of its own; Interleaved has the single
-- statements, with exceptions between them. The log of the cluster service and the clock are arbitrary.
pub mod Interleaved
pub mod Runs
pub mod Promises
pub mod Links
pub mod Progress
use pi_news_aggregator.Prelude.{ℕ}
use pi_news_aggregator.Floats.{Float}
use pi_news_aggregator.Schema.{EnrichedItem, TallyFlush, ClaimResult}
use pi_news_aggregator.Tables.{Tables}
use pi_news_aggregator.Writer
use pi_news_aggregator.Writer.{Writer}
use pi_news_aggregator.Cluster.Service
use pi_news_aggregator.Cluster.Service.{Setup, Clusterer, Moment}
use pi_news_aggregator.Trust.Matcher
use pi_news_aggregator.Trust.Matcher.{Matching, PrimaryMatcher}

module _ (fl : Float) (setup : Setup fl) (matching : Matching fl) where
  -- One message, handled by one of the services.
  pub data Step : Tables fl.F → Tables fl.F → Type 0 where
    stored :
        (enriched : EnrichedItem fl.F) (s : Writer fl.F) → Step s.db (Writer.handle enriched s).db
    tallied :
        (flush : TallyFlush fl.F) (s : Writer fl.F) → Step s.db (Writer.handle_tally flush s).db
    clustered :
        (m : Moment) (enriched : EnrichedItem fl.F) (s : Clusterer fl.F)
        → Step s.db (Service.handle fl setup m enriched s).1.db
    matched :
        (claim : ClaimResult) (s : PrimaryMatcher fl.F)
        → Step s.db (Matcher.handle fl matching claim s).db

  -- Any number of messages.
  pub data Reach : Tables fl.F → Tables fl.F → Type 0 where
    done : {t : Tables fl.F} → Reach t t
    more : {t t' t'' : Tables fl.F} → Step t t' → Reach t' t'' → Reach t t''
