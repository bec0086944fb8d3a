-- ===== src/Pipeline/Promises.antt =====
-- What holds of the tables whatever messages the services handle, and in whatever order.
use pi_news_aggregator.Prelude.{◌≡◌, refl, true}
use pi_news_aggregator.Floats.{Float}
use pi_news_aggregator.Schema.{EnrichedItem, TallyFlush}
use pi_news_aggregator.Tables.{Tables}
use pi_news_aggregator.Tables.Items.{has_item, insert_item}
use pi_news_aggregator.Tables.Tallies.{insert_tallies, upsert_system_state}
use pi_news_aggregator.Tables.Statements.Kept.{
  insert_counts-Tallied, insert_counts_again, insert_item-has_item, Statements-has_item,
  Statements-Tallied,
}
use pi_news_aggregator.Cluster.Service.{Setup}
use pi_news_aggregator.Writer
use pi_news_aggregator.Writer.{Writer}
use pi_news_aggregator.Trust.Matcher.{Matching}
use package.pi_news_aggregator.Pipeline.{Reach}
use package.pi_news_aggregator.Pipeline.Runs.{Reach-Statements}

module _ (fl : Float) (setup : Setup fl) (matching : Matching fl) where
  pub stays_stored :
      {t : Tables fl.F} (enriched : EnrichedItem fl.F) (s : Writer fl.F)
      → Reach fl setup matching (Writer.handle enriched s).db t
      → has_item enriched.item.id enriched.item.ts_observed t.items ≡ true
  unfolding Writer.handle
  stays_stored enriched s r =
      Statements-has_item enriched.item.id enriched.item.ts_observed
        (Reach-Statements fl setup matching r)
        (insert_item-has_item enriched.item enriched.embedding enriched.exploration s.db)

  -- An item that is delivered to the writer again, whatever messages the services have handled since
  -- it was first stored, changes no table.
  pub store_once :
      (enriched : EnrichedItem fl.F) (s s' : Writer fl.F)
      → Reach fl setup matching (Writer.handle enriched s).db s'.db
      → (Writer.handle enriched s').db ≡ s'.db
  store_once enriched s s' r =
      unfold Writer.handle insert_item in (rw (stays_stored enriched s r) refl)

  -- A tally flush that is delivered to the writer again, whatever messages the services have handled
  -- since, adds no mention: the table of tallies stays as it is.
  pub tally_once :
      (flush : TallyFlush fl.F) (s s' : Writer fl.F)
      → Reach fl setup matching (Writer.handle_tally flush s).db s'.db
      → (Writer.handle_tally flush s').db.entity_tallies ≡ s'.db.entity_tallies
  unfolding Writer.handle_tally insert_tallies upsert_system_state
  tally_once flush s s' r =
      insert_counts_again flush.bucket_ts flush.replica flush.counts s'.db.entity_tallies (
        Statements-Tallied flush.bucket_ts flush.replica flush.counts
          (Reach-Statements fl setup matching r)
          (insert_counts-Tallied flush.bucket_ts flush.replica flush.counts s.db.entity_tallies))
