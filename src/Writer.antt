-- ===== src/Writer.antt =====
-- services/writer/main.py, Writer, over the tables. The two handlers return unless the database
-- raises, which is left out.
use pi_news_aggregator.Prelude.{ℕ, suc, codes, ◌++◌}
use pi_news_aggregator.Schema.{EnrichedItem, TallyFlush}
use pi_news_aggregator.Tables.{Beat, Tables}
use pi_news_aggregator.Tables.Items.{insert_item}
use pi_news_aggregator.Tables.Tallies.{insert_tallies, upsert_system_state}

pub record Writer (F : Type 0) : Type 0 where
  pub stored : ℕ
  pub tallies : ℕ
  pub db : Tables F

module _ {F : Type 0} where
  abbrev pub beat_of : TallyFlush F → Beat F
  beat_of flush = record {
    sampling_active = flush.sampling_active;
    theta = flush.theta;
    flushed_at = flush.flushed_at;
  }

  unfoldable pub handle : EnrichedItem F → Writer F → Writer F
  handle enriched s = record s {
    stored = suc s.stored;
    db = insert_item enriched.item enriched.embedding enriched.exploration s.db;
  }

  unfoldable pub handle_tally : TallyFlush F → Writer F → Writer F
  handle_tally flush s = record s {
    tallies = suc s.tallies;
    db =
        upsert_system_state (codes "enrich:" ++ flush.replica) (beat_of flush)
          (insert_tallies flush s.db);
  }
