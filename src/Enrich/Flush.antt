-- ===== src/Enrich/Flush.antt =====
-- services/enrich/main.py, Inference.flush_tallies: one round, after the wait. Times are in microseconds.
pub mod Frequent
pub mod Drained
use pi_news_aggregator.Prelude.{
  ℕ, ◌-◌, ◌%◌, Bool, true, false, leb, ltb, Option, none, some, List, [], ◌∷◌, Text, codes, Dict,
  length, take, ◌>>=◌, ◌&&◌, if◌then◌else◌,
}
use pi_news_aggregator.Floats.{Float}
use pi_news_aggregator.Schema.{TallyFlush, max_len, cap_counts, max_tally_entities}
use pi_news_aggregator.Dedup.{Deduper}
use pi_news_aggregator.Bus.{Reply, Bytes, ScopedPublisher, publish}
use pi_news_aggregator.Enrich.Governor.{GovernorConfig, sampling_active}
use pi_news_aggregator.Enrich.Filter.{drain_mentions}
use pi_news_aggregator.Enrich.Inference.{Inference}

-- Into counts in falling order, before those that are not greater
unfoldable pub insert_common : Text → ℕ → Dict Text ℕ → Dict Text ℕ
insert_common k n [] = (k, n) ∷ []
insert_common k n ((j, m) ∷ d) =
    let rest = insert_common k n d in if leb m n then (k, n) ∷ (j, m) ∷ d else (j, m) ∷ rest

unfoldable pub sort_common : Dict Text ℕ → Dict Text ℕ
unfolding insert_common
sort_common [] = []
sort_common ((k, n) ∷ d) = insert_common k n (sort_common d)

-- dict(counts.most_common(MAX_TALLY_ENTITIES)) of counts that are too many
unfoldable pub top_counts : Dict Text ℕ → Dict Text ℕ
unfolding sort_common
top_counts counts =
    if ltb max_tally_entities (length counts)
    then take max_tally_entities (sort_common counts)
    else counts

module _ (fl : Float) (ded : Deduper) (cfg : GovernorConfig fl.F)
    (tally_publisher : ScopedPublisher) (to_json : TallyFlush fl.F → Bytes) (replica : Text) where
  abbrev pub flush_of : ℕ → Inference fl ded → Dict Text ℕ → TallyFlush fl.F
  flush_of now s counts = record {
    bucket_ts = now - now % 60000000;
    counts = counts;
    sampling_active = sampling_active fl cfg s.gov;
    theta = s.gov.theta;
    replica = replica;
    flushed_at = now;
  }

  -- The `Field`s of TallyFlush other than the counts
  unfoldable pub flush_fits : TallyFlush fl.F → Bool
  flush_fits flush =
      (fl.leb (fl.dec 0 0) flush.theta && fl.leb flush.theta (fl.dec 1 0))
      && max_len 128 flush.replica

  -- TallyFlush(…): `none` is a ValidationError.
  unfoldable pub make_flush : ℕ → Inference fl ded → Dict Text ℕ → Option (TallyFlush fl.F)
  unfolding flush_fits
  make_flush now s counts = do
    counts' ← cap_counts counts
    if flush_fits (flush_of now s counts') then some (flush_of now s counts') else none

  -- `none` is a ValidationError, which ends the task. What publish raises is logged.
  unfoldable pub flush_round : ℕ → Reply → Inference fl ded → Option (Inference fl ded)
  unfolding top_counts make_flush
  flush_round now reply s =
      let (mentions, filter) = drain_mentions fl ded s.filter in
      do
        flush ← make_flush now s (top_counts mentions)
        some (record s {
          filter = filter;
          log = (publish tally_publisher reply (codes "tally.minute") (to_json flush) s.log).1;
        })
