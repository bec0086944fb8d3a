-- ===== src/Ingest/Once.antt =====
-- services/ingest/runner.py, poll_once: which messages a poll of a feed adds to the broker.
use pi_news_aggregator.Prelude.{ℕ, ◌+◌, ◌≤◌, List, Text, length, list_eq, nat_eq}
use pi_news_aggregator.Bus.{Reply, ScopedPublisher}
use package.pi_news_aggregator.Ingest.{PollSource}
use pi_news_aggregator.Ingest.Delivered.{Delivered}

module _ {Raw : Type 0} (seen_cap : ℕ) (src : PollSource Raw) (pub' : ScopedPublisher)
    (reply : Raw → Reply) where
  -- The records that are left fit into the store.
  abbrev pub Room : List Text → List Raw → Type 0
  Room seen raws = length seen + length raws ≤ seen_cap
