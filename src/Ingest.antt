-- ===== src/Ingest.antt =====
-- services/ingest/runner.py, poll_once. The fetched and parsed feed is a list of records; a source's
-- `normalize` may raise.
pub mod Delivered
pub mod Once
use pi_news_aggregator.Prelude.{
  ℕ, suc, Bool, true, false, Option, none, some, List, [], ◌∷◌, ◌++◌, Text, contains, if◌then◌else◌,
  list_eq, nat_eq,
}
use pi_news_aggregator.Bus.{Reply, Bytes, ScopedPublisher, Published, sent, Log, publish}
use pi_news_aggregator.Dedup.Memory.{evict}

-- What normalize(raw) does: an Item (as its JSON), None, or an exception.
pub data Normalized : Type 0 where
  item : Bytes → Normalized
  skipped failed : Normalized

pub record PollSource (Raw : Type 0) : Type 0 where
  pub subject : Text
  pub normalize : Raw → Normalized
  pub dedup_key : Raw → Text

-- The count, or `none` for an exception, with the keys seen and the broker.
pub record Polled : Type 0 where
  pub published : Option ℕ
  pub seen : List Text
  pub log : Log

-- SEEN_CAP is `seen_cap`.
unfoldable pub remember : ℕ → List Text → Text → List Text
remember seen_cap seen key = evict seen_cap (seen ++ key ∷ [])

-- After pub.publish(…), for a new key.
unfoldable pub after_publish :
    ℕ → Text → (ℕ → List Text → Log → Polled) → ℕ → List Text → Published × Log → Polled
unfolding remember
after_publish seen_cap key go published seen (sent, log) =
    go (suc published) (remember seen_cap seen key) log
after_publish seen_cap key go published seen (_, log) = record {
  published = none;
  seen = seen;
  log = log;
}

module _ {Raw : Type 0} (seen_cap : ℕ) (src : PollSource Raw) (pub' : ScopedPublisher)
    (reply : Raw → Reply) where
  -- The part of the body for a new key; `go` is the rest of the loop.
  unfoldable pub poll_new :
      Raw → (ℕ → List Text → Log → Polled) → Normalized → ℕ → List Text → Log → Polled
  unfolding remember
  poll_new raw go (item payload) published seen log =
      after_publish seen_cap (src.dedup_key raw) go published seen
        (publish pub' (reply raw) src.subject payload log)
  poll_new raw go skipped published seen log =
      go published (remember seen_cap seen (src.dedup_key raw)) log
  poll_new raw go failed published seen log = record { published = none; seen = seen; log = log }

  unfoldable pub poll_loop : List Raw → ℕ → List Text → Log → Polled
  poll_loop [] published seen log = record { published = some published; seen = seen; log = log }
  poll_loop (raw ∷ raws) published seen log =
      if contains (src.dedup_key raw) seen
      then poll_loop raws published seen log
      else poll_new raw (poll_loop raws) (src.normalize raw) published seen log

  unfoldable pub poll_once : List Raw → List Text → Log → Polled
  unfolding poll_loop
  poll_once raws seen log = poll_loop raws 0 seen log
