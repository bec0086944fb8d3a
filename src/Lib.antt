-- ===== src/Lib.antt =====
-- The pi_news_aggregator pipeline: ingesters publish items on a message bus, the enrichment service
-- filters, governs and embeds them, the cluster service joins them to stories, detects who copied
-- whom, counts independent origins and moves each story's trust state, the score service turns the
-- velocity of mentions into alerts, and the notifier pushes these.
--
-- Which file models which code:
--   Prelude    lists, dicts (association lists in insertion order), texts (lists of code points)
--              and searches; no code of the repository.
--   Floats     Python's floats as an interface, with the laws of numbers other than NaN that the
--              proofs use, and an instance in fixed point on which the definitions run.
--   Schema     libs/schema: the records and their size caps, and merge_entities.
--   Dedup      libs/dedup: Simhash (simhash64, hamming64), Memory (InMemoryDeduper), Kv (NatsKvDeduper).
--   Bus        libs/bus/client.py: ScopedPublisher.publish and consume_validated. The broker is the
--              log of what it stored, whether or not it could acknowledge it.
--   Gazetteer  libs/gazetteer/matcher.py: words, entries, and the longest-match scan.
--   Tokenize   libs/tokenize/wordpiece.py: the words of a text, their pieces, and encode.
--   Ner        libs/ner/onnx_ner.py: from the predicted tags to entities.
--   Trust      libs/trust: UnionFind and Origins (graph.py), Edges and Urls (edges.py), Wire (wire.py) and
--              States (states.py); Match and Matcher are services/trust (match.py, main.py).
--   Enrich     services/enrich: Governor (governor.py), Filter (filter.py), Inference and Flush (main.py).
--   Ingest     services/ingest/runner.py: one poll of a feed.
--   Feeds      services/ingest: the normalizers of USGS, NOAA, GDACS, GDELT, Mastodon, Wikipedia, Bluesky
--              (normalize.py of each) and of the press feeds (press.py).
--   Tables     the rows of libs/schema/schema.sql, and the statements of services/{enrich,cluster,trust}/db.py.
--   Writer     services/writer/main.py: items and tallies are stored.
--   Cluster    services/cluster: which story an item joins (cluster.py), and Service, the handler and
--              the update of a story's trust (main.py).
--   Pipeline   the writer, the cluster service and the primary matcher on the same tables: message after
--              message, and in Interleaved statement by statement, with exceptions in between.
--   Score      services/score: velocity.py, inauth.py, and the cycle of main.py.
--   Notify     services/notify/main.py: the cursor over the alerts.
--   Classify   libs/classify/classifier.py: the heuristic.
--   Retrain    services/retrain/evalx.py: the split by time, and the gate before a new classifier.
--   Release    a classifier on its way into service: the cycle of services/retrain/main.py, the bucket of
--              libs/classify/model_store.py, and watch_models of services/enrich/main.py.
--   Witness    the theorems at concrete inputs.
--
-- State is passed explicitly. An exception is `none` or a constructor of a result type. Python's
-- unordered sets are lists. What the clock, the random generator, the broker, the model runtimes,
-- Unicode's tables, JSON and the database answer are arguments, so that the theorems hold for every
-- answer. Times are whole numbers.
--
-- Loops that are not structural run on fuel: `find_loop` on one more than the number of ids, the
-- gazetteer's scan, `basic_loop` and `piece_loop` on the length of what is left, `fill_series` on
-- the width of the window. The theorems on these are on the result with exactly this fuel, and show
-- that it does not run out.
--
-- Not modelled: connections, partitions and the errors of the database itself (but for exceptions
-- between the statements of the cluster service), the TTL of the shared dedup bucket, the queries
-- of the score, retraining and API services (their answers are inputs), the sockets of the
-- streaming ingesters, the API, training and the language-model client. Python's urllib is a parameter of
-- canonical_url; its date parsing, regular expressions, hashing and str() of a JSON value are
-- parameters of the normalizers.
mod Prelude
mod Floats
pub mod Schema
pub mod Dedup
pub mod Trust
pub mod Gazetteer
pub mod Bus
pub mod Enrich
pub mod Tokenize
pub mod Ner
pub mod Notify
pub mod Ingest
pub mod Cluster
pub mod Score
pub mod Classify
pub mod Retrain
pub mod Tables
pub mod Writer
pub mod Pipeline
pub mod Feeds
pub mod Release
mod Witness
