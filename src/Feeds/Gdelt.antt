-- ===== src/Feeds/Gdelt.antt =====
-- services/ingest/gdelt/normalize.py
use pi_news_aggregator.Prelude.{
  ℕ, ◌&&◌, ◌==◌, Option, none, some, [], ◌∷◌, ◌++◌, Text, codes, take, starts_with, list_eq, nat_eq,
  if◌then◌else◌,
}
use pi_news_aggregator.Floats.{Float}
use pi_news_aggregator.Schema.{Item, mainstream, max_text_len}
use package.pi_news_aggregator.Feeds.{
  ◌>>=◌, needs, Json, string, Runtime, get, get_or, text_of, truthy, str, validate,
}

module _ (fl : Float) (rt : Runtime fl) where
  unfoldable pub dedup_key : Json fl.F → Option Text
  dedup_key article = do url ← get_or (codes "url") (string []) article; some (str fl rt url)

  unfoldable pub parse_seendate : Json fl.F → Option ℕ
  parse_seendate (string v) = rt.strptime v
  parse_seendate _ = none

  unfoldable pub draft_with : Json fl.F → Text → Json fl.F → Option (Option (Item fl.F))
  draft_with article url title = do
    language ← get_or (codes "language") (string []) article
    seendate ← get (codes "seendate") article
    domain ← get_or (codes "domain") (string []) article
    some (
        some (record {
          id = rt.uuid;
          source = codes "gdelt";
          source_class = mainstream;
          ts_observed = rt.now;
          ts_event = parse_seendate seendate;
          lang =
              if rt.lower (str fl rt language) == codes "english" then codes "en" else codes "und";
          text = take max_text_len (str fl rt title);
          entities = [];
          geo = none;
          urls = take 2048 url ∷ [];
          author_ref = take 256 (str fl rt domain);
          parent_ref = none;
          content_hash = codes "gdelt:" ++ take 40 (rt.sha256 url);
          raw_ref = take 256 (str fl rt domain);
        }))

  unfoldable pub draft : Json fl.F → Option (Option (Item fl.F))
  draft article = do
    url ← get (codes "url") article
    title ← get (codes "title") article
    needs (starts_with (text_of url) (codes "http") && truthy fl title)
        (draft_with article (text_of url) title)

  unfoldable pub normalize : Json fl.F → Option (Option (Item fl.F))
  normalize article = do made ← draft article; validate made
