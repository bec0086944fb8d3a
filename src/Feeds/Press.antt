-- ===== src/Feeds/Press.antt =====
-- services/ingest/press.py. The clock is read once.
use pi_news_aggregator.Prelude.{
  ℕ, ◌*◌, ◌-◌, Bool, false, not, ◌&&◌, ltb, Option, none, some, [], Text, codes, take, nonempty,
  if◌then◌else◌,
}
use pi_news_aggregator.Floats.{Float}
use pi_news_aggregator.Schema.{Item, SourceClass, max_text_len}
use package.pi_news_aggregator.Feeds.{
  ◌>>=◌, needs, Json, string, Runtime, get, text_of, is_text, http_urls, or_else, aware_time, str,
  validate,
}

module _ (fl : Float) (rt : Runtime fl) where
  unfoldable pub parse_pubdate : Json fl.F → Option ℕ
  parse_pubdate (string v) = if nonempty v then aware_time (rt.parsedate v) else none
  parse_pubdate _ = none

  -- str(item.get("guid") or item.get("link") or "")
  unfoldable pub dedup_key : Json fl.F → Option Text
  dedup_key item = do
    guid ← get (codes "guid") item
    link ← get (codes "link") item
    some (str fl rt (or_else fl guid (or_else fl link (string []))))

  -- Older than max_age_days; times are in microseconds.
  unfoldable pub too_old : Option ℕ → Option ℕ → Bool
  too_old (some days) (some ts) = ltb ts (rt.now - days * 86400000000)
  too_old _ _ = false

  unfoldable pub draft_with : Text → SourceClass → Text → Text → Option ℕ → Json fl.F → Item fl.F
  draft_with source source_class title ref ts link = record {
    id = rt.uuid;
    source = source;
    source_class = source_class;
    ts_observed = rt.now;
    ts_event = ts;
    lang = codes "und";
    text = take max_text_len (rt.strip title);
    entities = [];
    geo = none;
    urls = http_urls link;
    author_ref = [];
    parent_ref = none;
    content_hash = ref;
    raw_ref = ref;
  }

  unfoldable pub draft : Text → SourceClass → Option ℕ → Json fl.F → Option (Option (Item fl.F))
  draft source source_class max_age_days item = do
    title ← get (codes "title") item
    key ← dedup_key item
    pubdate ← get (codes "pubdate") item
    link ← get (codes "link") item
    let ref = rt.strip key
    let ts = parse_pubdate pubdate
    needs
        ((is_text title && nonempty (rt.strip (text_of title)))
          && (nonempty ref && not (too_old max_age_days ts)))
        (some (some (draft_with source source_class (text_of title) ref ts link)))

  unfoldable pub rss_to_item :
      Text → SourceClass → Option ℕ → Json fl.F → Option (Option (Item fl.F))
  rss_to_item source source_class max_age_days item = do
    made ← draft source source_class max_age_days item
    validate made
