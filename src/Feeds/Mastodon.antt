-- ===== src/Feeds/Mastodon.antt =====
-- services/ingest/mastodon/normalize.py
use pi_news_aggregator.Prelude.{
  Bool, false, not, ◌&&◌, ◌==◌, Option, none, some, List, [], ◌++◌, Text, codes, take, contains,
  nonempty, list_eq, nat_eq, if◌then◌else◌,
}
use pi_news_aggregator.Floats.{Float}
use pi_news_aggregator.Schema.{Item, social, max_text_len}
use package.pi_news_aggregator.Feeds.{
  ◌>>=◌, needs, Json, string, object, Runtime, get, get_or, text_of, is_text, is_null, http_urls,
  truthy, sub_object, str, parse_dt_z, first_part, validate,
}

module _ (fl : Float) (rt : Runtime fl) where
  unfoldable pub strip_html : Text → Text
  strip_html content = rt.strip (rt.unescape (rt.sub_tags (rt.sub_breaks content)))

  -- The tests of should_keep before the one for bots
  unfoldable pub is_original : List Text → Json fl.F → Json fl.F → Json fl.F → Bool
  is_original langs reblog visibility lang =
      is_null reblog
      && ((is_text visibility && text_of visibility == codes "public")
          && (is_text lang && contains (first_part fl rt (rt.lower (text_of lang))) langs))

  unfoldable pub is_bot : Json fl.F → Option Bool
  is_bot status = do
    account ← sub_object fl (codes "account") status
    bot ← get (codes "bot") account
    some (truthy fl bot)

  unfoldable pub should_keep : List Text → Bool → Json fl.F → Option Bool
  unfolding is_original is_bot strip_html
  should_keep langs skip_bots (object ms) = do
    reblog ← get (codes "reblog") (object ms)
    visibility ← get (codes "visibility") (object ms)
    lang ← get (codes "language") (object ms)
    content ← get (codes "content") (object ms)
    let has_text = is_text content && nonempty (strip_html (text_of content))
    (if is_original langs reblog visibility lang
        then (if skip_bots
            then (do bot ← is_bot (object ms); some (not bot && has_text))
            else some has_text)
        else some false)
  should_keep langs skip_bots _ = some false

  unfoldable pub author_of : Text → Json fl.F → Text
  author_of instance' account_id =
      if truthy fl account_id
      then take 32 (rt.sha256 (instance' ++ codes ":" ++ str fl rt account_id))
      else []

  unfoldable pub lang_of : Json fl.F → Text
  lang_of lang = if nonempty (text_of lang) then take 8 (rt.lower (text_of lang)) else codes "und"

  unfoldable pub draft_with : Text → Json fl.F → Text → Text → Option (Option (Item fl.F))
  draft_with instance' status uri text = do
    account ← sub_object fl (codes "account") status
    account_id ← get (codes "id") account
    url ← get (codes "url") status
    lang ← get (codes "language") status
    created_at ← get (codes "created_at") status
    id ← get_or (codes "id") (string []) status
    some (
        some (record {
          id = rt.uuid;
          source = codes "mastodon";
          source_class = social;
          ts_observed = rt.now;
          ts_event = parse_dt_z fl rt created_at;
          lang = lang_of lang;
          text = take max_text_len text;
          entities = [];
          geo = none;
          urls = http_urls url;
          author_ref = author_of instance' account_id;
          parent_ref = none;
          content_hash = codes "masto:" ++ take 40 (rt.sha256 uri);
          raw_ref = take 256 (str fl rt id);
        }))

  unfoldable pub draft : Text → Json fl.F → Option (Option (Item fl.F))
  draft instance' status = do
    uri ← get (codes "uri") status
    content ← get (codes "content") status
    needs (nonempty (text_of uri) && (is_text content && nonempty (strip_html (text_of content))))
        (draft_with instance' status (text_of uri) (strip_html (text_of content)))

  unfoldable pub normalize : Text → Json fl.F → Option (Option (Item fl.F))
  normalize instance' status = do made ← draft instance' status; validate made
