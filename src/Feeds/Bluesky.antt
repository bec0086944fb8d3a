-- ===== src/Feeds/Bluesky.antt =====
-- services/ingest/bluesky/normalize.py
use pi_news_aggregator.Prelude.{
  Bool, true, false, not, ◌&&◌, ◌||◌, ◌==◌, leb, Option, none, some, List, [], ◌∷◌, ◌++◌, Text,
  codes, take, length, contains, starts_with, nonempty, list_eq, nat_eq, if◌then◌else◌,
}
use pi_news_aggregator.Floats.{Float}
use pi_news_aggregator.Schema.{Item, social, max_text_len, max_urls}
use package.pi_news_aggregator.Feeds.{
  ◌>>=◌, needs, Json, null, string, array, object, no_element, Members, no_member, member, Runtime,
  elements, get, get_or, text_of, is_text, truthy, or_else, sub_object, str, parse_dt_z, first_part,
  validate,
}

abbrev pub post_collection : Text
post_collection = codes "app.bsky.feed.post"

module _ {F : Type 0} where
  abbrev pub chars : Text → List (Json F)
  chars [] = []
  chars (c ∷ cs) = string (c ∷ []) ∷ chars cs

  unfoldable pub member_keys : Members F → List (Json F)
  member_keys no_member = []
  member_keys (member k v ms) = string k ∷ member_keys ms

  -- for y in x: a TypeError if x cannot be iterated
  unfoldable pub iterate : Json F → Option (List (Json F))
  unfolding member_keys
  iterate (array xs) = some (elements xs)
  iterate (object ms) = some (member_keys ms)
  iterate (string t) = some (chars t)
  iterate _ = none

module _ (fl : Float) (rt : Runtime fl) where
  unfoldable pub uri_key : Text → Text
  uri_key uri = codes "bsky:" ++ take 40 (rt.sha256 uri)

  -- any(… for lang in post_langs)
  unfoldable pub any_lang : List Text → List (Json fl.F) → Bool
  any_lang langs [] = false
  any_lang langs (lang ∷ rest) =
      contains (first_part fl rt (rt.lower (str fl rt lang))) langs || any_lang langs rest

  abbrev pub labelled : List Text → Json fl.F → Bool
  labelled langs (array xs) = any_lang langs (elements xs)
  labelled langs _ = false

  abbrev pub is_string : Json fl.F → Text → Bool
  is_string x t = is_text x && text_of x == t

  unfoldable pub should_keep : List Text → Json fl.F → Option Bool
  unfolding any_lang
  should_keep langs (object ms) = do
    kind ← get (codes "kind") (object ms)
    (if is_string kind (codes "commit")
        then (do
          commit ← sub_object fl (codes "commit") (object ms)
          operation ← get (codes "operation") commit
          collection ← get (codes "collection") commit
          (if is_string operation (codes "create") && is_string collection post_collection
              then (do
                post ← sub_object fl (codes "record") commit
                text ← get (codes "text") post
                post_langs ← get (codes "langs") post
                some (
                    (is_text text && nonempty (rt.strip (text_of text)))
                    && labelled langs post_langs))
              else some false))
        else some false)
  should_keep langs _ = some false

  -- feat.get("uri") if isinstance(feat, dict) else None
  unfoldable pub uri_of : Json fl.F → Option (Json fl.F)
  uri_of (object ms) = get (codes "uri") (object ms)
  uri_of _ = some null

  -- The urls with the one of a feature.
  unfoldable pub with_uri : Json fl.F → List Text → List Text
  with_uri uri urls =
      if starts_with (text_of uri) (codes "http") && not (contains (text_of uri) urls)
      then urls ++ take 2048 (text_of uri) ∷ []
      else urls

  -- The inner loop: whether `_facet_urls` returns, and the urls
  unfoldable pub feature_urls : List (Json fl.F) → List Text → Option (Bool × List Text)
  unfolding uri_of with_uri
  feature_urls [] urls = some (false, urls)
  feature_urls (feat ∷ feats) urls = do
    uri ← uri_of feat
    let urls' = with_uri uri urls
    let rest = feature_urls feats urls'
    (if leb max_urls (length urls') then some (true, urls') else rest)

  -- The features of a facet that is a dict
  unfoldable pub features_of : Json fl.F → Option (List (Json fl.F))
  unfolding iterate
  features_of (object ms) = do
    features ← get (codes "features") (object ms)
    iterate (or_else fl features (array no_element))
  features_of _ = some []

  -- The outer loop
  unfoldable pub facet_loop : List (Json fl.F) → List Text → Option (List Text)
  unfolding feature_urls features_of
  facet_loop [] urls = some urls
  facet_loop (facet ∷ facets) urls = do
    feats ← features_of facet
    (full, urls') ← feature_urls feats urls
    let rest = facet_loop facets urls'
    (if full then some urls' else rest)

  unfoldable pub facet_urls : Json fl.F → Option (List Text)
  unfolding iterate facet_loop
  facet_urls post = do
    facets ← get (codes "facets") post
    list ← iterate (or_else fl facets (array no_element))
    facet_loop list []

  abbrev pub parent_of : Json fl.F → Option Text
  parent_of uri = if nonempty (text_of uri) then some (uri_key (text_of uri)) else none

  unfoldable pub lang_of : Json fl.F → Text
  lang_of (array xs) = elim (elements xs) [
    | [] ↦ codes "und"
    | x ∷ rest ↦ if is_text x then take 8 (rt.lower (text_of x)) else codes "und"
  ]
  lang_of _ = codes "und"

  unfoldable pub draft_with :
      Json fl.F → Json fl.F → Text → Json fl.F → Text → Option (Option (Item fl.F))
  draft_with commit post did rkey text = do
    reply ← sub_object fl (codes "reply") post
    parent ← sub_object fl (codes "parent") reply
    parent_uri ← get (codes "uri") parent
    langs ← get (codes "langs") post
    created ← get (codes "createdAt") post
    urls ← facet_urls post
    cid ← get_or (codes "cid") (string []) commit
    some (
        some (record {
          id = rt.uuid;
          source = codes "bluesky";
          source_class = social;
          ts_observed = rt.now;
          ts_event = parse_dt_z fl rt created;
          lang = lang_of langs;
          text = take max_text_len text;
          entities = [];
          geo = none;
          urls = urls;
          author_ref = take 32 (rt.sha256 did);
          parent_ref = parent_of parent_uri;
          content_hash =
              uri_key (
                codes "at://"
                ++ did
                ++ codes "/"
                ++ post_collection
                ++ codes "/"
                ++ str fl rt rkey);
          raw_ref = take 256 (str fl rt cid);
        }))

  unfoldable pub draft : Json fl.F → Option (Option (Item fl.F))
  draft evt = do
    did ← get (codes "did") evt
    commit ← sub_object fl (codes "commit") evt
    post ← sub_object fl (codes "record") commit
    rkey ← get (codes "rkey") commit
    text ← get (codes "text") post
    needs ((is_text did && truthy fl rkey) && (is_text text && nonempty (rt.strip (text_of text))))
        (draft_with commit post (text_of did) rkey (text_of text))

  unfoldable pub normalize : Json fl.F → Option (Option (Item fl.F))
  normalize evt = do made ← draft evt; validate made
