-- ===== src/Feeds/Gdacs.antt =====
-- services/ingest/gdacs/normalize.py
use pi_news_aggregator.Prelude.{
  ℕ, Bool, not, ◌&&◌, ◌||◌, Option, none, some, List, [], ◌∷◌, ◌++◌, Text, codes, take, nonempty,
  ◌==◌, list_eq, nat_eq, if◌then◌else◌,
}
use pi_news_aggregator.Floats.{Float}
use pi_news_aggregator.Schema.{Item, Entity, Geo, authoritative, place, max_text_len}
use package.pi_news_aggregator.Feeds.{
  ◌>>=◌, needs, Json, null, string, array, object, Runtime, Parsed, malformed, naive, aware,
  elements, get, get_or, text_of, is_text, is_null, http_urls, truthy, or_else, sub_object,
  point_of, str, validate,
}

module _ (fl : Float) (rt : Runtime fl) where
  -- dt if dt.tzinfo is not None else dt.replace(tzinfo=UTC)
  abbrev pub utc_time : Parsed → Option ℕ
  utc_time malformed = none
  utc_time (naive t) = some t
  utc_time (aware t) = some t

  unfoldable pub parse_dt : Json fl.F → Option ℕ
  parse_dt (string v) = utc_time (rt.fromisoformat v)
  parse_dt _ = none

  unfoldable pub dedup_key : Json fl.F → Option Text
  dedup_key feature = do
    props ← sub_object fl (codes "properties") feature
    etype ← get_or (codes "eventtype") (string []) props
    eid ← get_or (codes "eventid") (string []) props
    episode ← get_or (codes "episodeid") (string []) props
    modified ← get_or (codes "datemodified") (string []) props
    some (
        str fl rt etype
        ++ codes ":"
        ++ str fl rt eid
        ++ codes ":"
        ++ str fl rt episode
        ++ codes ":"
        ++ str fl rt modified)

  abbrev pub coordinates_of : Json fl.F → Option (Option (Geo fl.F))
  coordinates_of (array xs) = point_of fl rt (elements xs)
  coordinates_of _ = some none

  -- _point
  unfoldable pub point : Json fl.F → Option (Option (Geo fl.F))
  point (object ms) = do
    kind ← get (codes "type") (object ms)
    coords ← get (codes "coordinates") (object ms)
    if is_text kind && text_of kind == codes "Point" then coordinates_of coords else some none
  point _ = some none

  -- for part in parts: …
  unfoldable pub countries : Option (Geo fl.F) → List Text → List (Entity fl.F)
  countries geo [] = []
  countries geo (part ∷ parts) =
      let rest = countries geo parts in
      if nonempty (rt.strip part)
      then record { text = take 256 (rt.strip part); type = place; geo = geo } ∷ rest
      else rest

  -- country.split(",")[:MAX_COUNTRY_ENTITIES]
  unfoldable pub places : Json fl.F → Option (Geo fl.F) → List (Entity fl.F)
  places (string country) geo = countries geo (take 16 (rt.split 44 country))
  places _ geo = []

  unfoldable pub report_of : Json fl.F → Option (Json fl.F)
  report_of (object ms) = get (codes "report") (object ms)
  report_of _ = some null

  unfoldable pub headline : Json fl.F → Json fl.F → Text
  headline alert name =
      if nonempty (text_of alert)
      then codes "GDACS " ++ text_of alert ++ codes " alert: " ++ str fl rt name
      else str fl rt name

  -- eid in (None, "")
  abbrev pub is_missing : Json fl.F → Bool
  is_missing eid = is_null eid || (is_text eid && not (nonempty (text_of eid)))

  unfoldable pub draft_with : Json fl.F → Json fl.F → Text → Option (Option (Item fl.F))
  draft_with feature props text = do
    geometry ← get (codes "geometry") feature
    geo ← point geometry
    country ← get (codes "country") props
    url_map ← get (codes "url") props
    report ← report_of url_map
    etype ← get (codes "eventtype") props
    eid ← get (codes "eventid") props
    fromdate ← get (codes "fromdate") props
    let key = take 256 (codes "gdacs:" ++ str fl rt etype ++ codes ":" ++ str fl rt eid)
    needs (truthy fl etype && not (is_missing eid)) (
        some (
          some (record {
            id = rt.uuid;
            source = codes "gdacs";
            source_class = authoritative;
            ts_observed = rt.now;
            ts_event = parse_dt fromdate;
            lang = codes "und";
            text = take max_text_len text;
            entities = places country geo;
            geo = geo;
            urls = http_urls report;
            author_ref = [];
            parent_ref = none;
            content_hash = key;
            raw_ref = key;
          })))

  unfoldable pub draft : Json fl.F → Option (Option (Item fl.F))
  draft feature = do
    props ← sub_object fl (codes "properties") feature
    description ← get (codes "description") props
    name ← get (codes "name") props
    alert ← get (codes "alertlevel") props
    let named = or_else fl description name
    needs (truthy fl named) (draft_with feature props (headline alert named))

  unfoldable pub normalize : Json fl.F → Option (Option (Item fl.F))
  normalize feature = do made ← draft feature; validate made
