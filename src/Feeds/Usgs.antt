-- ===== src/Feeds/Usgs.antt =====
-- services/ingest/usgs/normalize.py
use pi_news_aggregator.Prelude.{
  ℕ, Option, none, some, List, [], ◌∷◌, ◌++◌, Text, codes, take, nonempty, list_eq, nat_eq,
  if◌then◌else◌,
}
use pi_news_aggregator.Floats.{Float}
use pi_news_aggregator.Schema.{Item, Entity, Geo, authoritative, place, max_text_len}
use package.pi_news_aggregator.Feeds.{
  ◌>>=◌, Json, boolean, integer, number, string, array, Runtime, elements, get, get_or, text_of,
  is_null, truthy, sub_object, point_of, str, validate,
}

module _ (fl : Float) (rt : Runtime fl) where
  unfoldable pub dedup_key : Json fl.F → Option Text
  dedup_key feature = do
    fid ← get_or (codes "id") (string []) feature
    props ← sub_object fl (codes "properties") feature
    updated ← get_or (codes "updated") (string []) props
    some (str fl rt fid ++ codes ":" ++ str fl rt updated)

  -- bool is a subclass of int.
  unfoldable pub ms_to_dt : Json fl.F → Option (Option ℕ)
  ms_to_dt (boolean b) = do t ← rt.from_ms (boolean b); some (some t)
  ms_to_dt (integer z) = do t ← rt.from_ms (integer z); some (some t)
  ms_to_dt (number x) = do t ← rt.from_ms (number x); some (some t)
  ms_to_dt _ = some none

  -- The text, if there is one
  unfoldable pub headline : Json fl.F → Json fl.F → Json fl.F → Option Text
  headline title place' mag =
      if truthy fl title
      then some (str fl rt title)
      else if truthy fl place'
      then some (
          if is_null mag
          then str fl rt place'
          else codes "M" ++ str fl rt mag ++ codes " - " ++ str fl rt place')
      else none

  -- geom.get("coordinates") or []
  unfoldable pub geo_of : Json fl.F → Option (Option (Geo fl.F))
  geo_of (array xs) = point_of fl rt (elements xs)
  geo_of _ = some none

  unfoldable pub places : Json fl.F → Option (Geo fl.F) → List (Entity fl.F)
  places place' geo =
      if truthy fl place'
      then record { text = take 256 (str fl rt place'); type = place; geo = geo } ∷ []
      else []

  unfoldable pub urls_of : Json fl.F → List Text
  urls_of url = if nonempty (text_of url) then take 2048 (text_of url) ∷ [] else []

  unfoldable pub draft_with :
      Json fl.F → Json fl.F → Json fl.F → Json fl.F → Text → Option (Option (Item fl.F))
  draft_with feature props coords place' text = do
    geo ← geo_of coords
    url ← get (codes "url") props
    fid ← get_or (codes "id") (string []) feature
    time ← get (codes "time") props
    ts ← ms_to_dt time
    some (
        some (record {
          id = rt.uuid;
          source = codes "usgs";
          source_class = authoritative;
          ts_observed = rt.now;
          ts_event = ts;
          lang = codes "und";
          text = take max_text_len text;
          entities = places place' geo;
          geo = geo;
          urls = urls_of url;
          author_ref = [];
          parent_ref = none;
          content_hash = take 256 (str fl rt fid);
          raw_ref = take 256 (str fl rt fid);
        }))

  -- The fields that Item(…) is given: `some none` is a return of None.
  unfoldable pub draft : Json fl.F → Option (Option (Item fl.F))
  draft feature = do
    props ← sub_object fl (codes "properties") feature
    geom ← sub_object fl (codes "geometry") feature
    coords ← get (codes "coordinates") geom
    title ← get (codes "title") props
    place' ← get (codes "place") props
    mag ← get (codes "mag") props
    elim (headline title place' mag) [
      | none ↦ some none
      | some text ↦ draft_with feature props coords place' text
    ]

  unfoldable pub normalize : Json fl.F → Option (Option (Item fl.F))
  normalize feature = do made ← draft feature; validate made
