-- ===== src/Feeds/Noaa.antt =====
-- services/ingest/noaa/normalize.py
use pi_news_aggregator.Prelude.{
  ℕ, zero, suc, ◌&&◌, Option, none, some, List, [], ◌∷◌, ◌++◌, Text, codes, take, length, nonempty,
  ◌==◌, list_eq, nat_eq, if◌then◌else◌,
}
use pi_news_aggregator.Floats.{Float}
use pi_news_aggregator.Schema.{Item, Entity, Geo, authoritative, place, max_text_len}
use package.pi_news_aggregator.Feeds.{
  ◌>>=◌, needs, Json, string, array, object, got, refused, overflow, Runtime, elements, get, get_or,
  text_of, is_text, http_urls, truthy, or_else, sub_object, on_earth, geo_at, str, parse_dt,
  validate,
}

-- pt[i]: an element, a TypeError or an IndexError, or a KeyError.
pub data Indexed (F : Type 0) : Type 0 where
  at : Json F → Indexed F
  no_index no_key : Indexed F

abbrev pub item_at : {F : Type 0} → ℕ → List (Json F) → Indexed F
item_at i [] = no_index
item_at zero (x ∷ xs) = at x
item_at (suc i) (x ∷ xs) = item_at i xs

abbrev pub char_at : {F : Type 0} → ℕ → Text → Indexed F
char_at i [] = no_index
char_at zero (c ∷ cs) = at (string (c ∷ []))
char_at (suc i) (c ∷ cs) = char_at i cs

unfoldable pub index : {F : Type 0} → ℕ → Json F → Indexed F
index i (array xs) = item_at i (elements xs)
index i (string t) = char_at i t
-- The keys of a JSON object are texts.
index i (object ms) = no_key
index i _ = no_index

module _ (fl : Float) (rt : Runtime fl) where
  unfoldable pub dedup_key : Json fl.F → Option Text
  dedup_key feature = do
    props ← sub_object fl (codes "properties") feature
    id ← get_or (codes "id") (string []) props
    sent ← get_or (codes "sent") (string []) props
    some (str fl rt id ++ codes ":" ++ str fl rt sent)

  -- float(pt[i]): `some none` where the loop goes on to the next point
  unfoldable pub coordinate : ℕ → Json fl.F → Option (Option fl.F)
  unfolding index
  coordinate i pt = elim (index i pt) [
    | at x ↦ elim (rt.to_float x) [ got f ↦ some (some f) | refused ↦ some none | overflow ↦ none ]
    | no_index ↦ some none
    | no_key ↦ none
  ]

  unfoldable pub point : Json fl.F → Option (Option (fl.F × fl.F))
  unfolding coordinate on_earth
  point pt = do
    lon ← coordinate 0 pt
    elim lon [
      | none ↦ some none
      | some x ↦ do
        lat ← coordinate 1 pt
        elim lat [
          | none ↦ some none
          | some y ↦ some (if on_earth fl x y then some (x, y) else none)
        ]
    ]

  -- pts, as the loop leaves it
  unfoldable pub points : List (Json fl.F) → Option (List (fl.F × fl.F))
  unfolding point
  points [] = some []
  points (pt ∷ pts) = do
    p ← point pt
    rest ← points pts
    some (elim p [ none ↦ rest | some q ↦ q ∷ rest ])

  -- sum(…)
  unfoldable pub sum_from : fl.F → List fl.F → fl.F
  sum_from acc [] = acc
  sum_from acc (x ∷ xs) = sum_from (fl.add acc x) xs

  abbrev pub lons : List (fl.F × fl.F) → List fl.F
  lons [] = []
  lons ((x, y) ∷ pts) = x ∷ lons pts

  abbrev pub lats : List (fl.F × fl.F) → List fl.F
  lats [] = []
  lats ((x, y) ∷ pts) = y ∷ lats pts

  -- Geo(lat=…, lon=…) of the means: `none` is a ValidationError.
  unfoldable pub mean : List (fl.F × fl.F) → Option (Option (Geo fl.F))
  unfolding sum_from on_earth
  mean [] = some none
  mean (p ∷ pts) =
      let n = fl.dec (length (p ∷ pts)) 0 in
      let lon = fl.div (sum_from (fl.dec 0 0) (lons (p ∷ pts))) n in
      let lat = fl.div (sum_from (fl.dec 0 0) (lats (p ∷ pts))) n in
      if on_earth fl lon lat then some (some (geo_at fl lon lat)) else none

  abbrev pub list_of : Json fl.F → List (Json fl.F)
  list_of (array xs) = elements xs
  list_of _ = []

  -- rings[0] if isinstance(rings, list) and rings else [], as a list
  abbrev pub ring_of : Json fl.F → List (Json fl.F)
  ring_of rings = elim (list_of rings) [ [] ↦ [] | ring ∷ rest ↦ list_of ring ]

  -- _centroid
  unfoldable pub centroid : Json fl.F → Option (Option (Geo fl.F))
  unfolding points mean
  centroid (object ms) = do
    kind ← get (codes "type") (object ms)
    rings ← get (codes "coordinates") (object ms)
    if is_text kind && text_of kind == codes "Polygon"
        then (do pts ← points (ring_of rings); mean pts)
        else some none
  centroid _ = some none

  -- The text, if there is one
  unfoldable pub headline_of : Json fl.F → Json fl.F → Json fl.F → Option Text
  headline_of headline event area =
      if truthy fl headline
      then some (str fl rt headline)
      else if truthy fl event
      then some (
          if truthy fl area
          then str fl rt event ++ codes " - " ++ str fl rt area
          else str fl rt event)
      else none

  unfoldable pub areas : List Text → List (Entity fl.F)
  areas [] = []
  areas (part ∷ parts) =
      let rest = areas parts in
      if nonempty (rt.strip part)
      then record { text = take 256 (rt.strip part); type = place; geo = none } ∷ rest
      else rest

  -- area.split(";")[:MAX_AREA_ENTITIES]
  unfoldable pub places : Json fl.F → List (Entity fl.F)
  unfolding areas
  places (string area) = areas (take 32 (rt.split 59 area))
  places _ = []

  -- str(props.get("id") or feature.get("id") or "")
  unfoldable pub urn_of : Json fl.F → Json fl.F → Text
  urn_of own outer = take 256 (str fl rt (or_else fl own (or_else fl outer (string []))))

  -- a or b, for times
  abbrev pub or_time : Option ℕ → Option ℕ → Option ℕ
  or_time (some t) b = some t
  or_time none b = b

  unfoldable pub draft_with : Json fl.F → Json fl.F → Json fl.F → Text → Option (Option (Item fl.F))
  draft_with feature props area text = do
    geometry ← get (codes "geometry") feature
    geo ← centroid geometry
    fid ← get (codes "id") feature
    own ← get (codes "id") props
    onset ← get (codes "onset") props
    effective ← get (codes "effective") props
    sent ← get (codes "sent") props
    let urn = urn_of own fid
    needs (nonempty urn) (
        some (
          some (record {
            id = rt.uuid;
            source = codes "noaa";
            source_class = authoritative;
            ts_observed = rt.now;
            ts_event =
                or_time (parse_dt fl rt onset)
                  (or_time (parse_dt fl rt effective) (parse_dt fl rt sent));
            lang = codes "und";
            text = take max_text_len text;
            entities = places area;
            geo = geo;
            urls = http_urls fid;
            author_ref = [];
            parent_ref = none;
            content_hash = urn;
            raw_ref = urn;
          })))

  unfoldable pub draft : Json fl.F → Option (Option (Item fl.F))
  draft feature = do
    props ← sub_object fl (codes "properties") feature
    status ← get (codes "status") props
    headline ← get (codes "headline") props
    event ← get (codes "event") props
    area ← get (codes "areaDesc") props
    needs (is_text status && text_of status == codes "Actual")
        (elim (headline_of headline event area) [
          | none ↦ some none
          | some text ↦ draft_with feature props area text
        ])

  unfoldable pub normalize : Json fl.F → Option (Option (Item fl.F))
  normalize feature = do made ← draft feature; validate made
