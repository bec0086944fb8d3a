-- ===== src/Feeds.antt =====
-- services/ingest: what the normalizers of the feeds share. JSON values as Python has them after
-- decoding, with the operations on them; `none` is an exception that the normalizer does not catch.
pub mod Usgs
pub mod Noaa
pub mod Gdacs
pub mod Gdelt
pub mod Press
pub mod Mastodon
pub mod Wikipedia
pub mod Bluesky
pub mod Fitting
pub mod Capped
pub mod Streamed
pub mod Posts
pub mod Accepted
use pi_news_aggregator.Prelude.{
  ℕ, zero, suc, ◌+◌, Bool, true, false, not, ◌&&◌, leb, ◌==◌, nat_eq, list_eq, ℤ, pos, negsuc,
  Option, none, some, List, [], ◌∷◌, ◌++◌, Text, codes, nonempty, take, starts_with, length,
  if◌then◌else◌,
}
use pi_news_aggregator.Floats.{Float}
use pi_news_aggregator.Schema.{Geo, Entity, Item, item_fits, max_len}

-- The next step, unless there was an exception.
infixl 5 ◌>>=◌
unfoldable pub ◌>>=◌ : {A B : Type 0} → Option A → (A → Option B) → Option B
none >>= f = none
some a >>= f = f a

-- if not b: return None
unfoldable pub needs : {A : Type 0} → Bool → Option (Option A) → Option (Option A)
needs true x = x
needs false x = some none

mutual
  pub data Json (F : Type 0) : Type 0 where
    null : Json F
    boolean : Bool → Json F
    integer : ℤ → Json F
    number : F → Json F
    string : Text → Json F
    array : Elements F → Json F
    object : Members F → Json F

  pub data Elements (F : Type 0) : Type 0 where
    no_element : Elements F
    element : Json F → Elements F → Elements F

  -- A dict: no key stands twice.
  pub data Members (F : Type 0) : Type 0 where
    no_member : Members F
    member : Text → Json F → Members F → Members F

-- float(x): a TypeError or a ValueError is `refused`, an OverflowError `overflow`.
pub data Floated (F : Type 0) : Type 0 where
  got : F → Floated F
  refused overflow : Floated F

-- A parsed date.
pub data Parsed : Type 0 where
  malformed : Parsed
  naive aware : ℕ → Parsed

-- Python's runtime, and what an Item takes from the clock and uuid4().
pub record Runtime (fl : Float) : Type 0 where
  -- str of a value that is no str
  pub repr : Json fl.F → Text
  pub to_float : Json fl.F → Floated fl.F
  -- datetime.fromtimestamp(ms / 1000.0, tz=UTC)
  pub from_ms : Json fl.F → Option ℕ
  pub fromisoformat : Text → Parsed
  -- datetime.strptime(v, "%Y%m%dT%H%M%SZ")
  pub strptime : Text → Option ℕ
  pub parsedate : Text → Parsed
  pub lower : Text → Text
  pub strip : Text → Text
  -- s.split(sep), for one character
  pub split : ℕ → Text → List Text
  pub replace : Text → Text → Text → Text
  -- hashlib.sha256(s.encode()).hexdigest()
  pub sha256 : Text → Text
  -- _BREAKS.sub("\n", …), _TAGS.sub("", …) and html.unescape
  pub sub_breaks : Text → Text
  pub sub_tags : Text → Text
  pub unescape : Text → Text
  pub uuid : ℕ
  pub now : ℕ

-- No code point of the text is a lone surrogate: a capped `str` is refused that UTF-8 cannot encode.
unfoldable pub encodes : Text → Bool
encodes [] = true
encodes (c ∷ cs) = not (leb 55296 c && leb c 57343) && encodes cs

abbrev pub encodes_opt : Option Text → Bool
encodes_opt none = true
encodes_opt (some t) = encodes t

module _ {F : Type 0} where
  unfoldable pub elements : Elements F → List (Json F)
  elements no_element = []
  elements (element x xs) = x ∷ elements xs

  unfoldable pub lookup : Text → Members F → Option (Json F)
  lookup k no_member = none
  lookup k (member j v ms) = if k == j then some v else lookup k ms

  abbrev pub or_default : Json F → Option (Json F) → Json F
  or_default d none = d
  or_default d (some v) = v

  -- x.get(k, d): an AttributeError if x is no dict
  unfoldable pub get_or : Text → Json F → Json F → Option (Json F)
  unfolding lookup
  get_or k d (object ms) = some (or_default d (lookup k ms))
  get_or k d _ = none

  -- x.get(k)
  unfoldable pub get : Text → Json F → Option (Json F)
  unfolding get_or
  get k x = get_or k null x

  -- isinstance(x, str) and x, else ""
  unfoldable pub text_of : Json F → Text
  text_of (string t) = t
  text_of _ = []

  -- isinstance(x, str)
  unfoldable pub is_text : Json F → Bool
  is_text (string t) = true
  is_text _ = false

  abbrev pub is_null : Json F → Bool
  is_null null = true
  is_null _ = false

  -- All texts of entities are within the cap.
  unfoldable pub short_entities : List (Entity F) → Bool
  short_entities [] = true
  short_entities (e ∷ es) = max_len 256 e.text && short_entities es

  unfoldable pub entities_encode : List (Entity F) → Bool
  unfolding encodes
  entities_encode [] = true
  entities_encode (e ∷ es) = encodes e.text && entities_encode es

  -- So for each capped text of the item.
  unfoldable pub item_encodes : Item F → Bool
  unfolding encodes entities_encode
  item_encodes i =
      encodes i.source
      && (encodes i.lang
          && (encodes i.text
              && (entities_encode i.entities
                  && (encodes i.author_ref
                      && (encodes_opt i.parent_ref
                          && (encodes i.content_hash && encodes i.raw_ref))))))

  -- Item(…): `none` is a ValidationError.
  unfoldable pub validate : Option (Item F) → Option (Option (Item F))
  unfolding short_entities item_encodes
  validate none = some none
  validate (some item) =
      if item_fits item && short_entities item.entities && item_encodes item
      then some (some item)
      else none

  -- "http…" urls, cut to the cap
  unfoldable pub http_urls : Json F → List Text
  unfolding text_of
  http_urls x = if starts_with (text_of x) (codes "http") then take 2048 (text_of x) ∷ [] else []

abbrev pub empty_object : {F : Type 0} → Json F
empty_object = object no_member

-- The time of an aware date
abbrev pub aware_time : Parsed → Option ℕ
aware_time (aware t) = some t
aware_time _ = none

module _ (fl : Float) where
  -- bool(x)
  unfoldable pub truthy : Json fl.F → Bool
  truthy null = false
  truthy (boolean b) = b
  truthy (integer (pos zero)) = false
  truthy (integer _) = true
  truthy (number x) = not (fl.leb x (fl.dec 0 0) && fl.leb (fl.dec 0 0) x)
  truthy (string t) = nonempty t
  truthy (array no_element) = false
  truthy (array (element x xs)) = true
  truthy (object no_member) = false
  truthy (object (member k v ms)) = true

  -- x or y
  unfoldable pub or_else : Json fl.F → Json fl.F → Json fl.F
  unfolding truthy
  or_else x y = if truthy x then x else y

  -- (x.get(k) or {})
  unfoldable pub sub_object : Text → Json fl.F → Option (Json fl.F)
  unfolding get or_else
  sub_object k x = do v ← get k x; some (or_else v empty_object)

  -- -180 <= lon <= 180 and -90 <= lat <= 90
  unfoldable pub on_earth : fl.F → fl.F → Bool
  on_earth lon lat =
      (fl.leb (fl.neg (fl.dec 180 0)) lon && fl.leb lon (fl.dec 180 0))
      && (fl.leb (fl.neg (fl.dec 90 0)) lat && fl.leb lat (fl.dec 90 0))

  abbrev pub geo_at : fl.F → fl.F → Geo fl.F
  geo_at lon lat = record { lat = lat; lon = lon; geohash = none }

  module _ (rt : Runtime fl) where
    -- str(x)
    unfoldable pub str : Json fl.F → Text
    str (string t) = t
    str x = rt.repr x

    -- dt if dt.tzinfo is not None else None, and None for what does not parse
    unfoldable pub parse_dt : Json fl.F → Option ℕ
    parse_dt (string v) = aware_time (rt.fromisoformat v)
    parse_dt _ = none

    -- The same, of v.replace("Z", "+00:00")
    unfoldable pub parse_dt_z : Json fl.F → Option ℕ
    parse_dt_z (string v) =
        aware_time (rt.fromisoformat (rt.replace (codes "Z") (codes "+00:00") v))
    parse_dt_z _ = none

    abbrev pub placed : fl.F → Floated fl.F → Option (Option (Geo fl.F))
    placed lon (got lat) = some (if on_earth lon lat then some (geo_at lon lat) else none)
    placed lon refused = some none
    placed lon overflow = none

    -- float(coords[0]), float(coords[1]), and the place if it is on earth
    unfoldable pub point_of : List (Json fl.F) → Option (Option (Geo fl.F))
    unfolding on_earth
    point_of (x ∷ y ∷ rest) = elim (rt.to_float x) [
      | got lon ↦ placed lon (rt.to_float y)
      | refused ↦ some none
      | overflow ↦ none
    ]
    point_of _ = some none

    -- s.split("-")[0]
    abbrev pub first_part : Text → Text
    first_part t = elim (rt.split 45 t) [ [] ↦ [] | part ∷ parts ↦ part ]
