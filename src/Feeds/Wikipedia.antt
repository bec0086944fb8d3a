-- ===== src/Feeds/Wikipedia.antt =====
-- services/ingest/wikipedia/normalize.py
use pi_news_aggregator.Prelude.{
  zero, Bool, true, false, not, ◌&&◌, ◌==◌, ltb, leb, pos, Option, none, some, List, [], ◌∷◌, ◌++◌,
  Text, codes, take, length, contains, nonempty, list_eq, nat_eq, if◌then◌else◌,
}
use pi_news_aggregator.Floats.{Float}
use pi_news_aggregator.Schema.{Item, primary, max_text_len}
use package.pi_news_aggregator.Feeds.{
  ◌>>=◌, needs, Json, boolean, integer, number, string, array, object, Runtime, get, get_or,
  text_of, is_text, http_urls, truthy, or_else, sub_object, str, parse_dt_z, validate,
}

-- t.removesuffix(suffix) if t.endswith(suffix)
unfoldable pub without_suffix : Text → Text → Option Text
without_suffix suffix [] = if [] == suffix then some [] else none
without_suffix suffix (c ∷ t) =
    let rest = without_suffix suffix t in
    if (c ∷ t) == suffix then some [] else elim rest [ none ↦ none | some r ↦ some (c ∷ r) ]

module _ (fl : Float) (rt : Runtime fl) where
  -- x in texts: a list or a dict is not hashable.
  unfoldable pub is_in : Json fl.F → List Text → Option Bool
  is_in (string t) texts = some (contains t texts)
  is_in (array xs) texts = none
  is_in (object ms) texts = none
  is_in _ texts = some false

  -- x == 0
  unfoldable pub is_zero : Json fl.F → Bool
  is_zero (boolean b) = not b
  is_zero (integer (pos zero)) = true
  is_zero (number x) = fl.leb x (fl.dec 0 0) && fl.leb (fl.dec 0 0) x
  is_zero _ = false

  -- x is False
  abbrev pub is_false : Json fl.F → Bool
  is_false (boolean b) = not b
  is_false _ = false

  unfoldable pub should_keep : List Text → Bool → Json fl.F → Option Bool
  unfolding is_in is_zero
  should_keep domains skip_minor (object ms) = do
    meta ← sub_object fl (codes "meta") (object ms)
    domain ← get (codes "domain") meta
    namespace ← get (codes "namespace") (object ms)
    kind ← get (codes "type") (object ms)
    bot ← get (codes "bot") (object ms)
    minor ← get (codes "minor") (object ms)
    known ← is_in domain domains
    (if known && is_zero namespace
        then (do
          kept ← is_in kind (codes "edit" ∷ codes "new" ∷ [])
          some (kept && (is_false bot && not (skip_minor && truthy fl minor))))
        else some false)
  should_keep domains skip_minor _ = some false

  unfoldable pub hash_author : Text → Json fl.F → Text
  hash_author domain user =
      if truthy fl user then take 32 (rt.sha256 (domain ++ codes ":" ++ str fl rt user)) else []

  unfoldable pub lang_of : Json fl.F → Text
  lang_of (string server_name) = elim (without_suffix (codes ".wikipedia.org") server_name) [
    | none ↦ codes "und"
    | some prefix' ↦
        if ltb 1 (length prefix') && (leb (length prefix') 8 && not (contains 46 prefix'))
        then prefix'
        else codes "und"
  ]
  lang_of _ = codes "und"

  unfoldable pub text_with : Json fl.F → Json fl.F → Text
  text_with title comment =
      if nonempty (text_of comment)
      then str fl rt title ++ codes " — " ++ text_of comment
      else str fl rt title

  -- The key, if the event has a revision or an id
  unfoldable pub key_of : Text → Json fl.F → Json fl.F → Option Text
  key_of domain rev id =
      if truthy fl rev
      then some (take 256 (codes "wiki:" ++ domain ++ codes ":" ++ str fl rt rev))
      else if truthy fl id
      then some (take 256 (codes "wiki:" ++ domain ++ codes ":" ++ str fl rt id))
      else none

  unfoldable pub draft_with : Json fl.F → Json fl.F → Text → Json fl.F → Option (Option (Item fl.F))
  draft_with evt meta domain title = do
    comment ← get (codes "comment") evt
    uri ← get (codes "uri") meta
    title_url ← get (codes "title_url") evt
    revision ← sub_object fl (codes "revision") evt
    rev ← get (codes "new") revision
    id ← get (codes "id") meta
    ref ← get_or (codes "id") (string []) meta
    dt ← get (codes "dt") meta
    server_name ← get (codes "server_name") evt
    user ← get (codes "user") evt
    elim (key_of domain rev id) [
      | none ↦ some none
      | some key ↦ some (
          some (record {
            id = rt.uuid;
            source = codes "wikipedia";
            source_class = primary;
            ts_observed = rt.now;
            ts_event = parse_dt_z fl rt dt;
            lang = lang_of server_name;
            text = take max_text_len (text_with title comment);
            entities = [];
            geo = none;
            urls = http_urls (or_else fl uri title_url);
            author_ref = hash_author domain user;
            parent_ref = none;
            content_hash = key;
            raw_ref = take 256 (str fl rt ref);
          }))
    ]

  unfoldable pub draft : Json fl.F → Option (Option (Item fl.F))
  draft evt = do
    meta ← sub_object fl (codes "meta") evt
    domain ← get (codes "domain") meta
    title ← get (codes "title") evt
    needs (is_text domain && truthy fl title) (draft_with evt meta (text_of domain) title)

  unfoldable pub normalize : Json fl.F → Option (Option (Item fl.F))
  normalize evt = do made ← draft evt; validate made
