-- ===== src/Gazetteer.antt =====
-- libs/gazetteer/matcher.py. `str.lower` is a parameter; the words of `[a-z0-9]+` are computed.
pub mod Longest
use pi_news_aggregator.Prelude.{
  ℕ, zero, suc, ◌+◌, ◌-◌, min, max, Bool, true, false, ◌&&◌, ◌||◌, leb, Option, none, some, List,
  [], ◌∷◌, ◌++◌, map, Text, Dict, get, keys, length, take, drop, nat_eq, list_eq, ◌>>=◌,
  if◌then◌else◌, longest_of,
}
use pi_news_aggregator.Floats.{Float}
use pi_news_aggregator.Schema.{Entity, EntityType, Geo}

pub record GazEntry (F : Type 0) : Type 0 where
  pub canonical : Text
  pub type : EntityType
  pub lat : Option F
  pub lon : Option F

-- [a-z0-9]
abbrev pub is_token_char : ℕ → Bool
is_token_char c = (leb b'a' c && leb c b'z') || (leb b'0' c && leb c b'9')

-- The characters of the word being read, before the rest of the text.
unfoldable pub words_from : Text → Text → List Text
words_from [] [] = []
words_from (w ∷ ws) [] = (w ∷ ws) ∷ []
words_from [] (c ∷ cs) = words_from (if is_token_char c then c ∷ [] else []) cs
words_from (w ∷ ws) (c ∷ cs) =
    let rest = words_from [] cs in
    let longer = words_from (w ∷ ws ++ c ∷ []) cs in
    if is_token_char c then longer else (w ∷ ws) ∷ rest

-- _WORD.findall(text)
unfoldable pub words : Text → List Text
unfolding words_from
words text = words_from [] text

-- " ".join(tokens)
unfoldable pub join : List Text → Text
join [] = []
join (t ∷ []) = t
join (t ∷ u ∷ ts) = t ++ b' ' ∷ join (u ∷ ts)

-- len(p.split()): the runs of characters that are not white space (a parameter)
unfoldable pub count_words : (ℕ → Bool) → Bool → Text → ℕ
count_words is_space inside [] = 0
count_words is_space inside (c ∷ cs) =
    (if is_space c || inside then 0 else 1)
    + count_words is_space (if is_space c then false else true) cs

unfoldable pub max_words : (ℕ → Bool) → List Text → ℕ
unfolding count_words
max_words is_space [] = 0
max_words is_space (p ∷ ps) = max (count_words is_space false p) (max_words is_space ps)

module _ (fl : Float) where
  -- Entity(text=…, type=…, geo=…): `none` is a ValidationError.
  unfoldable pub check_geo : fl.F → fl.F → Option (Geo fl.F)
  check_geo lat lon =
      if fl.leb (fl.neg (fl.dec 90 0)) lat
        && (fl.leb lat (fl.dec 90 0)
            && (fl.leb (fl.neg (fl.dec 180 0)) lon && fl.leb lon (fl.dec 180 0)))
      then some (record { lat = lat; lon = lon; geohash = none })
      else none

  unfoldable pub to_geo : Option fl.F → Option fl.F → Option (Option (Geo fl.F))
  unfolding check_geo
  to_geo (some lat) (some lon) = do g ← check_geo lat lon; some (some g)
  to_geo _ _ = some none

  unfoldable pub to_entity : GazEntry fl.F → Option (Entity fl.F)
  unfolding to_geo
  to_entity e = do
    g ← to_geo e.lat e.lon
    (if leb (length e.canonical) 256
        then some (record { text = e.canonical; type = e.type; geo = g })
        else none)

  pub record Gazetteer : Type 0 where
    pub gaz : Dict Text (GazEntry fl.F)
    pub max_words : ℕ

  unfoldable pub make_gazetteer : (ℕ → Bool) → Dict Text (GazEntry fl.F) → Gazetteer
  unfolding max_words
  make_gazetteer is_space entries = record {
    gaz = entries;
    max_words = if leb 1 (length entries) then max_words is_space (keys entries) else 1;
  }

  -- What the dictionary has for the first `n` words.
  unfoldable pub phrase : Dict Text (GazEntry fl.F) → List Text → ℕ → Option (GazEntry fl.F)
  phrase gaz tokens n = get (join (take n tokens)) gaz

  -- The `for` loop: the longest phrase of at most `limit` words that the tokens begin with.
  unfoldable pub longest : Dict Text (GazEntry fl.F) → ℕ → List Text → Option (GazEntry fl.F × ℕ)
  longest gaz limit tokens = longest_of (phrase gaz tokens) limit

  -- The `while` loop over the tokens that are left. The fuel is their number.
  unfoldable pub match_loop : Gazetteer → ℕ → List Text → Option (List (Entity fl.F))
  match_loop g fuel [] = some []
  match_loop g zero (t ∷ ts) = none
  match_loop g (suc fuel) (t ∷ ts) =
      elim (longest g.gaz (min g.max_words (length (t ∷ ts))) (t ∷ ts)) [
        | some (entry, step) ↦ do
          hit ← to_entity entry
          hits ← match_loop g fuel (drop step (t ∷ ts))
          some (hit ∷ hits)
        | none ↦ match_loop g fuel ts
      ]

  unfoldable pub match : (Text → Text) → Gazetteer → Text → Option (List (Entity fl.F))
  unfolding match_loop words
  match lower g text = let tokens = words (lower text) in match_loop g (length tokens) tokens
