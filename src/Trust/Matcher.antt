-- ===== src/Trust/Matcher.antt =====
-- services/trust/main.py, PrimaryMatcher, over the tables. str.casefold, lower() of the database, the
-- white space that str.strip removes, and the trigonometric functions are parameters.
pub mod Promoting
use pi_news_aggregator.Prelude.{
  ℕ, suc, Bool, true, false, ◌&&◌, not, ◌==◌, nat_eq, Option, none, some, List, [], ◌∷◌, map, Text,
  nonempty, if◌then◌else◌,
}
use pi_news_aggregator.Floats.{Float}
use pi_news_aggregator.Schema.{Geo, Entity, ClaimResult, SourceClass, social}
use pi_news_aggregator.Tables.{ItemRow, Tables}
use pi_news_aggregator.Tables.Items.{claim_item, primary_candidates}
use pi_news_aggregator.Tables.Stories.{sorted_set, promote_primary_backed}
use pi_news_aggregator.Cluster.{entity_texts}
use pi_news_aggregator.Trust.Match.{MatchCandidate, Trigonometry, find_primary_match}

pub record Matching (fl : Float) : Type 0 where
  pub casefold : Text → Text
  pub lower : Text → Text
  pub is_space : ℕ → Bool
  pub trig : Trigonometry fl.F
  pub geo_km_max : fl.F
  pub window : ℕ
  pub candidate_limit : ℕ

pub record PrimaryMatcher (F : Type 0) : Type 0 where
  pub matched : ℕ
  pub seen : ℕ
  pub db : Tables F

-- bool(text.strip())
unfoldable pub has_words : (ℕ → Bool) → Text → Bool
has_words is_space [] = false
has_words is_space (c ∷ cs) = if is_space c then has_words is_space cs else true

unfoldable pub drop_empty : List Text → List Text
drop_empty [] = []
drop_empty (t ∷ ts) = let rest = drop_empty ts in if nonempty t then t ∷ rest else rest

abbrev pub is_social : SourceClass → Bool
is_social social = true
is_social _ = false

module _ {F : Type 0} where
  -- _entity_texts
  unfoldable pub texts_of : (Text → Text) → List (Entity F) → List Text
  texts_of casefold entities = sorted_set (drop_empty (entity_texts casefold entities))

  abbrev pub lat_of : Option (Geo F) → Option F
  lat_of none = none
  lat_of (some g) = some g.lat

  abbrev pub lon_of : Option (Geo F) → Option F
  lon_of none = none
  lon_of (some g) = some g.lon

  unfoldable pub candidate : (Text → Text) → ItemRow F → MatchCandidate F
  candidate casefold r = record {
    item_id = r.item.id;
    entity_texts = texts_of casefold r.item.entities;
    lat = lat_of r.item.geo;
    lon = lon_of r.item.geo;
  }

  unfoldable pub is_member : ℕ → ItemRow F → Bool
  is_member story r = elim r.story_id [ none ↦ false | some s ↦ s == story ]

module _ (fl : Float) (setup : Matching fl) where
  -- The record that backs the item, among the candidates in the tables
  unfoldable pub record_for : ItemRow fl.F → Tables fl.F → Option ℕ
  record_for row db =
      let entities = texts_of setup.casefold row.item.entities in
      if nonempty entities
      then find_primary_match fl setup.trig setup.casefold setup.geo_km_max entities
          (lat_of row.item.geo) (lon_of row.item.geo)
          (map (candidate setup.casefold) (
            primary_candidates setup.lower row.item.ts_observed setup.window entities
              setup.candidate_limit db.items))
      else none

  -- What the claim asks of the row of its item.
  unfoldable pub admits : ClaimResult → ItemRow fl.F → Bool
  admits claim row = is_member claim.story_id row && is_social row.item.source_class

  unfoldable pub found_for : ClaimResult → Option (ItemRow fl.F) → Tables fl.F → Option ℕ
  found_for claim none db = none
  found_for claim (some row) db = if admits claim row then record_for row db else none

  unfoldable pub promoted : ℕ → Option ℕ → PrimaryMatcher fl.F → PrimaryMatcher fl.F
  promoted story none s = s
  promoted story (some id) s = record s {
    matched = suc s.matched;
    db = promote_primary_backed story s.db;
  }

  unfoldable pub handle : ClaimResult → PrimaryMatcher fl.F → PrimaryMatcher fl.F
  handle claim s =
      let counted : PrimaryMatcher fl.F = record s { seen = suc s.seen } in
      if has_words setup.is_space claim.claim
      then promoted claim.story_id (found_for claim (claim_item claim.item_id s.db.items) s.db)
          counted
      else counted
