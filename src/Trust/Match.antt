-- ===== src/Trust/Match.antt =====
-- services/trust/match.py: the record that backs a claim. The trigonometric functions of `math` and
-- str.casefold are parameters, and sets are lists.
pub mod Aligned
use pi_news_aggregator.Prelude.{
  ℕ, Bool, true, false, ◌&&◌, not, Option, none, some, List, [], ◌∷◌, Text, nonempty, share,
  list_eq, nat_eq, if◌then◌else◌,
}
use pi_news_aggregator.Floats.{Float}

pub record MatchCandidate (F : Type 0) : Type 0 where
  pub item_id : ℕ
  pub entity_texts : List Text
  pub lat : Option F
  pub lon : Option F

pub record Trigonometry (F : Type 0) : Type 0 where
  pub radians : F → F
  pub sin : F → F
  pub cos : F → F
  pub asin : F → F
  pub sqrt : F → F

-- {e.casefold() for e in claim_entities if e}
unfoldable pub fold_entities : (Text → Text) → List Text → List Text
fold_entities casefold [] = []
fold_entities casefold (e ∷ entities) =
    let rest = fold_entities casefold entities in if nonempty e then casefold e ∷ rest else rest

module _ (fl : Float) (trig : Trigonometry fl.F) where
  -- math.sin(x / 2) ** 2
  abbrev pub half_sin_squared : fl.F → fl.F
  half_sin_squared x = let s = trig.sin (fl.div x (fl.dec 2 0)) in fl.mul s s

  unfoldable pub haversine_km : fl.F → fl.F → fl.F → fl.F → fl.F
  haversine_km lat1 lon1 lat2 lon2 =
      let p1 = trig.radians lat1 in
      let p2 = trig.radians lat2 in
      let dp = trig.radians (fl.sub lat2 lat1) in
      let dl = trig.radians (fl.sub lon2 lon1) in
      let a =
        fl.add (half_sin_squared dp)
          (fl.mul (fl.mul (trig.cos p1) (trig.cos p2)) (half_sin_squared dl)) in
      fl.mul (fl.mul (fl.dec 2 0) (fl.dec 6371 0)) (trig.asin (trig.sqrt a))

  -- Both have a place, and these are more than GEO_KM_MAX apart.
  unfoldable pub too_far : fl.F → Option fl.F → Option fl.F → MatchCandidate fl.F → Bool
  too_far geo_km_max (some lat) (some lon) c = elim c.lat [
    | none ↦ false
    | some c_lat ↦ elim c.lon [
      | none ↦ false
      | some c_lon ↦ fl.ltb geo_km_max (haversine_km lat lon c_lat c_lon)
    ]
  ]
  too_far geo_km_max _ _ c = false

  -- The body of the loop does not go on to the next candidate.
  unfoldable pub backs : fl.F → List Text → Option fl.F → Option fl.F → MatchCandidate fl.F → Bool
  backs geo_km_max folded claim_lat claim_lon c =
      share folded c.entity_texts && not (too_far geo_km_max claim_lat claim_lon c)

  unfoldable pub first_backing :
      fl.F → List Text → Option fl.F → Option fl.F → List (MatchCandidate fl.F) → Option ℕ
  first_backing geo_km_max folded claim_lat claim_lon [] = none
  first_backing geo_km_max folded claim_lat claim_lon (c ∷ candidates) =
      if backs geo_km_max folded claim_lat claim_lon c
      then some c.item_id
      else first_backing geo_km_max folded claim_lat claim_lon candidates

  unfoldable pub find_primary_match :
      (Text → Text)
      → fl.F
      → List Text
      → Option fl.F
      → Option fl.F
      → List (MatchCandidate fl.F)
      → Option ℕ
  find_primary_match casefold geo_km_max claim_entities claim_lat claim_lon candidates =
      let folded = fold_entities casefold claim_entities in
      if nonempty folded
      then first_backing geo_km_max folded claim_lat claim_lon candidates
      else none
