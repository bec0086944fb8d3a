-- ===== src/Cluster.antt =====
-- services/cluster/cluster.py: which story an item joins. str.casefold is a parameter, sets are
-- lists, and a similarity is a float.
pub mod Choice
pub mod Service
use pi_news_aggregator.Prelude.{
  ℕ, Bool, true, false, ◌&&◌, leb, Option, none, some, List, [], ◌∷◌, Text, codes, map, nonempty,
  share, contains, if◌then◌else◌, list_eq, nat_eq,
}
use pi_news_aggregator.Floats.{Float}
use pi_news_aggregator.Schema.{Entity}

pub record Neighbor (F : Type 0) : Type 0 where
  pub story_id : ℕ
  pub similarity : F
  pub entity_texts : List Text

unfoldable pub entity_texts : {F : Type 0} → (Text → Text) → List (Entity F) → List Text
entity_texts casefold [] = []
entity_texts casefold (e ∷ entities) = casefold e.text ∷ entity_texts casefold entities

-- The test of the loop.
unfoldable pub joins : (fl : Float) → List Text → fl.F → Neighbor fl.F → Bool
joins fl folded theta n = fl.leb theta n.similarity && share folded n.entity_texts

-- for n in neighbors
unfoldable pub nearest_joining : (fl : Float) → List Text → fl.F → List (Neighbor fl.F) → Option ℕ
unfolding joins
nearest_joining fl folded theta [] = none
nearest_joining fl folded theta (n ∷ neighbors) =
    if joins fl folded theta n then some n.story_id else nearest_joining fl folded theta neighbors

unfoldable pub choose_story :
    (fl : Float) → (Text → Text) → List Text → List (Neighbor fl.F) → fl.F → Option ℕ
choose_story fl casefold new_entities neighbors theta =
    let folded = map casefold new_entities in
    if nonempty folded then nearest_joining fl folded theta neighbors else none

unfoldable pub is_candidate : ℕ → ℕ → Bool
is_candidate independent_origins threshold = leb threshold independent_origins

-- "social" in classes and bool(classes & {"authoritative", "primary"})
unfoldable pub in_story_primary_match : List Text → Bool
in_story_primary_match source_classes =
    contains (codes "social") source_classes
    && share source_classes (codes "authoritative" ∷ codes "primary" ∷ [])
