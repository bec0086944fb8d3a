-- ===== src/Pipeline/Interleaved.antt =====
-- The same services, statement by statement: each statement of services/cluster/db.py commits on its
-- own, so those of the writer, of one cluster service and of the primary matcher interleave, and a handler
-- of the cluster service may raise between any two of its own.
pub mod Trust
pub mod Attached
use pi_news_aggregator.Prelude.{
  ℕ, Bool, true, false, ◌≡◌, Option, none, some, List, [], ◌∷◌, ◌++◌, Text,
}
use pi_news_aggregator.Floats.{Float}
use pi_news_aggregator.Schema.{Item, EnrichedItem, TallyFlush}
use pi_news_aggregator.Tables.{ItemRow, Beat, Tables}
use pi_news_aggregator.Tables.Items.{insert_item, story_prov}
use pi_news_aggregator.Tables.Stories.{
  create_story, touch_story, insert_edges, story_edges, story_state, update_trust,
  promote_primary_backed,
}
use pi_news_aggregator.Tables.Tallies.{insert_tallies, upsert_system_state}
use pi_news_aggregator.Trust.Edges.{ProvEdge, detect_edges}
use pi_news_aggregator.Trust.Origins.{independent_origins, distinct_origin_sources}
use pi_news_aggregator.Trust.States.{TrustState, next_state}
use pi_news_aggregator.Cluster.{entity_texts, in_story_primary_match}
use pi_news_aggregator.Cluster.Service.{
  Setup, Moment, prov_node, row_of, first_observed, source_classes, nodes_of, target_of, story_for,
  assigning,
}

-- Where Clusterer.handle stands between two of its statements, with what it has read.
pub data Phase (F : Type 0) : Type 0 where
  idle : Phase F
  -- choose_story has answered; assign_item is next.
  chosen : Moment → EnrichedItem F → Option ℕ → Phase F
  -- create_story is next.
  opening : Moment → EnrichedItem F → Phase F
  -- touch_story is next.
  joining : (story : ℕ) → EnrichedItem F → Phase F
  -- _update_trust: story_prov, insert_edges, story_edges, story_state and update_trust are next.
  gathering : (story new_item : ℕ) → Phase F
  detecting : (story new_item : ℕ) → List (ItemRow F) → Phase F
  linked : (story : ℕ) → List (ItemRow F) → Phase F
  counting : (story : ℕ) → List (ItemRow F) → List ProvEdge → Phase F
  deciding : (story : ℕ) → List (ItemRow F) → List ProvEdge → TrustState → Phase F

-- The new story whose row is not written yet.
abbrev pub unwritten : {F : Type 0} → Phase F → List ℕ
unwritten (opening m enriched) = m.new_id ∷ []
unwritten _ = []

pub record World (F : Type 0) : Type 0 where
  pub db : Tables F
  pub phase : Phase F
  -- The new stories of handlers that raised before they wrote the row.
  pub cut : List ℕ

module _ (fl : Float) (setup : Setup fl) where
  abbrev pub world : Tables fl.F → Phase fl.F → List ℕ → World fl.F
  world db phase cut = record { db = db; phase = phase; cut = cut }

  abbrev pub assigned : Moment → EnrichedItem fl.F → Option ℕ → Tables fl.F → Bool × Tables fl.F
  assigned m enriched target t = assigning fl setup enriched.item (story_for fl setup m target) t

  -- One statement, or an exception. The claim gate comes after the last statement and writes no table.
  pub data Step : World fl.F → World fl.F → Type 0 where
    -- The writer and the primary matcher, at any time
    stores :
        {t : Tables fl.F} {p : Phase fl.F} {cut : List ℕ} (item : Item fl.F) (embedding : List fl.F)
        (exploration : Bool)
        → Step (world t p cut) (world (insert_item item embedding exploration t) p cut)
    tallies :
        {t : Tables fl.F} {p : Phase fl.F} {cut : List ℕ} (flush : TallyFlush fl.F)
        → Step (world t p cut) (world (insert_tallies flush t) p cut)
    beats :
        {t : Tables fl.F} {p : Phase fl.F} {cut : List ℕ} (key : Text) (value : Beat fl.F)
        → Step (world t p cut) (world (upsert_system_state key value t) p cut)
    promotes :
        {t : Tables fl.F} {p : Phase fl.F} {cut : List ℕ} (story : ℕ)
        → Step (world t p cut) (world (promote_primary_backed story t) p cut)
    -- The cluster service
    chooses :
        {t : Tables fl.F} {cut : List ℕ} (m : Moment) (enriched : EnrichedItem fl.F)
        → Step
            (world t idle cut)
            (world t (chosen m enriched (target_of fl setup m enriched t)) cut)
    turns_away :
        {t : Tables fl.F} {cut : List ℕ} {m : Moment} {enriched : EnrichedItem fl.F}
        {target : Option ℕ}
        → (assigned m enriched target t).0 ≡ false
        → Step
            (world t (chosen m enriched target) cut)
            (world (assigned m enriched target t).1 idle cut)
    assigns_new :
        {t : Tables fl.F} {cut : List ℕ} {m : Moment} {enriched : EnrichedItem fl.F}
        → (assigned m enriched none t).0 ≡ true
        → Step
            (world t (chosen m enriched none) cut)
            (world (assigned m enriched none t).1 (opening m enriched) cut)
    assigns :
        {t : Tables fl.F} {cut : List ℕ} {m : Moment} {enriched : EnrichedItem fl.F} {story : ℕ}
        → (assigned m enriched (some story) t).0 ≡ true
        → Step
            (world t (chosen m enriched (some story)) cut)
            (world (assigned m enriched (some story) t).1 (joining story enriched) cut)
    creates :
        {t : Tables fl.F} {cut : List ℕ} {m : Moment} {enriched : EnrichedItem fl.F}
        → Step (world t (opening m enriched) cut) (
            world
              (create_story m.new_id enriched.item.ts_observed
                (entity_texts setup.casefold enriched.item.entities)
                enriched.item.source
                enriched.embedding
                t)
              idle
              cut)
    touches :
        {t : Tables fl.F} {cut : List ℕ} {story : ℕ} {enriched : EnrichedItem fl.F}
        → Step (world t (joining story enriched) cut) (
            world
              (touch_story story enriched.item.ts_observed enriched.item.source
                (entity_texts setup.casefold enriched.item.entities)
                t)
              (gathering story enriched.item.id)
              cut)
    gathers :
        {t : Tables fl.F} {cut : List ℕ} {story new_item : ℕ}
        → Step
            (world t (gathering story new_item) cut)
            (world t (detecting story new_item (story_prov story t.items)) cut)
    unseen :
        {t : Tables fl.F} {cut : List ℕ} {story new_item : ℕ} {rows : List (ItemRow fl.F)}
        → row_of new_item rows ≡ none
        → Step (world t (detecting story new_item rows) cut) (world t idle cut)
    links :
        {t : Tables fl.F} {cut : List ℕ} {story new_item ts : ℕ} {rows : List (ItemRow fl.F)}
        {row : ItemRow fl.F}
        → row_of new_item rows ≡ some row
        → first_observed new_item rows ≡ some ts
        → Step (world t (detecting story new_item rows) cut) (
            world
              (insert_edges story
                (detect_edges (prov_node setup.urllib row) (nodes_of fl setup rows))
                ts
                t)
              (linked story rows)
              cut)
    reads_edges :
        {t : Tables fl.F} {cut : List ℕ} {story : ℕ} {rows : List (ItemRow fl.F)}
        → Step
            (world t (linked story rows) cut)
            (world t (counting story rows (story_edges story t)) cut)
    reads_state :
        {t : Tables fl.F} {cut : List ℕ} {story : ℕ} {rows : List (ItemRow fl.F)}
        {edges : List ProvEdge}
        → Step
            (world t (counting story rows edges) cut)
            (world t (deciding story rows edges (story_state story t)) cut)
    decides :
        {t : Tables fl.F} {cut : List ℕ} {story : ℕ} {rows : List (ItemRow fl.F)}
        {edges : List ProvEdge} {read : TrustState} (origins n_sources : ℕ)
        → independent_origins (nodes_of fl setup rows) edges ≡ some origins
        → distinct_origin_sources (nodes_of fl setup rows) edges ≡ some n_sources
        → Step (world t (deciding story rows edges read) cut) (
            world
              (update_trust story origins
                (next_state read origins n_sources
                  (in_story_primary_match (source_classes rows))
                  setup.corroboration_n
                  setup.corroboration_sources)
                t)
              idle
              cut)
    raises :
        {t : Tables fl.F} {p : Phase fl.F} {cut : List ℕ}
        → Step (world t p cut) (world t idle (unwritten p ++ cut))

  -- Any number of steps.
  pub data Run : World fl.F → World fl.F → Type 0 where
    done : {w : World fl.F} → Run w w
    more : {w w' w'' : World fl.F} → Step w w' → Run w' w'' → Run w w''
