-- ===== src/Cluster/Service.antt =====
-- services/cluster/main.py, Clusterer, over the tables of services/cluster/db.py. An array is a list,
-- and JSON columns hold their values.
pub mod Evidence
pub mod Errors
pub mod Targets
use pi_news_aggregator.Prelude.{
  ℕ, suc, ◌-◌, ◌*◌, ◌^◌, Bool, true, false, ◌==◌, nat_eq, list_eq, ℤ, pos, Option, none, some, List,
  [], ◌∷◌, ◌++◌, map, Text, codes, nonempty, contains, length, ◌>>=◌, if◌then◌else◌,
}
use pi_news_aggregator.Floats.{Float}
use pi_news_aggregator.Schema.{Item, EnrichedItem, ClaimRequest, class_value, max_len, max_text_len}
use pi_news_aggregator.Bus.{Reply, Bytes, ScopedPublisher, Published, sent, Log, publish}
use pi_news_aggregator.Dedup.Simhash.{simhash64, to_signed64, from_signed64}
use pi_news_aggregator.Trust.Urls.{Urllib, canonical_url}
use pi_news_aggregator.Trust.Edges.{ProvNode, ProvEdge, detect_edges}
use pi_news_aggregator.Trust.Origins.{independent_origins, distinct_origin_sources}
use pi_news_aggregator.Trust.States.{TrustState, next_state}
use pi_news_aggregator.Trust.Wire.{wire_ref}
use pi_news_aggregator.Cluster.{
  Neighbor, entity_texts, choose_story, is_candidate, in_story_primary_match,
}
use pi_news_aggregator.Tables.{ItemRow, Tables}
use pi_news_aggregator.Tables.Items.{nearest, assign_item, story_prov}
use pi_news_aggregator.Tables.Stories.{
  create_story, touch_story, insert_edges, story_edges, story_state, update_trust,
}

-- What the service takes from outside: the pgvector distance, str.casefold, the words of a text, a
-- digest, word characters, urllib, JSON, and its constants.
pub record Setup (fl : Float) : Type 0 where
  pub distance : List fl.F → List fl.F → fl.F
  pub casefold : Text → Text
  pub words_of : Text → List Text
  pub h64 : Text → ℕ
  pub is_word : ℕ → Bool
  pub urllib : Urllib
  pub to_json : ClaimRequest → Bytes
  pub publisher : ScopedPublisher
  pub theta : fl.F
  pub window : ℕ
  pub topk : ℕ
  pub corroboration_n : ℕ
  pub corroboration_sources : ℕ

pub record Clusterer (F : Type 0) : Type 0 where
  pub assigned : ℕ
  pub new_stories : ℕ
  pub claims : ℕ
  pub db : Tables F
  -- What the broker holds.
  pub log : Log

-- The clock, uuid4() and the broker's answer in one call.
pub record Moment : Type 0 where
  pub now : ℕ
  pub new_id : ℕ
  pub reply : Reply

-- set(filter(None, (canonical_url(u) for u in urls)))
unfoldable pub canonical_urls : Urllib → List Text → List Text
unfolding canonical_url
canonical_urls lib [] = []
canonical_urls lib (u ∷ urls) =
    let rest = canonical_urls lib urls in
    if nonempty (canonical_url lib u) then canonical_url lib u ∷ rest else rest

abbrev pub unsigned_or_zero : Option ℤ → ℕ
unsigned_or_zero none = 0
unsigned_or_zero (some v) = from_signed64 v

unfoldable pub prov_node : {F : Type 0} → Urllib → ItemRow F → ProvNode
unfolding canonical_urls
prov_node lib row = record {
  item_id = row.item.id;
  author_ref = row.item.author_ref;
  parent_ref = row.item.parent_ref;
  content_hash = row.item.content_hash;
  urls = canonical_urls lib row.item.urls;
  simhash = unsigned_or_zero row.simhash;
  source = row.item.source;
  source_class = class_value row.item.source_class;
  wire_ref = row.wire_ref;
}

-- by_id.get(id): the last of the rows with the id
unfoldable pub row_of : {F : Type 0} → ℕ → List (ItemRow F) → Option (ItemRow F)
row_of id [] = none
row_of id (r ∷ rows) =
    let rest = row_of id rows in
    elim rest [ some s ↦ some s | none ↦ if r.item.id == id then some r else none ]

-- next(r["ts_observed"] for r in rows if r["id"] == id)
unfoldable pub first_observed : {F : Type 0} → ℕ → List (ItemRow F) → Option ℕ
first_observed id [] = none
first_observed id (r ∷ rows) =
    if r.item.id == id then some r.item.ts_observed else first_observed id rows

unfoldable pub source_classes : {F : Type 0} → List (ItemRow F) → List Text
source_classes [] = []
source_classes (r ∷ rows) = class_value r.item.source_class ∷ source_classes rows

module _ (fl : Float) (setup : Setup fl) where
  unfoldable pub neighbor : List fl.F → ItemRow fl.F → List (Neighbor fl.F)
  neighbor vec row = elim row.story_id [
    | none ↦ []
    | some story ↦
        record {
          story_id = story;
          similarity = fl.sub (fl.dec 1 0) (setup.distance row.embedding vec);
          entity_texts = entity_texts setup.casefold row.item.entities;
        }
        ∷ []
  ]

  -- _neighbors; each row has a story.
  unfoldable pub neighbors : List fl.F → List (ItemRow fl.F) → List (Neighbor fl.F)
  unfolding neighbor
  neighbors vec [] = []
  neighbors vec (r ∷ rows) = neighbor vec r ++ neighbors vec rows

  unfoldable pub nodes_of : List (ItemRow fl.F) → List ProvNode
  nodes_of rows = map (prov_node setup.urllib) rows

  -- The end of _update_trust, with the edges stored: `none` is a KeyError.
  unfoldable pub recount : ℕ → List (ItemRow fl.F) → Tables fl.F → Option (ℕ × Tables fl.F)
  recount story rows db = do
    origins ← independent_origins (nodes_of rows) (story_edges story db)
    n_sources ← distinct_origin_sources (nodes_of rows) (story_edges story db)
    some (
      origins,
      update_trust story origins
          (next_state (story_state story db) origins n_sources
            (in_story_primary_match (source_classes rows)) setup.corroboration_n
            setup.corroboration_sources)
          db,
    )

  -- The part of _update_trust for a member that is visible.
  unfoldable pub update_member :
      ℕ → ℕ → List (ItemRow fl.F) → ItemRow fl.F → Tables fl.F → Option (ℕ × Tables fl.F)
  update_member story new_item rows row db = do
    ts ← first_observed new_item rows
    recount story rows
        (insert_edges story (detect_edges (prov_node setup.urllib row) (nodes_of rows)) ts db)

  -- _update_trust, with the origins that it returns
  unfoldable pub update_story : ℕ → ℕ → Tables fl.F → Option (ℕ × Tables fl.F)
  update_story story new_item db =
      let rows = story_prov story db.items in
      elim (row_of new_item rows) [
        | none ↦ some (length rows, db)
        | some row ↦ update_member story new_item rows row db
      ]

  -- After the story is written: the claim gate. `true` is a return of `handle`, `false` a raise.
  unfoldable pub queue_claim : Published × Log → Clusterer fl.F → Bool × Clusterer fl.F
  queue_claim (sent, log) s = (true, record s { claims = suc s.claims; log = log })
  queue_claim (_, log) s = (false, record s { log = log })

  unfoldable pub claim_gate : Reply → ℕ → ClaimRequest → Clusterer fl.F → Bool × Clusterer fl.F
  unfolding queue_claim
  claim_gate reply origins req s =
      if is_candidate origins 2
      then (if max_len max_text_len req.text
          then queue_claim
              (publish setup.publisher reply (codes "llm.heavy") (setup.to_json req) s.log) s
          else (false, s))
      else (true, s)

  abbrev pub request : ℕ → Item fl.F → ClaimRequest
  request story item = record { story_id = story; item_id = item.id; text = item.text }

  -- `db` is what the assignment left.
  unfoldable pub open_story :
      Moment → EnrichedItem fl.F → Tables fl.F → Clusterer fl.F → Bool × Clusterer fl.F
  open_story m enriched db s =
      let item = enriched.item in
      claim_gate m.reply 1 (request m.new_id item) (record s {
        assigned = suc s.assigned;
        new_stories = suc s.new_stories;
        db =
            create_story m.new_id item.ts_observed (entity_texts setup.casefold item.entities)
              item.source enriched.embedding db;
      })

  -- After _update_trust.
  unfoldable pub joined_story :
      Reply
      → ℕ
      → Item fl.F
      → Tables fl.F
      → Option (ℕ × Tables fl.F)
      → Clusterer fl.F
      → Bool × Clusterer fl.F
  joined_story reply story item db none s = (false, record s { db = db })
  joined_story reply story item db (some (origins, db')) s =
      claim_gate reply origins (request story item)
        (record s { assigned = suc s.assigned; db = db' })

  unfoldable pub join_story :
      Moment → EnrichedItem fl.F → ℕ → Tables fl.F → Clusterer fl.F → Bool × Clusterer fl.F
  join_story m enriched story db s =
      let item = enriched.item in
      let touched =
        touch_story story item.ts_observed item.source (entity_texts setup.casefold item.entities)
          db in
      joined_story m.reply story item touched (update_story story item.id touched) s

  -- The story to join, if there is one.
  unfoldable pub target_of : Moment → EnrichedItem fl.F → Tables fl.F → Option ℕ
  target_of m enriched db =
      choose_story fl setup.casefold (entity_texts setup.casefold enriched.item.entities)
        (neighbors enriched.embedding (
          nearest fl setup.distance enriched.embedding (m.now - setup.window) enriched.item.id
            setup.topk db.items))
        setup.theta

  -- target or uuid4()
  abbrev pub story_for : Moment → Option ℕ → ℕ
  story_for m none = m.new_id
  story_for m (some story) = story

  abbrev pub assigning : Item fl.F → ℕ → Tables fl.F → Bool × Tables fl.F
  assigning item story db =
      assign_item item.id item.ts_observed story
        (to_signed64 (simhash64 setup.h64 (setup.words_of item.text)))
        (wire_ref setup.is_word item.text) db

  unfoldable pub place :
      Moment
      → EnrichedItem fl.F
      → Option ℕ
      → Bool × Tables fl.F
      → Clusterer fl.F
      → Bool × Clusterer fl.F
  place m enriched target (false, db) s = (false, record s { db = db })
  place m enriched none (true, db) s = open_story m enriched db s
  place m enriched (some story) (true, db) s = join_story m enriched story db s

  unfoldable pub handle : Moment → EnrichedItem fl.F → Clusterer fl.F → Bool × Clusterer fl.F
  handle m enriched s =
      let target = target_of m enriched s.db in
      place m enriched target (assigning enriched.item (story_for m target) s.db) s
