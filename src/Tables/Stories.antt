-- ===== src/Tables/Stories.antt =====
-- services/cluster/db.py and services/trust/db.py: the statements on `stories` and
-- `provenance_edges`.
use pi_news_aggregator.Prelude.{
  ℕ, Bool, true, false, ◌&&◌, ◌||◌, max, ◌==◌, nat_eq, list_eq, Option, none, some, List, [], ◌∷◌,
  ◌++◌, Text, text_leb, if◌then◌else◌,
}
use pi_news_aggregator.Trust.Edges.{EdgeType, ref, copy, url, author, ProvEdge}
use pi_news_aggregator.Trust.States.{TrustState, rumor, primary_backed}
use package.pi_news_aggregator.Tables.{StoryRow, EdgeRow, Tables}

abbrev pub edge_type_beq : EdgeType → EdgeType → Bool
edge_type_beq ref ref = true
edge_type_beq copy copy = true
edge_type_beq url url = true
edge_type_beq author author = true
edge_type_beq _ _ = false

-- sorted(…) of a set: in the order of code points, each once
unfoldable pub insert_sorted : Text → List Text → List Text
insert_sorted x [] = x ∷ []
insert_sorted x (y ∷ ys) =
    let rest = insert_sorted x ys in
    if x == y then y ∷ ys else if text_leb x y then x ∷ y ∷ ys else y ∷ rest

unfoldable pub sorted_set : List Text → List Text
unfolding insert_sorted
sorted_set [] = []
sorted_set (x ∷ xs) = insert_sorted x (sorted_set xs)

-- The primary key of an edge is all of its columns.
unfoldable pub has_edge : EdgeRow → List EdgeRow → Bool
has_edge e [] = false
has_edge e (r ∷ rows) =
    (r.story_id == e.story_id
      && (r.src_item == e.src_item
          && (r.dst_item == e.dst_item
              && (edge_type_beq r.edge_type e.edge_type && r.ts_observed == e.ts_observed))))
    || has_edge e rows

-- _INSERT_EDGE, for each edge
unfoldable pub insert_edge_rows : ℕ → ℕ → List ProvEdge → List EdgeRow → List EdgeRow
unfolding has_edge
insert_edge_rows story ts [] rows = rows
insert_edge_rows story ts (e ∷ edges) rows =
    let row : EdgeRow = record {
      story_id = story;
      src_item = e.src;
      dst_item = e.dst;
      edge_type = e.edge_type;
      ts_observed = ts;
    } in
    insert_edge_rows story ts edges (if has_edge row rows then rows else rows ++ row ∷ [])

-- _STORY_EDGES, each as ProvEdge(src, dst, EdgeType(…))
unfoldable pub edges_of : ℕ → List EdgeRow → List ProvEdge
edges_of story [] = []
edges_of story (r ∷ rows) =
    let rest = edges_of story rows in
    if r.story_id == story
    then record { src = r.src_item; dst = r.dst_item; edge_type = r.edge_type } ∷ rest
    else rest

-- The statements that change rows of `stories`.
pub data StoryChange : Type 0 where
  -- UPDATE … SET last_seen, source_set, entity_set
  touch : (last_seen : ℕ) → (source_set entity_set : List Text) → StoryChange
  -- UPDATE … SET independent_origins, trust_state
  set_trust : (origins : ℕ) → TrustState → StoryChange
  -- _PROMOTE
  promote : StoryChange

module _ {F : Type 0} where
  -- The primary key of a story is (id, first_seen).
  unfoldable pub has_story : ℕ → ℕ → List (StoryRow F) → Bool
  has_story id ts [] = false
  has_story id ts (s ∷ stories) = (s.id == id && s.first_seen == ts) || has_story id ts stories

  -- _CREATE_STORY
  unfoldable pub create_story : ℕ → ℕ → List Text → Text → List F → Tables F → Tables F
  unfolding has_story sorted_set
  create_story id first_seen entity_set source centroid t =
      if has_story id first_seen t.stories then t else record t {
        stories =
            t.stories
            ++ record {
              id = id;
              first_seen = first_seen;
              last_seen = first_seen;
              entity_set = sorted_set entity_set;
              source_set = source ∷ [];
              independent_origins = 1;
              trust_state = rumor;
              centroid = centroid;
            }
              ∷ [];
      }

  -- SELECT … WHERE id = $1 LIMIT 1
  unfoldable pub find_story : ℕ → List (StoryRow F) → Option (StoryRow F)
  find_story id [] = none
  find_story id (s ∷ stories) = if s.id == id then some s else find_story id stories

  unfoldable pub change_row : StoryChange → StoryRow F → StoryRow F
  change_row (touch last_seen source_set entity_set) s = record s {
    last_seen = max s.last_seen last_seen;
    source_set = source_set;
    entity_set = entity_set;
  }
  change_row (set_trust origins state) s = record s {
    independent_origins = origins;
    trust_state = state;
  }
  change_row promote s = record s { trust_state = primary_backed }

  -- UPDATE stories SET … WHERE id = $1
  unfoldable pub update_stories : ℕ → StoryChange → List (StoryRow F) → List (StoryRow F)
  unfolding change_row
  update_stories id change [] = []
  update_stories id change (s ∷ stories) =
      (if s.id == id then change_row change s else s) ∷ update_stories id change stories

  unfoldable pub touched :
      ℕ → ℕ → Text → List Text → Option (StoryRow F) → List (StoryRow F) → List (StoryRow F)
  unfolding sorted_set
  touched id last_seen source entity_set none stories = stories
  touched id last_seen source entity_set (some row) stories =
      update_stories id
        (touch last_seen (sorted_set (source ∷ row.source_set))
          (sorted_set (entity_set ++ row.entity_set)))
        stories

  unfoldable pub touch_story : ℕ → ℕ → Text → List Text → Tables F → Tables F
  unfolding touched find_story
  touch_story id last_seen source entity_set t = record t {
    stories = touched id last_seen source entity_set (find_story id t.stories) t.stories;
  }

  -- _UPDATE_TRUST
  unfoldable pub update_trust : ℕ → ℕ → TrustState → Tables F → Tables F
  update_trust id origins state t = record t {
    stories = update_stories id (set_trust origins state) t.stories;
  }

  unfoldable pub promote_primary_backed : ℕ → Tables F → Tables F
  promote_primary_backed id t = record t { stories = update_stories id promote t.stories }

  -- row["trust_state"] if row else "rumor"
  unfoldable pub state_of : Option (StoryRow F) → TrustState
  state_of none = rumor
  state_of (some s) = s.trust_state

  unfoldable pub story_state : ℕ → Tables F → TrustState
  unfolding state_of find_story
  story_state id t = state_of (find_story id t.stories)

  unfoldable pub insert_edges : ℕ → List ProvEdge → ℕ → Tables F → Tables F
  unfolding insert_edge_rows
  insert_edges story edges ts t = record t {
    provenance_edges = insert_edge_rows story ts edges t.provenance_edges;
  }

  unfoldable pub story_edges : ℕ → Tables F → List ProvEdge
  unfolding edges_of
  story_edges story t = edges_of story t.provenance_edges
