-- ===== src/Cluster/Service/Evidence.antt =====
-- services/cluster/main.py, _update_trust: the evidence that is stored with a story.
use pi_news_aggregator.Prelude.{
  ℕ, ◌≡◌, refl, ◌∙◌, false, ◌==◌, nat_eq, ==_refl, Bool-cases, Option-cases, inl, inr, Option, none,
  some, List, [], ◌∷◌, length, ◌>>=◌, if◌then◌else◌,
}
use pi_news_aggregator.Floats.{Float}
use pi_news_aggregator.Trust.Edges.{detect_edges}
use pi_news_aggregator.Trust.Origins.Counting.{Counts, independent_origins-Counts}
use pi_news_aggregator.Trust.Origins.Sources.{SourceCount, distinct_origin_sources-SourceCount}
use pi_news_aggregator.Trust.States.{TrustState, next_state}
use pi_news_aggregator.Cluster.{in_story_primary_match}
use pi_news_aggregator.Tables.{ItemRow, StoryRow, Tables}
use pi_news_aggregator.Tables.Items.{story_prov}
use pi_news_aggregator.Tables.Stories.{
  find_story, change_row, set_trust, update_trust, insert_edges, story_edges, story_state,
}
use pi_news_aggregator.Tables.Statements.Ranks.{find-update_stories}
use package.pi_news_aggregator.Cluster.Service.{
  Setup, prov_node, row_of, first_observed, source_classes, nodes_of, recount, update_member,
  update_story,
}

first_observed-row_of :
    {F : Type 0} (id : ℕ) (rows : List (ItemRow F)) (r : ItemRow F)
    → row_of id rows ≡ some r
    → (ts : ℕ) × (first_observed id rows ≡ some ts)
unfolding row_of first_observed
first_observed-row_of id [] r h = cc
first_observed-row_of id (s ∷ rows) r h = elim (Bool-cases (s.item.id == id)) [
  | inl t ↦ (s.item.ts_observed, rw t refl)
  | inr f ↦ elim (Option-cases (row_of id rows)) [
    | inl q ↦ absurd (nothing q f h)
    | inr (x, q) ↦ let (ts, e) = first_observed-row_of id rows x q in (ts, rw f e)
  ]
]
  where
    nothing :
        row_of id rows ≡ none
        → (s.item.id == id) ≡ false
        → elim (row_of id rows) [
          | some x ↦ some x
          | none ↦ if s.item.id == id then some s else none
        ]
          ≡ some r
        → ⊥
    nothing q f e = cc (rw (q, f) at e)

module _ (fl : Float) (setup : Setup fl) where
  -- The state that the evidence implies, from what is stored.
  abbrev pub implied : ℕ → List (ItemRow fl.F) → ℕ → ℕ → Tables fl.F → TrustState
  implied story rows origins sources db =
      next_state (story_state story db) origins sources
        (in_story_primary_match (source_classes rows)) setup.corroboration_n
        setup.corroboration_sources

  pub record Recounted (story : ℕ) (rows : List (ItemRow fl.F)) (db : Tables fl.F) : Type 0 where
    pub origins : ℕ
    pub counts : Counts (nodes_of fl setup rows) (story_edges story db) origins
    pub sources : SourceCount (nodes_of fl setup rows) (story_edges story db)
    pub returned :
        recount fl setup story rows db
        ≡ some (
          origins,
          update_trust story origins (implied story rows origins (length sources.sources) db) db,
        )

  pub recount-Recounted :
      (story : ℕ) (rows : List (ItemRow fl.F)) (db : Tables fl.F) → Recounted story rows db
  unfolding recount
  recount-Recounted story rows db =
      let (n, run, c) =
        independent_origins-Counts (nodes_of fl setup rows) (story_edges story db) in
      let s = distinct_origin_sources-SourceCount (nodes_of fl setup rows) (story_edges story db) in
      record { origins = n; counts = c; sources = s; returned = rw (run, s.counted, ◌>>=◌) refl }

  -- The tables with the edges of the new member.
  abbrev pub with_edges : ℕ → List (ItemRow fl.F) → ItemRow fl.F → ℕ → Tables fl.F → Tables fl.F
  with_edges story rows row ts db =
      insert_edges story (detect_edges (prov_node setup.urllib row) (nodes_of fl setup rows)) ts db

  pub record Updated (story new_item : ℕ) (row : ItemRow fl.F) (db : Tables fl.F) : Type 0 where
    pub ts : ℕ
    pub observed : first_observed new_item (story_prov story db.items) ≡ some ts
    pub recounted :
        Recounted story
          (story_prov story db.items)
          (with_edges story (story_prov story db.items) row ts db)
    pub returned :
        update_story fl setup story new_item db
        ≡ recount fl setup story
            (story_prov story db.items)
            (with_edges story (story_prov story db.items) row ts db)

  visible :
      (story new_item : ℕ) (row : ItemRow fl.F) (db : Tables fl.F)
      → row_of new_item (story_prov story db.items) ≡ some row
      → update_story fl setup story new_item db
        ≡ update_member fl setup story new_item (story_prov story db.items) row db
  unfolding update_story
  visible story new_item row db h = rw (h, update_story) refl

  pub update_story-Updated :
      (story new_item : ℕ) (row : ItemRow fl.F) (db : Tables fl.F)
      → row_of new_item (story_prov story db.items) ≡ some row
      → Updated story new_item row db
  unfolding update_member
  update_story-Updated story new_item row db h =
      let rows = story_prov story db.items in
      let (ts, q) = first_observed-row_of new_item rows row h in
      record {
        ts = ts;
        observed = q;
        recounted = recount-Recounted story rows (with_edges story rows row ts db);
        returned = visible story new_item row db h ∙ rw (q, ◌>>=◌) refl;
      }

  -- What the row of a story says of the items that are stored with it.
  pub record Backed (story : ℕ) (db : Tables fl.F) (row : StoryRow fl.F) : Type 0 where
    pub counts :
        Counts
          (nodes_of fl setup (story_prov story db.items))
          (story_edges story db)
          row.independent_origins
    pub sources : SourceCount (nodes_of fl setup (story_prov story db.items)) (story_edges story db)
    pub before : TrustState
    pub state :
        row.trust_state
        ≡ next_state before row.independent_origins
            (length sources.sources)
            (in_story_primary_match (source_classes (story_prov story db.items)))
            setup.corroboration_n
            setup.corroboration_sources

  pub record Evidence (story : ℕ) (db : Tables fl.F) (answer : Option (ℕ × Tables fl.F))
      : Type 0 where
    pub db' : Tables fl.F
    pub row' : StoryRow fl.F
    pub returned : answer ≡ some (row'.independent_origins, db')
    pub stored : find_story story db'.stories ≡ some row'
    pub same_items : db'.items ≡ db.items
    pub backed : Backed story db' row'
    pub from_old : backed.before ≡ story_state story db

  -- `_update_trust` on a story with a row, for an item that stands among its members, ends without an
  -- error. The origins that it returns and stores are the number of classes of dependence of the
  -- members under the edges that are then stored for the story; the state that it stores is the next
  -- one after the stored one for these origins, their sources and the classes of the members.
  pub update_story-Evidence :
      (story new_item : ℕ) (row : ItemRow fl.F) (old : StoryRow fl.F) (db : Tables fl.F)
      → row_of new_item (story_prov story db.items) ≡ some row
      → find_story story db.stories ≡ some old
      → Evidence story db (update_story fl setup story new_item db)
  unfolding update_trust change_row story_edges insert_edges story_state
  update_story-Evidence story new_item row old db h q =
      let u = update_story-Updated story new_item row db h in
      let r = u.recounted in
      let state =
        implied story (story_prov story db.items) r.origins (length r.sources.sources)
          (with_edges story (story_prov story db.items) row u.ts db) in
      record {
        db' =
            update_trust story r.origins state
              (with_edges story (story_prov story db.items) row u.ts db);
        row' = record old { independent_origins = r.origins; trust_state = state };
        returned = u.returned ∙ r.returned;
        stored =
            rw
              (
                find-update_stories story story (set_trust r.origins state) db.stories,
                ==_refl story,
                q,
              )
              refl;
        same_items = refl;
        backed = record {
          counts = r.counts;
          sources = r.sources;
          before = story_state story db;
          state = refl;
        };
        from_old = refl;
      }
