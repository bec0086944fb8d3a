-- ===== src/Pipeline/Links.antt =====
-- Items and stories stay linked whatever messages the services handle, one after the other.
use pi_news_aggregator.Bus.{Reply}
use pi_news_aggregator.Prelude.{
  ℕ, ◌≡◌, refl, ◌∙◌, true, false, ◌==◌, nat_eq, ==_refl, Bool-cases, Option-cases, inl, inr, Option,
  none, some, List, [], ◌∷◌, ◌++◌, Text,
}
use pi_news_aggregator.Floats.{Float}
use pi_news_aggregator.Schema.{Item, EnrichedItem, ClaimResult}
use pi_news_aggregator.Tables.{StoryRow, Tables}
use pi_news_aggregator.Tables.Items.{has_item, story_prov}
use pi_news_aggregator.Tables.Stories.{
  find_story, has_story, create_story, touch_story, update_trust, insert_edges,
  promote_primary_backed,
}
use pi_news_aggregator.Tables.Tallies.{insert_tallies, upsert_system_state}
use pi_news_aggregator.Tables.Statements.{assigns, creates, done, run_one}
use pi_news_aggregator.Tables.Statements.Ranks.{find-append}
use pi_news_aggregator.Tables.Statements.Links.{
  Stored, Linked, LinkedBut, Stored-Statements, Linked-same, LinkedBut-same, insert_item-Linked,
  assign_item-LinkedBut,
}
use pi_news_aggregator.Cluster.{entity_texts}
use pi_news_aggregator.Cluster.Service
use pi_news_aggregator.Cluster.Service.{
  Setup, Clusterer, Moment, row_of, update_story, request, open_story, joined_story, join_story,
  target_of, story_for, assigning, place,
}
use pi_news_aggregator.Cluster.Service.Errors.{handle_eq, missing}
use pi_news_aggregator.Cluster.Service.Evidence.{update_story-Updated}
use pi_news_aggregator.Cluster.Service.Targets.{target_of-Member}
use pi_news_aggregator.Writer
use pi_news_aggregator.Writer.{Writer}
use pi_news_aggregator.Trust.Matcher
use pi_news_aggregator.Trust.Matcher.{Matching, PrimaryMatcher, has_words, found_for, promoted}
use package.pi_news_aggregator.Pipeline.{
  Step, Reach, stored, tallied, clustered, matched, done, more,
}
use package.pi_news_aggregator.Pipeline.Runs.{db-claim_gate, run_join, tally_run, match_run}

-- What an optional result leaves of the items.
abbrev SameItems : {F : Type 0} → Tables F → Option (ℕ × Tables F) → Type 0
SameItems t none = Unit
SameItems t (some (n, t')) = t'.items ≡ t.items

module _ {F : Type 0} where
  -- After the statement a story with the id is stored, whether it was before or not.
  found_any_time :
      (id ts : ℕ) (rows : List (StoryRow F))
      → has_story id ts rows ≡ true
      → (row : StoryRow F) × (find_story id rows ≡ some row)
  unfolding has_story find_story
  found_any_time id ts [] h = cc
  found_any_time id ts (s ∷ rows) h = elim (Bool-cases (s.id == id)) [
    | inl t ↦ (s, rw t refl)
    | inr f ↦ let (row, q) = found_any_time id ts rows (rw f at h) in (row, rw f q)
  ]

  found_last :
      (rows : List (StoryRow F)) (s : StoryRow F)
      → (row : StoryRow F) × (find_story s.id (rows ++ s ∷ []) ≡ some row)
  found_last rows s = elim (Option-cases (find_story s.id rows)) [
    | inl q ↦ (s, find-append s.id rows s ∙ rw (q, ==_refl s.id) refl)
    | inr (row, q) ↦ (row, find-append s.id rows s ∙ rw q refl)
  ]

  pub create_story-Stored :
      (id first_seen : ℕ) (entity_set : List Text) (source : Text) (centroid : List F)
      (t : Tables F)
      → Stored id (create_story id first_seen entity_set source centroid t)
  unfolding create_story
  create_story-Stored id first_seen entity_set source centroid t =
      elim (Bool-cases (has_story id first_seen t.stories)) [
        | inl q ↦ rw q (
            let (row, e) = found_any_time id first_seen t.stories q in
            record { row = row; found = e })
        | inr f ↦ rw f (let (row, e) = found_last t.stories _ in record { row = row; found = e })
      ]

  pub items-create_story :
      (id first_seen : ℕ) (entity_set : List Text) (source : Text) (centroid : List F)
      (t : Tables F)
      → (create_story id first_seen entity_set source centroid t).items ≡ t.items
  unfolding create_story
  items-create_story id first_seen entity_set source centroid t =
      elim (Bool-cases (has_story id first_seen t.stories)) [
        | inl q ↦ rw q refl
        | inr f ↦ rw f refl
      ]

module _ (fl : Float) (setup : Setup fl) where
  update_story-SameItems :
      (story new_item : ℕ) (db : Tables fl.F)
      → SameItems db (update_story fl setup story new_item db)
  unfolding update_story
  update_story-SameItems story new_item db =
      elim (Option-cases (row_of new_item (story_prov story db.items))) [
        | inl q ↦ rw (q, update_story) refl
        | inr (row, q) ↦
            let u = update_story-Updated fl setup story new_item row db q in
            let r = u.recounted in
            rw (u.returned, r.returned) (unfold update_trust insert_edges in refl)
      ]

  items-joined :
      (reply : Reply) (story : ℕ) (item : Item fl.F) (db : Tables fl.F)
      (o : Option (ℕ × Tables fl.F)) (s : Clusterer fl.F)
      → SameItems db o
      → (joined_story fl setup reply story item db o s).1.db.items ≡ db.items
  unfolding joined_story
  items-joined reply story item db none s h = refl
  items-joined reply story item db (some (origins, db')) s h =
      rw (db-claim_gate fl setup reply origins (request fl setup story item) _) h

  pub items-join :
      (m : Moment) (enriched : EnrichedItem fl.F) (story : ℕ) (db : Tables fl.F)
      (s : Clusterer fl.F)
      → (join_story fl setup m enriched story db s).1.db.items ≡ db.items
  unfolding join_story touch_story
  items-join m enriched story db s =
      items-joined m.reply story enriched.item _ _ s
        (update_story-SameItems story enriched.item.id _)

  open_Linked :
      (m : Moment) (enriched : EnrichedItem fl.F) (db : Tables fl.F) (s : Clusterer fl.F)
      → LinkedBut m.new_id db
      → Linked (open_story fl setup m enriched db s).1.db
  unfolding open_story
  open_Linked m enriched db s l =
      let created : Tables fl.F =
        create_story m.new_id enriched.item.ts_observed
          (entity_texts setup.casefold enriched.item.entities) enriched.item.source
          enriched.embedding db in
      rw (db-claim_gate fl setup m.reply 1 (request fl setup m.new_id enriched.item) _) (
        LinkedBut-same m.new_id (run_one (creates m.new_id _ _ _ _))
          (items-create_story m.new_id _ _ _ _ db) (create_story-Stored m.new_id _ _ _ _ db) l)

  join_Linked :
      (m : Moment) (enriched : EnrichedItem fl.F) (story : ℕ) (db : Tables fl.F)
      (s : Clusterer fl.F)
      → Stored story db
      → LinkedBut story db
      → Linked (join_story fl setup m enriched story db s).1.db
  join_Linked m enriched story db s k l =
      let run = run_join fl setup m enriched story db s in
      LinkedBut-same story run (items-join m enriched story db s) (Stored-Statements story run k) l

  pub handle-Linked :
      (m : Moment) (enriched : EnrichedItem fl.F) (s : Clusterer fl.F)
      → Linked s.db
      → Linked (Service.handle fl setup m enriched s).1.db
  handle-Linked m enriched s l =
      elim (Bool-cases (has_item enriched.item.id enriched.item.ts_observed s.db.items)) [
        | inl t ↦ elim (Option-cases (target_of fl setup m enriched s.db)) [
          | inl q ↦ rw (handle_eq fl setup m enriched s none true q t) (
              unfold Service.place in
              open_Linked m enriched _ s (assign_item-LinkedBut _ _ m.new_id _ _ s.db l))
          | inr (story, q) ↦
              let k = target_of-Member fl setup m enriched s.db story q in
              let old = l.stored k.row story k.listed k.joined in
              rw (handle_eq fl setup m enriched s (some story) true q t) (
                unfold Service.place in
                join_Linked m enriched story _ s
                  (Stored-Statements story
                    (run_one (assigns enriched.item.id enriched.item.ts_observed story _ _)) old)
                  (assign_item-LinkedBut _ _ story _ _ s.db l))
        ]
        | inr f ↦
            rw
              (
                handle_eq fl setup m enriched s (target_of fl setup m enriched s.db) false refl f,
                missing fl setup m enriched s (target_of fl setup m enriched s.db) f,
              )
              l
      ]

module _ (fl : Float) (matching : Matching fl) where
  match_Linked :
      (claim : ClaimResult) (s : PrimaryMatcher fl.F)
      → Linked s.db
      → Linked (Matcher.handle fl matching claim s).db
  match_Linked claim s l = Linked-same (match_run fl matching claim s) same l
    where
      chosen :
          (o : Option ℕ) (p : PrimaryMatcher fl.F)
          → (promoted fl matching claim.story_id o p).db.items ≡ p.db.items
      chosen none p = unfold promoted in refl
      chosen (some id) p = unfold promoted promote_primary_backed in refl

      same : (Matcher.handle fl matching claim s).db.items ≡ s.db.items
      same =
          unfold Matcher.handle in
          (elim (Bool-cases (has_words matching.is_space claim.claim)) [
            | inl t ↦ rw t (chosen _ _)
            | inr f ↦ rw f refl
          ])

module _ (fl : Float) (setup : Setup fl) (matching : Matching fl) where
  Step-Linked : {t t' : Tables fl.F} → Step fl setup matching t t' → Linked t → Linked t'
  Step-Linked (stored enriched s) l =
      unfold Writer.handle in
      insert_item-Linked enriched.item enriched.embedding enriched.exploration s.db l
  Step-Linked (tallied flush s) l =
      Linked-same (tally_run flush s)
        (unfold Writer.handle_tally insert_tallies upsert_system_state in refl) l
  Step-Linked (clustered m enriched s) l = handle-Linked fl setup m enriched s l
  Step-Linked (matched claim s) l = match_Linked fl matching claim s l

  -- Messages that are handled one after the other, without an exception between two statements.
  pub Reach-Linked : {t t' : Tables fl.F} → Reach fl setup matching t t' → Linked t → Linked t'
  Reach-Linked done l = l
  Reach-Linked (more x xs) l = Reach-Linked xs (Step-Linked x l)
