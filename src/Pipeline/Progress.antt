-- ===== src/Pipeline/Progress.antt =====
-- From the writer to a story: a message that the cluster service takes after the item is stored.
use pi_news_aggregator.Prelude.{
  ℕ, ◌≡◌, refl, sym, ap, ◌∙◌, subst, true, false, ◌&&◌, ◌==◌, nat_eq, ==_true, ==_refl,
  and_true→both, Bool-cases, Option-cases, inl, inr, none, some, List, [], ◌∷◌, Text, ℤ, In, here,
  there,
}
use pi_news_aggregator.Floats.{Float}
use pi_news_aggregator.Schema.{EnrichedItem}
use pi_news_aggregator.Tables.{ItemRow, Tables}
use pi_news_aggregator.Tables.Items.{has_item, assign_row, assign_rows, assign_item}
use pi_news_aggregator.Tables.Statements.Kept.{Statements-has_item}
use pi_news_aggregator.Tables.Statements.Links.{Stored, Linked, insert_item-Linked}
use pi_news_aggregator.Cluster.Service
use pi_news_aggregator.Cluster.Service.{
  Setup, Clusterer, Moment, request, open_story, target_of, story_for, assigning, place,
}
use pi_news_aggregator.Cluster.Service.Errors.{handle_eq, assigned_to}
use pi_news_aggregator.Writer
use pi_news_aggregator.Writer.{Writer}
use pi_news_aggregator.Trust.Matcher.{Matching}
use package.pi_news_aggregator.Pipeline.{Reach}
use package.pi_news_aggregator.Pipeline.Runs.{db-claim_gate, cluster_run}
use package.pi_news_aggregator.Pipeline.Links.{
  items-join, items-create_story, handle-Linked, Reach-Linked,
}
use package.pi_news_aggregator.Pipeline.Promises.{stays_stored}

module _ {F : Type 0} where
  -- A row with the item's key is assigned.
  all_assigned :
      (id ts story : ℕ) (simhash : ℤ) (wire : Text) (r : ItemRow F) (rows : List (ItemRow F))
      → In r (assign_rows id ts story simhash wire rows)
      → r.item.id ≡ id
      → r.item.ts_observed ≡ ts
      → r.story_id ≡ some story
  unfolding assign_rows assign_row
  all_assigned id ts story simhash wire r [] m p q = elim m [ ]
  all_assigned id ts story simhash wire r (x ∷ rows) (here e) p q =
      elim (Bool-cases (x.item.id == id && x.item.ts_observed == ts)) [
        | inl t ↦ ap (λ (k : ItemRow F). k.story_id) (rw t at e)
        | inr f ↦ absurd (keyed f (rw f at e))
      ]
    where
      key_test : (x.item.id == id && x.item.ts_observed == ts) ≡ false → r ≡ x → true ≡ false
      key_test f e =
          sym (
            subst (λ (k : ItemRow F). (k.item.id == id && k.item.ts_observed == ts) ≡ true) e
              (rw (p, q, ==_refl id, ==_refl ts) refl))
          ∙ f

      keyed : (x.item.id == id && x.item.ts_observed == ts) ≡ false → r ≡ x → ⊥
      keyed f e = cc (key_test f e)
  all_assigned id ts story simhash wire r (x ∷ rows) (there m) p q =
      all_assigned id ts story simhash wire r rows m p q

module _ (fl : Float) (setup : Setup fl) where
  items-handle :
      (m : Moment) (enriched : EnrichedItem fl.F) (s : Clusterer fl.F)
      → has_item enriched.item.id enriched.item.ts_observed s.db.items ≡ true
      → (Service.handle fl setup m enriched s).1.db.items
        ≡ (assigned_to fl setup m enriched s
            (story_for fl setup m (target_of fl setup m enriched s.db))).items
  items-handle m enriched s t = elim (Option-cases (target_of fl setup m enriched s.db)) [
    | inl q ↦
        rw (handle_eq fl setup m enriched s none true q t, q)
          (unfold Service.place Service.open_story in
            rw (db-claim_gate fl setup m.reply 1 (request fl setup m.new_id enriched.item) _)
              (items-create_story m.new_id _ _ _ _ _))
    | inr (story, q) ↦
        rw (handle_eq fl setup m enriched s (some story) true q t, q)
          (unfold Service.place in items-join fl setup m enriched story _ s)
  ]

  -- The item is stored, and every row of it is in the story, which is stored.
  pub record Clustered (enriched : EnrichedItem fl.F) (story : ℕ) (t : Tables fl.F) : Type 0 where
    pub kept : has_item enriched.item.id enriched.item.ts_observed t.items ≡ true
    pub assigned :
        (r : ItemRow fl.F)
        → In r t.items
        → r.item.id ≡ enriched.item.id
        → r.item.ts_observed ≡ enriched.item.ts_observed
        → r.story_id ≡ some story
    pub story_kept : Stored story t

  every_assigned :
      (m : Moment) (enriched : EnrichedItem fl.F) (s : Clusterer fl.F)
      → has_item enriched.item.id enriched.item.ts_observed s.db.items ≡ true
      → (r : ItemRow fl.F) → In r (Service.handle fl setup m enriched s).1.db.items
      → r.item.id ≡ enriched.item.id
      → r.item.ts_observed ≡ enriched.item.ts_observed
      → r.story_id ≡ some (story_for fl setup m (target_of fl setup m enriched s.db))
  unfolding assign_item
  every_assigned m enriched s t r listed p q =
      all_assigned enriched.item.id enriched.item.ts_observed _ _ _ r s.db.items
        (subst (λ xs. In r xs) (items-handle m enriched s t) listed) p q

  row_with_key :
      (id ts : ℕ) (rows : List (ItemRow fl.F))
      → has_item id ts rows ≡ true
      → (r : ItemRow fl.F) × In r rows × (r.item.id ≡ id) × (r.item.ts_observed ≡ ts)
  unfolding has_item
  row_with_key id ts [] h = cc
  row_with_key id ts (r ∷ rows) h =
      elim (Bool-cases (r.item.id == id && r.item.ts_observed == ts)) [
        | inl t ↦
            let (a, b) = and_true→both (r.item.id == id) (r.item.ts_observed == ts) t in
            (r, here refl, ==_true r.item.id id a, ==_true r.item.ts_observed ts b)
        | inr f ↦ let (x, m, a, b) = row_with_key id ts rows (rw f at h) in (x, there m, a, b)
      ]

module _ (fl : Float) (setup : Setup fl) (matching : Matching fl) where
  -- Once the writer has stored an item into tables whose items have stored stories, the cluster
  -- service no longer turns it away: whatever messages are handled in between, its handler assigns
  -- every row of the item to the chosen story, or to the new one if none was chosen, and that story is
  -- stored afterwards.
  pub cluster_after_store :
      (enriched : EnrichedItem fl.F) (w : Writer fl.F) (m : Moment) (s : Clusterer fl.F)
      → Linked w.db
      → Reach fl setup matching (Writer.handle enriched w).db s.db
      → Clustered fl setup enriched
          (story_for fl setup m (target_of fl setup m enriched s.db))
          (Service.handle fl setup m enriched s).1.db
  cluster_after_store enriched w m s l r =
      let after : Tables fl.F = (Service.handle fl setup m enriched s).1.db in
      let story : ℕ = story_for fl setup m (target_of fl setup m enriched s.db) in
      let start : Linked (Writer.handle enriched w).db =
        unfold Writer.handle in
        insert_item-Linked enriched.item enriched.embedding enriched.exploration w.db l in
      let linked = handle-Linked fl setup m enriched s (Reach-Linked fl setup matching r start) in
      let there_before = stays_stored fl setup matching enriched w r in
      let kept =
        Statements-has_item enriched.item.id enriched.item.ts_observed
          (cluster_run fl setup m enriched s) there_before in
      let (row, listed, a, b) =
        row_with_key fl setup enriched.item.id enriched.item.ts_observed after.items kept in
      record {
        kept = kept;
        assigned = every_assigned fl setup m enriched s there_before;
        story_kept =
            linked.stored row story listed
              (every_assigned fl setup m enriched s there_before row listed a b);
      }
