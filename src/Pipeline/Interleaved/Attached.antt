-- ===== src/Pipeline/Interleaved/Attached.antt =====
-- Items and stories under interleaved statements and exceptions.
use pi_news_aggregator.Prelude.{
  Text, ℕ, ◌≡◌, refl, sym, ap, ◌∙◌, subst, Bool, Bool-cases, inl, inr, ◌⊎◌, Option, none, some,
  List, ◌++◌, In, here, In-append, In-append_right, In-one, In-split, false, some_inj,
}
use pi_news_aggregator.Floats.{Float}
use pi_news_aggregator.Schema.{TallyFlush, Item, EnrichedItem}
use pi_news_aggregator.Trust.States.{TrustState}
use pi_news_aggregator.Tables.{Beat, ItemRow, Tables}
use pi_news_aggregator.Tables.Items.{has_item, insert_item, assign_item}
use pi_news_aggregator.Tables.Stories.{
  touch_story, update_trust, promote_primary_backed, insert_edges,
}
use pi_news_aggregator.Tables.Tallies.{insert_tallies, upsert_system_state}
use pi_news_aggregator.Tables.Statements
use pi_news_aggregator.Tables.Statements.{Statement}
use pi_news_aggregator.Tables.Statements.Links.{
  Stored, Stored-Statement, found-update_stories, found→Stored, row-assign_rows,
}
use pi_news_aggregator.Cluster.Service.{Setup, Moment, story_for}
use pi_news_aggregator.Trust.Edges.{ProvEdge}
use pi_news_aggregator.Cluster.Service.Errors.{assign_rows-missing}
use pi_news_aggregator.Cluster.Service.Targets.{target_of-Member}
use pi_news_aggregator.Pipeline.Links.{create_story-Stored, items-create_story}
use package.pi_news_aggregator.Pipeline.Interleaved.{
  Phase, chosen, opening, joining, unwritten, World, world, assigned, Step, stores, tallies, beats,
  promotes, chooses, turns_away, assigns_new, assigns, creates, touches, gathers, unseen, links,
  reads_edges, reads_state, decides, raises, Run, done, more,
}

-- The story that an item is about to join.
abbrev pub joining_next : {F : Type 0} → Phase F → Option ℕ
joining_next (chosen m enriched target) = target
joining_next _ = none

module _ {F : Type 0} where
  -- The story has a row, or is one of the ids.
  abbrev pub Known : Tables F → List ℕ → ℕ → Type 0
  Known t ids story = Stored story t ⊎ In story ids

  -- So for the story of each item, and for the one that an item is about to join, with the new stories
  -- whose handler has still to write the row, or raised before it did.
  pub record Attached (w : World F) : Type 0 where
    pub items :
        (r : ItemRow F) (story : ℕ)
        → In r w.db.items
        → r.story_id ≡ some story
        → Known w.db (unwritten w.phase ++ w.cut) story
    pub target :
        (story : ℕ)
        → joining_next w.phase ≡ some story
        → Known w.db (unwritten w.phase ++ w.cut) story

  Known-map :
      {t t' : Tables F} {ids ids' : List ℕ}
      → ((story : ℕ) → Stored story t → Stored story t')
      → ((story : ℕ) → In story ids → Known t' ids' story)
      → (story : ℕ) → Known t ids story
      → Known t' ids' story
  Known-map f g story (inl s) = inl (f story s)
  Known-map f g story (inr m) = g story m

  -- A step that leaves the items alone and chooses no story.
  keeps :
      (w w' : World F)
      → w'.db.items ≡ w.db.items
      → ((story : ℕ) → Stored story w.db → Stored story w'.db)
      → ((story : ℕ)
          → In story (unwritten w.phase ++ w.cut)
          → Known w'.db (unwritten w'.phase ++ w'.cut) story)
      → ((story : ℕ) → joining_next w'.phase ≡ some story → joining_next w.phase ≡ some story)
      → Attached w
      → Attached w'
  keeps w w' q f g same a = record {
    items = λ r story m e. Known-map f g story (a.items r story (subst (λ xs. In r xs) q m) e);
    target = λ story e. Known-map f g story (a.target story (same story e));
  }

  Stored-renamed : {t : Tables F} {story id : ℕ} → story ≡ id → Stored id t → Stored story t
  Stored-renamed {t = t} q s = subst (λ z. Stored z t) (sym q) s

  items-tallies : (flush : TallyFlush F) (t : Tables F) → (insert_tallies flush t).items ≡ t.items
  unfolding insert_tallies
  items-tallies flush t = refl

  items-beat :
      (key : Text) (value : Beat F) (t : Tables F)
      → (upsert_system_state key value t).items ≡ t.items
  unfolding upsert_system_state
  items-beat key value t = refl

  items-promote : (id : ℕ) (t : Tables F) → (promote_primary_backed id t).items ≡ t.items
  unfolding promote_primary_backed
  items-promote id t = refl

  items-touch :
      (id last_seen : ℕ) (source : Text) (entities : List Text) (t : Tables F)
      → (touch_story id last_seen source entities t).items ≡ t.items
  unfolding touch_story
  items-touch id last_seen source entities t = refl

  items-edges :
      (story : ℕ) (edges : List ProvEdge) (ts : ℕ) (t : Tables F)
      → (insert_edges story edges ts t).items ≡ t.items
  unfolding insert_edges
  items-edges story edges ts t = refl

  items-trust :
      (id origins : ℕ) (state : TrustState) (t : Tables F)
      → (update_trust id origins state t).items ≡ t.items
  unfolding update_trust
  items-trust id origins state t = refl

  Stored-update_trust :
      (id origins : ℕ) (state : TrustState) (t : Tables F) (story : ℕ)
      → Stored story t
      → Stored story (update_trust id origins state t)
  unfolding update_trust
  Stored-update_trust id origins state t story s =
      let (row, q) = found-update_stories id story _ t.stories s.row s.found in found→Stored row q

  Stored-same : {t t' : Tables F} → Statement t t' → (story : ℕ) → Stored story t → Stored story t'
  Stored-same x story s = Stored-Statement story x s

  insert_item-old :
      (item : Item F) (embedding : List F) (exploration : Bool) (t : Tables F) (r : ItemRow F)
      (story : ℕ)
      → In r (insert_item item embedding exploration t).items
      → r.story_id ≡ some story
      → In r t.items
  unfolding insert_item
  insert_item-old item embedding exploration t r story m e =
      elim (Bool-cases (has_item item.id item.ts_observed t.items)) [
        | inl q ↦ rw q at m
        | inr f ↦ elim (In-append t.items _ (rw f at m)) [
          | inl a ↦ a
          | inr b ↦ cc (ap (λ (k : ItemRow F). k.story_id) (In-one b), e)
        ]
      ]

  insert_item-Attached :
      (item : Item F) (embedding : List F) (exploration : Bool) (t : Tables F) (p : Phase F)
      (cut : List ℕ)
      → Attached (record { db = t; phase = p; cut = cut })
      → Attached (record { db = insert_item item embedding exploration t; phase = p; cut = cut })
  insert_item-Attached item embedding exploration t p cut a =
      let x : Statement t (insert_item item embedding exploration t) =
        Statements.inserts item embedding exploration in
      record {
        items = λ r story m e.
            Known-map (Stored-same x) (λ s k. inr k) story
              (a.items r story (insert_item-old item embedding exploration t r story m e) e);
        target = λ story e. Known-map (Stored-same x) (λ s k. inr k) story (a.target story e);
      }

module _ (fl : Float) (setup : Setup fl) where
  assigned_row :
      (m : Moment) (enriched : EnrichedItem fl.F) (target : Option ℕ) (t : Tables fl.F)
      (r : ItemRow fl.F)
      → In r (assigned fl setup m enriched target t).1.items
      → (r.story_id ≡ some (story_for fl setup m target)) ⊎ In r t.items
  unfolding assign_item
  assigned_row m enriched target t r i =
      row-assign_rows enriched.item.id enriched.item.ts_observed (story_for fl setup m target) _ _ r
        t.items i

  -- An item is assigned: to the story that is the only new one, if it is not known.
  assign-Attached :
      (m : Moment) (enriched : EnrichedItem fl.F) (target : Option ℕ) (t : Tables fl.F)
      (p : Phase fl.F) (cut : List ℕ)
      → joining_next p ≡ none
      → Known
          (assigned fl setup m enriched target t).1
          (unwritten p ++ cut)
          (story_for fl setup m target)
      → Attached (world fl setup t (chosen m enriched target) cut)
      → Attached (world fl setup (assigned fl setup m enriched target t).1 p cut)
  assign-Attached m enriched target t p cut idle_next known a =
      let x : Statement t (assigned fl setup m enriched target t).1 =
        Statements.assigns enriched.item.id enriched.item.ts_observed (story_for fl setup m target)
          _ _ in
      record {
        items = λ r story i e. elim (assigned_row m enriched target t r i) [
          | inl q ↦
              subst (λ z. Known (assigned fl setup m enriched target t).1 (unwritten p ++ cut) z)
                (some_inj (sym q ∙ e)) known
          | inr old ↦
              Known-map (Stored-same x) (λ s k. inr (In-append_right (unwritten p) cut k)) story
                (a.items r story old e)
        ];
        target = λ story e. cc (idle_next, e);
      }

  turned_away :
      (m : Moment) (enriched : EnrichedItem fl.F) (target : Option ℕ) (t : Tables fl.F)
      → (assigned fl setup m enriched target t).0 ≡ false
      → (assigned fl setup m enriched target t).1.items ≡ t.items
  unfolding assign_item
  turned_away m enriched target t h =
      assign_rows-missing enriched.item.id enriched.item.ts_observed _ _ _ t.items h

  none_some : {P : Type 0} (story : ℕ) → none ≡ some story → P
  none_some story q = absurd (clash q)
    where
      clash : none ≡ some story → ⊥
      clash r = cc r

  Step-Attached : {w w' : World fl.F} → Step fl setup w w' → Attached w → Attached w'
  Step-Attached (stores {t = t} {p = p} {cut = cut} item embedding exploration) a =
      insert_item-Attached item embedding exploration t p cut a
  Step-Attached (tallies flush) a =
      keeps _ _ (items-tallies flush _) (Stored-same (Statements.adds_tallies flush)) (λ s k. inr k)
        (λ s e. e) a
  Step-Attached (beats key value) a =
      keeps _ _ (items-beat key value _) (Stored-same (Statements.beats key value)) (λ s k. inr k)
        (λ s e. e) a
  Step-Attached (promotes story) a =
      keeps _ _ (items-promote story _) (Stored-same (Statements.promotes story)) (λ s k. inr k)
        (λ s e. e) a
  Step-Attached (chooses {t = t} m enriched) a = record {
    items = a.items;
    target = λ story e.
        let k = target_of-Member fl setup m enriched t story e in
        a.items k.row story k.listed k.joined;
  }
  Step-Attached (turns_away {t = t} {m = m} {enriched = enriched} {target = target} q) a =
      keeps _ _ (turned_away m enriched target t q)
        (Stored-same (
          Statements.assigns enriched.item.id enriched.item.ts_observed
            (story_for fl setup m target) _ _))
        (λ s k. inr k) (λ s e. none_some s e) a
  Step-Attached (assigns_new {t = t} {cut = cut} {m = m} {enriched = enriched} q) a =
      assign-Attached m enriched none t (opening m enriched) cut refl (inr (here refl)) a
  Step-Attached (assigns {t = t} {cut = cut} {m = m} {enriched = enriched} {story = story} q) a =
      assign-Attached m enriched (some story) t (joining story enriched) cut refl
        (Known-map
          (Stored-same (Statements.assigns enriched.item.id enriched.item.ts_observed story _ _))
          (λ s k. inr k) story (a.target story refl))
        a
  Step-Attached (creates {t = t} {m = m}) a =
      keeps _ _ (items-create_story m.new_id _ _ _ _ t)
        (Stored-same (Statements.creates m.new_id _ _ _ _))
        (λ s k. elim (In-split k) [
          | inl q ↦ inl (Stored-renamed q (create_story-Stored m.new_id _ _ _ _ t))
          | inr old ↦ inr old
        ])
        (λ s e. none_some s e) a
  Step-Attached (touches {story = story}) a =
      keeps _ _ (items-touch story _ _ _ _) (Stored-same (Statements.touches story _ _ _))
        (λ s k. inr k) (λ s e. none_some s e) a
  Step-Attached gathers a = keeps _ _ refl (λ s k. k) (λ s k. inr k) (λ s e. none_some s e) a
  Step-Attached (unseen q) a = keeps _ _ refl (λ s k. k) (λ s k. inr k) (λ s e. none_some s e) a
  Step-Attached (links {story = story} q r) a =
      keeps _ _ (items-edges story _ _ _) (Stored-same (Statements.links story _ _)) (λ s k. inr k)
        (λ s e. none_some s e) a
  Step-Attached reads_edges a = keeps _ _ refl (λ s k. k) (λ s k. inr k) (λ s e. none_some s e) a
  Step-Attached reads_state a = keeps _ _ refl (λ s k. k) (λ s k. inr k) (λ s e. none_some s e) a
  Step-Attached (decides {t = t} {story = story} origins n_sources q r) a =
      keeps _ _ (items-trust story origins _ t) (Stored-update_trust story origins _ t)
        (λ s k. inr k) (λ s e. none_some s e) a
  Step-Attached raises a = keeps _ _ refl (λ s k. k) (λ s k. inr k) (λ s e. none_some s e) a

  -- An item is left without its story only by an exception between two statements: if the story of
  -- every item, and of one that is about to be assigned, has a row, or its handler has still to write it,
  -- or raised before it did, then this holds after any steps, however the statements of the writer, of
  -- one cluster service and of the primary matcher interleave, and wherever handlers of the cluster service raise.
  pub Run-Attached : {w w' : World fl.F} → Run fl setup w w' → Attached w → Attached w'
  Run-Attached done a = a
  Run-Attached (more x xs) a = Run-Attached xs (Step-Attached x a)
