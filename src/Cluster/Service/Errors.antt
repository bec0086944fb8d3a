-- ===== src/Cluster/Service/Errors.antt =====
-- services/cluster/main.py, Clusterer.handle: what it does on every branch.
use pi_news_aggregator.Prelude.{
  ℕ, suc, ◌≡◌, ◌≢◌, refl, ap, subst, ◌∙◌, Bool, true, false, ◌&&◌, ◌||◌, ◌==◌, nat_eq, Bool-cases,
  Option-cases, inl, inr, Option, none, some, List, [], ◌∷◌, Text, codes, length, ℤ,
}
use pi_news_aggregator.Floats.{Float}
use pi_news_aggregator.Schema.{EnrichedItem, max_len, max_text_len}
use pi_news_aggregator.Bus.{
  Published, sent, permission_error, value_error, broker_error, Log, publish,
}
use pi_news_aggregator.Tables.{ItemRow, Tables}
use pi_news_aggregator.Tables.Items.{has_item, assign_row, assign_rows, assign_item, story_prov}
use pi_news_aggregator.Tables.Stories.{create_story, touch_story}
use pi_news_aggregator.Cluster.{is_candidate, entity_texts}
use package.pi_news_aggregator.Cluster.Service.{
  Setup, Clusterer, Moment, row_of, update_story, queue_claim, claim_gate, request, open_story,
  joined_story, join_story, target_of, story_for, assigning, place, handle,
}
use package.pi_news_aggregator.Cluster.Service.Evidence.{update_story-Updated}

pub assign_rows-missing :
    {F : Type 0} (id ts story : ℕ) (simhash : ℤ) (wire : Text) (rows : List (ItemRow F))
    → has_item id ts rows ≡ false
    → assign_rows id ts story simhash wire rows ≡ rows
unfolding has_item assign_rows assign_row
assign_rows-missing id ts story simhash wire [] h = refl
assign_rows-missing id ts story simhash wire (r ∷ rows) h =
    elim (Bool-cases (r.item.id == id && r.item.ts_observed == ts)) [
      | inl t ↦
          absurd (stored (r.item.id == id && r.item.ts_observed == ts) (has_item id ts rows) t h)
      | inr f ↦
          rw f (ap (λ l. r ∷ l) (assign_rows-missing id ts story simhash wire rows (rw f at h)))
    ]
  where
    stored : (a b : Bool) → a ≡ true → (a || b) ≡ false → ⊥
    stored true b p q = cc q
    stored false b p q = cc p

module _ (fl : Float) (setup : Setup fl) where
  -- `_update_trust` raises no error.
  pub update_story_total :
      (story new_item : ℕ) (db : Tables fl.F)
      → (n : ℕ) × (db' : Tables fl.F) × (update_story fl setup story new_item db ≡ some (n, db'))
  unfolding update_story
  update_story_total story new_item db =
      elim (Option-cases (row_of new_item (story_prov story db.items))) [
        | inl q ↦ (length (story_prov story db.items), db, rw (q, update_story) refl)
        | inr (row, q) ↦
            let u = update_story-Updated fl setup story new_item row db q in
            (u.recounted.origins, _, u.returned ∙ u.recounted.returned)
      ]

  module _ (m : Moment) (enriched : EnrichedItem fl.F) (s : Clusterer fl.F) where
    -- The tables with the item assigned to the story.
    abbrev pub assigned_to : ℕ → Tables fl.F
    assigned_to story = (assigning fl setup enriched.item story s.db).1

    -- What is known of the origins once the item has joined the story.
    abbrev pub Recount : ℕ → ℕ → Tables fl.F → Type 0
    Recount story origins db' =
        update_story fl setup story enriched.item.id (
          touch_story story enriched.item.ts_observed enriched.item.source
            (entity_texts setup.casefold enriched.item.entities) (assigned_to story))
        ≡ some (origins, db')

    -- The claim request of the story, handed to the broker.
    abbrev pub asked : ℕ → Published × Log
    asked story =
        publish setup.publisher m.reply (codes "llm.heavy")
          (setup.to_json (request fl setup story enriched.item)) s.log

    -- The outcomes of `handle`: whether it returns, and the state it leaves.
    pub data Outcome : Bool × Clusterer fl.F → Type 0 where
      not_stored :
          has_item enriched.item.id enriched.item.ts_observed s.db.items ≡ false
          → Outcome (false, s)
      opened :
          has_item enriched.item.id enriched.item.ts_observed s.db.items ≡ true
          → target_of fl setup m enriched s.db ≡ none
          → Outcome (
            true,
            record s {
              assigned = suc s.assigned;
              new_stories = suc s.new_stories;
              db =
                  create_story m.new_id enriched.item.ts_observed
                    (entity_texts setup.casefold enriched.item.entities)
                    enriched.item.source
                    enriched.embedding
                    (assigned_to m.new_id);
            },
          )
      joined :
          (story origins : ℕ) (db' : Tables fl.F)
          → has_item enriched.item.id enriched.item.ts_observed s.db.items ≡ true
          → target_of fl setup m enriched s.db ≡ some story
          → Recount story origins db'
          → is_candidate origins 2 ≡ false
          → Outcome (true, record s { assigned = suc s.assigned; db = db' })
      queued :
          (story origins : ℕ) (db' : Tables fl.F)
          → has_item enriched.item.id enriched.item.ts_observed s.db.items ≡ true
          → target_of fl setup m enriched s.db ≡ some story
          → Recount story origins db'
          → is_candidate origins 2 ≡ true
          → (asked story).0 ≡ sent
          → Outcome (
            true,
            record s {
              assigned = suc s.assigned;
              claims = suc s.claims;
              db = db';
              log = (asked story).1;
            },
          )
      refused :
          (story origins : ℕ) (db' : Tables fl.F)
          → has_item enriched.item.id enriched.item.ts_observed s.db.items ≡ true
          → target_of fl setup m enriched s.db ≡ some story
          → Recount story origins db'
          → is_candidate origins 2 ≡ true
          → (asked story).0 ≢ sent
          → Outcome (false, record s { assigned = suc s.assigned; db = db'; log = (asked story).1 })

    pub handle_eq :
        (target : Option ℕ) (b : Bool)
        → target_of fl setup m enriched s.db ≡ target
        → has_item enriched.item.id enriched.item.ts_observed s.db.items ≡ b
        → handle fl setup m enriched s
          ≡ place fl setup m enriched target (b, assigned_to (story_for fl setup m target)) s
    unfolding handle assign_item
    handle_eq target b q h = rw (q, h) refl

    pub missing :
        (target : Option ℕ)
        → has_item enriched.item.id enriched.item.ts_observed s.db.items ≡ false
        → place fl setup m enriched target (false, assigned_to (story_for fl setup m target)) s
          ≡ (false, s)
    unfolding place assign_item
    missing target h =
        rw (assign_rows-missing enriched.item.id enriched.item.ts_observed _ _ _ s.db.items h) refl

    unsent :
        (story origins : ℕ) (db' : Tables fl.F) (log : Log)
        → has_item enriched.item.id enriched.item.ts_observed s.db.items ≡ true
        → target_of fl setup m enriched s.db ≡ some story
        → Recount story origins db'
        → is_candidate origins 2 ≡ true
        → (asked story).0 ≢ sent
        → (asked story).1 ≡ log
        → Outcome (false, record s { assigned = suc s.assigned; db = db'; log = log })
    unsent story origins db' log t q e c n p =
        subst
          (λ (l : Log). Outcome (false, record s { assigned = suc s.assigned; db = db'; log = l }))
          p (refused story origins db' t q e c n)

    from_claim :
        (story origins : ℕ) (db' : Tables fl.F) (o : Published × Log)
        → has_item enriched.item.id enriched.item.ts_observed s.db.items ≡ true
        → target_of fl setup m enriched s.db ≡ some story
        → Recount story origins db'
        → is_candidate origins 2 ≡ true
        → asked story ≡ o
        → Outcome (queue_claim fl setup o (record s { assigned = suc s.assigned; db = db' }))
    unfolding queue_claim
    from_claim story origins db' (sent, log) t q e c a =
        subst
          (λ (l : Log). Outcome (
            true,
            record s { assigned = suc s.assigned; claims = suc s.claims; db = db'; log = l },
          ))
          (ap (λ (o : Published × Log). o.1) a)
          (queued story origins db' t q e c (ap (λ (o : Published × Log). o.0) a))
    from_claim story origins db' (permission_error, log) t q e c a =
        unsent story origins db' log t q e c (λ r. cc (ap (λ (o : Published × Log). o.0) a, r))
          (ap (λ (o : Published × Log). o.1) a)
    from_claim story origins db' (value_error, log) t q e c a =
        unsent story origins db' log t q e c (λ r. cc (ap (λ (o : Published × Log). o.0) a, r))
          (ap (λ (o : Published × Log). o.1) a)
    from_claim story origins db' (broker_error, log) t q e c a =
        unsent story origins db' log t q e c (λ r. cc (ap (λ (o : Published × Log). o.0) a, r))
          (ap (λ (o : Published × Log). o.1) a)

    from_join :
        (story origins : ℕ) (db' : Tables fl.F)
        → max_len max_text_len enriched.item.text ≡ true
        → has_item enriched.item.id enriched.item.ts_observed s.db.items ≡ true
        → target_of fl setup m enriched s.db ≡ some story
        → Recount story origins db'
        → Outcome (join_story fl setup m enriched story (assigned_to story) s)
    unfolding join_story joined_story claim_gate
    from_join story origins db' h t q e =
        rw (e, joined_story)
          (elim (Bool-cases (is_candidate origins 2)) [
            | inl c ↦ rw (c, h) (from_claim story origins db' (asked story) t q e c refl)
            | inr c ↦ rw c (joined story origins db' t q e c)
          ])

    -- `handle` of an item whose text is within the cap has one of five outcomes. If the item is not
    -- stored it raises and changes nothing, so no story is written. If no story fits it opens one,
    -- assigns the item to it and asks for no claim. Else the item joins the story, the evidence is
    -- counted again, and a claim is asked for exactly if there are two origins or more; only a request
    -- that cannot be published makes it raise, and what was written stays.
    pub handle-Outcome :
        max_len max_text_len enriched.item.text ≡ true → Outcome (handle fl setup m enriched s)
    handle-Outcome h =
        elim (Bool-cases (has_item enriched.item.id enriched.item.ts_observed s.db.items)) [
          | inl t ↦ elim (Option-cases (target_of fl setup m enriched s.db)) [
            | inl q ↦
                rw (handle_eq none true q t)
                  (unfold place open_story claim_gate is_candidate in opened t q)
            | inr (story, q) ↦
                let (n, db', e) = update_story_total story enriched.item.id (
                  touch_story story enriched.item.ts_observed enriched.item.source
                    (entity_texts setup.casefold enriched.item.entities) (assigned_to story)) in
                rw (handle_eq (some story) true q t) (unfold place in from_join story n db' h t q e)
          ]
          | inr f ↦
              rw
                (
                  handle_eq (target_of fl setup m enriched s.db) false refl f,
                  missing (target_of fl setup m enriched s.db) f,
                )
                (not_stored f)
        ]
