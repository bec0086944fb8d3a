-- ===== src/Pipeline/Runs.antt =====
-- Each service runs statements on the tables, and nothing else.
use pi_news_aggregator.Prelude.{
  ℕ, ◌≡◌, refl, Bool, true, false, Bool-cases, Option-cases, inl, inr, Option, none, some,
}
use pi_news_aggregator.Floats.{Float}
use pi_news_aggregator.Schema.{
  Item, EnrichedItem, TallyFlush, ClaimRequest, ClaimResult, max_len, max_text_len,
}
use pi_news_aggregator.Bus.{
  Reply, Published, sent, permission_error, value_error, broker_error, Log,
}
use pi_news_aggregator.Trust.States.Promotion.{next_state_monotone}
use pi_news_aggregator.Tables.{Tables}
use pi_news_aggregator.Tables.Items.{story_prov}
use pi_news_aggregator.Tables.Statements.{
  inserts, assigns, creates, touches, links, trusts, promotes, adds_tallies, beats, Statements,
  done, then_run, run_one, Statements-append,
}
use pi_news_aggregator.Cluster.{is_candidate}
use pi_news_aggregator.Cluster.Service
use pi_news_aggregator.Cluster.Service.{
  Setup, Clusterer, Moment, row_of, source_classes, update_story, queue_claim, claim_gate, request,
  open_story, joined_story, join_story, target_of, story_for, assigning, place,
}
use pi_news_aggregator.Cluster.Service.Evidence.{update_story-Updated}
use pi_news_aggregator.Writer
use pi_news_aggregator.Writer.{Writer}
use pi_news_aggregator.Trust.Matcher
use pi_news_aggregator.Trust.Matcher.{Matching, PrimaryMatcher, has_words, found_for, promoted}
use package.pi_news_aggregator.Pipeline.{
  Step, Reach, stored, tallied, clustered, matched, done, more,
}

-- What an optional result leaves of the tables is reached by statements.
abbrev pub Leaves : {F : Type 0} → Tables F → Option (ℕ × Tables F) → Type 0
Leaves t none = Unit
Leaves t (some (n, t')) = Statements t t'

module _ (fl : Float) (setup : Setup fl) where
  pub update_story-Leaves :
      (story new_item : ℕ) (db : Tables fl.F) → Leaves db (update_story fl setup story new_item db)
  unfolding update_story
  update_story-Leaves story new_item db =
      elim (Option-cases (row_of new_item (story_prov story db.items))) [
        | inl q ↦ rw (q, update_story) done
        | inr (row, q) ↦
            let u = update_story-Updated fl setup story new_item row db q in
            let r = u.recounted in
            rw (u.returned, r.returned)
              (then_run (links story _ u.ts)
                (run_one (trusts story r.origins _ (next_state_monotone _ r.origins _ _ _ _))))
      ]

  -- The claim gate leaves the tables alone.
  pub db-claim_gate :
      (reply : Reply) (origins : ℕ) (req : ClaimRequest) (s : Clusterer fl.F)
      → (claim_gate fl setup reply origins req s).1.db ≡ s.db
  unfolding claim_gate
  db-claim_gate reply origins req s = elim (Bool-cases (is_candidate origins 2)) [
    | inl t ↦ rw t (elim (Bool-cases (max_len max_text_len req.text)) [
      | inl u ↦ rw u (queued _ s)
      | inr f ↦ rw f refl
    ])
    | inr f ↦ rw f refl
  ]
    where
      queued : (o : Published × Log) (s : Clusterer fl.F) → (queue_claim fl setup o s).1.db ≡ s.db
      queued (sent, log) s = unfold queue_claim in refl
      queued (permission_error, log) s = unfold queue_claim in refl
      queued (value_error, log) s = unfold queue_claim in refl
      queued (broker_error, log) s = unfold queue_claim in refl

  pub run_open :
      (m : Moment) (enriched : EnrichedItem fl.F) (db : Tables fl.F) (s : Clusterer fl.F)
      → Statements db (open_story fl setup m enriched db s).1.db
  unfolding open_story
  run_open m enriched db s =
      rw (db-claim_gate m.reply 1 (request fl setup m.new_id enriched.item) _)
        (run_one (creates _ _ _ _ _))

  run_joined :
      (reply : Reply) (story : ℕ) (item : Item fl.F) (db : Tables fl.F)
      (o : Option (ℕ × Tables fl.F)) (s : Clusterer fl.F)
      → Leaves db o
      → Statements db (joined_story fl setup reply story item db o s).1.db
  unfolding joined_story
  run_joined reply story item db none s h = done
  run_joined reply story item db (some (origins, db')) s h =
      rw (db-claim_gate reply origins (request fl setup story item) _) h

  pub run_join :
      (m : Moment) (enriched : EnrichedItem fl.F) (story : ℕ) (db : Tables fl.F)
      (s : Clusterer fl.F)
      → Statements db (join_story fl setup m enriched story db s).1.db
  unfolding join_story
  run_join m enriched story db s =
      then_run (touches story enriched.item.ts_observed enriched.item.source _) (
        run_joined m.reply story enriched.item _ _ s (update_story-Leaves story enriched.item.id _))

  run_place :
      (m : Moment) (enriched : EnrichedItem fl.F) (target : Option ℕ) (assigned : Bool)
      (db : Tables fl.F) (s : Clusterer fl.F)
      → Statements db (place fl setup m enriched target (assigned, db) s).1.db
  unfolding place
  run_place m enriched target false db s = done
  run_place m enriched none true db s = run_open m enriched db s
  run_place m enriched (some story) true db s = run_join m enriched story db s

  pub cluster_run :
      (m : Moment) (enriched : EnrichedItem fl.F) (s : Clusterer fl.F)
      → Statements s.db (Service.handle fl setup m enriched s).1.db
  cluster_run m enriched s =
      unfold Service.handle in
      (then_run
        (assigns enriched.item.id enriched.item.ts_observed
          (story_for fl setup m (target_of fl setup m enriched s.db)) _ _)
        (run_place m enriched (target_of fl setup m enriched s.db) _ _ s))

module _ {F : Type 0} where
  pub store_run :
      (enriched : EnrichedItem F) (s : Writer F) → Statements s.db (Writer.handle enriched s).db
  store_run enriched s =
      unfold Writer.handle in
      run_one (inserts enriched.item enriched.embedding enriched.exploration)

  pub tally_run :
      (flush : TallyFlush F) (s : Writer F) → Statements s.db (Writer.handle_tally flush s).db
  tally_run flush s =
      unfold Writer.handle_tally in then_run (adds_tallies flush) (run_one (beats _ _))

module _ (fl : Float) (matching : Matching fl) where
  run_promoted :
      (story : ℕ) (o : Option ℕ) (s : PrimaryMatcher fl.F)
      → Statements s.db (promoted fl matching story o s).db
  unfolding promoted
  run_promoted story none s = done
  run_promoted story (some id) s = run_one (promotes story)

  pub match_run :
      (claim : ClaimResult) (s : PrimaryMatcher fl.F)
      → Statements s.db (Matcher.handle fl matching claim s).db
  match_run claim s =
      unfold Matcher.handle in
      (elim (Bool-cases (has_words matching.is_space claim.claim)) [
        | inl t ↦ rw t (run_promoted claim.story_id _ _)
        | inr f ↦ rw f done
      ])

module _ (fl : Float) (setup : Setup fl) (matching : Matching fl) where
  pub Step-Statements : {t t' : Tables fl.F} → Step fl setup matching t t' → Statements t t'
  Step-Statements (stored enriched s) = store_run enriched s
  Step-Statements (tallied flush s) = tally_run flush s
  Step-Statements (clustered m enriched s) = cluster_run fl setup m enriched s
  Step-Statements (matched claim s) = match_run fl matching claim s

  pub Reach-Statements : {t t' : Tables fl.F} → Reach fl setup matching t t' → Statements t t'
  Reach-Statements done = done
  Reach-Statements (more x xs) = Statements-append (Step-Statements x) (Reach-Statements xs)
