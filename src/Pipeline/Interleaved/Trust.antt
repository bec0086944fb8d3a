-- ===== src/Pipeline/Interleaved/Trust.antt =====
-- Trust states under interleaved statements.
use pi_news_aggregator.Prelude.{
  eq_or_ne, ℕ, ◌≤◌, ◌≡◌, ◌≢◌, refl, sym, Bool-cases, Option-cases, inl, inr, Bool, true, false,
  ◌==◌, nat_eq, ==_false, Option, none, some, List, ◌∷◌, [], ◌++◌, Text, arith,
}
use pi_news_aggregator.Floats.{Float}
use pi_news_aggregator.Trust.States.{TrustState, rumor, rank}
use pi_news_aggregator.Trust.States.Promotion.{next_state_monotone}
use pi_news_aggregator.Schema.{Item}
use pi_news_aggregator.Tables.{StoryRow, Tables}
use pi_news_aggregator.Tables.Items.{has_item, insert_item, assign_item}
use pi_news_aggregator.Tables.Stories.{
  change_row, touch, set_trust, promote, has_story, find_story, touched, state_of, story_state,
  create_story, touch_story, update_trust, promote_primary_backed, insert_edges,
}
use pi_news_aggregator.Tables.Tallies.{insert_tallies, upsert_system_state}
use pi_news_aggregator.Tables.Statements
use pi_news_aggregator.Tables.Statements.{run_one}
use pi_news_aggregator.Tables.Statements.Ranks.{
  find-append, changed, find-update_stories, rank-Statements,
}
use pi_news_aggregator.Cluster.Service.{Setup}
use package.pi_news_aggregator.Pipeline.Interleaved.{
  Phase, idle, chosen, opening, joining, gathering, detecting, linked, counting, deciding, World,
  world, Step, stores, tallies, beats, promotes, chooses, turns_away, assigns_new, assigns, creates,
  touches, gathers, unseen, links, reads_edges, reads_state, decides, raises, Run, done, more,
}

module _ {F : Type 0} where
  changed-touch :
      (b : Bool) (last_seen : ℕ) (sources entities : List Text) (o : Option (StoryRow F))
      → state_of (changed b (touch last_seen sources entities) o) ≡ state_of o
  unfolding state_of change_row
  changed-touch false l s e o = refl
  changed-touch true l s e none = refl
  changed-touch true l s e (some row) = refl

  state-touched :
      (id l j : ℕ) (source : Text) (entities : List Text) (o : Option (StoryRow F))
      (rows : List (StoryRow F))
      → state_of (find_story j (touched id l source entities o rows)) ≡ state_of (find_story j rows)
  unfolding touched
  state-touched id l j source entities none rows = refl
  state-touched id l j source entities (some row) rows =
      rw (find-update_stories id j (touch l _ _) rows)
        (changed-touch (j == id) l _ _ (find_story j rows))

  state-touch_story :
      (id l j : ℕ) (source : Text) (entities : List Text) (t : Tables F)
      → story_state j (touch_story id l source entities t) ≡ story_state j t
  unfolding story_state touch_story
  state-touch_story id l j source entities t =
      state-touched id l j source entities (find_story id t.stories) t.stories

  state-append :
      (j : ℕ) (rows : List (StoryRow F)) (s : StoryRow F)
      → s.trust_state ≡ rumor
      → state_of (find_story j (rows ++ s ∷ [])) ≡ state_of (find_story j rows)
  unfolding state_of
  state-append j rows s h = rw (find-append j rows s) (elim (Option-cases (find_story j rows)) [
    | inr (r, q) ↦ rw q refl
    | inl q ↦ rw q (elim (Bool-cases (s.id == j)) [ inl t ↦ rw t h | inr f ↦ rw f refl ])
  ])

  state-created :
      (id first_seen j : ℕ) (entities : List Text) (source : Text) (centroid : List F)
      (t : Tables F)
      → story_state j (create_story id first_seen entities source centroid t) ≡ story_state j t
  unfolding story_state create_story
  state-created id first_seen j entities source centroid t =
      elim (Bool-cases (has_story id first_seen t.stories)) [
        | inl q ↦ rw q refl
        | inr f ↦ rw f (state-append j t.stories _ refl)
      ]

  state-promoted :
      (id j : ℕ) (t : Tables F)
      → j ≢ id
      → story_state j (promote_primary_backed id t) ≡ story_state j t
  unfolding story_state promote_primary_backed
  state-promoted id j t n =
      rw (find-update_stories id j promote t.stories) (rw (==_false j id n) refl)

  state-trusted :
      (id j origins : ℕ) (state : TrustState) (t : Tables F)
      → j ≢ id
      → story_state j (update_trust id origins state t) ≡ story_state j t
  unfolding story_state update_trust
  state-trusted id j origins state t n =
      rw (find-update_stories id j (set_trust origins state) t.stories) (rw (==_false j id n) refl)

  state-inserted :
      (j : ℕ) (item : Item F) (embedding : List F) (exploration : Bool) (t : Tables F)
      → story_state j (insert_item item embedding exploration t) ≡ story_state j t
  unfolding story_state insert_item
  state-inserted j item embedding exploration t =
      elim (Bool-cases (has_item item.id item.ts_observed t.items)) [
        | inl q ↦ rw q refl
        | inr f ↦ rw f refl
      ]

module _ (fl : Float) (setup : Setup fl) (story : ℕ) where
  -- The cluster service has read the story's state and will write the next one.
  abbrev pub Deciding : Phase fl.F → Type 0
  Deciding (deciding other rows edges read) = other ≡ story
  Deciding _ = ⊥

  -- The step is not a promotion of the story between that read and that write.
  abbrev pub Undisturbed : {w w' : World fl.F} → Step fl setup w w' → Type 0
  Undisturbed (promotes {p = p} other) = other ≡ story → Deciding p → ⊥
  Undisturbed _ = Unit

  abbrev pub Calm : {w w' : World fl.F} → Run fl setup w w' → Type 0
  Calm done = Unit
  Calm (more x xs) = Undisturbed x × Calm xs

  -- What was read is not lower than what is stored.
  abbrev pub Fresh : Tables fl.F → Phase fl.F → Type 0
  Fresh t (deciding other rows edges read) = other ≡ story → rank (story_state story t) ≤ rank read
  Fresh t _ = Unit

  Fresh-same :
      (t t' : Tables fl.F) (p : Phase fl.F)
      → story_state story t' ≡ story_state story t
      → Fresh t p
      → Fresh t' p
  Fresh-same t t' (deciding other rows edges read) q h = λ e. rw q (h e)
  Fresh-same t t' idle q h = tt
  Fresh-same t t' (chosen m enriched target) q h = tt
  Fresh-same t t' (opening m enriched) q h = tt
  Fresh-same t t' (joining other enriched) q h = tt
  Fresh-same t t' (gathering other new_item) q h = tt
  Fresh-same t t' (detecting other new_item rows) q h = tt
  Fresh-same t t' (linked other rows) q h = tt
  Fresh-same t t' (counting other rows edges) q h = tt

  -- A promotion of the story finds the service before its read.
  Fresh-promoted : (t t' : Tables fl.F) (p : Phase fl.F) → (Deciding p → ⊥) → Fresh t' p
  Fresh-promoted t t' (deciding other rows edges read) n = λ e. absurd (n e)
  Fresh-promoted t t' idle n = tt
  Fresh-promoted t t' (chosen m enriched target) n = tt
  Fresh-promoted t t' (opening m enriched) n = tt
  Fresh-promoted t t' (joining other enriched) n = tt
  Fresh-promoted t t' (gathering other new_item) n = tt
  Fresh-promoted t t' (detecting other new_item rows) n = tt
  Fresh-promoted t t' (linked other rows) n = tt
  Fresh-promoted t t' (counting other rows edges) n = tt

  abbrev Higher : World fl.F → World fl.F → Type 0
  Higher w w' =
      (rank (story_state story w.db) ≤ rank (story_state story w'.db)) × Fresh w'.db w'.phase

  same_state :
      (t t' : Tables fl.F)
      → story_state story t' ≡ story_state story t
      → rank (story_state story t) ≤ rank (story_state story t')
  same_state t t' q = rw q (omega arith)

  promoted :
      (other : ℕ) (t : Tables fl.F) (p : Phase fl.F) (cut : List ℕ)
      → (other ≡ story → Deciding p → ⊥)
      → Fresh t p
      → Higher (world fl setup t p cut) (world fl setup (promote_primary_backed other t) p cut)
  promoted other t p cut calm h = (
    rank-Statements story (run_one (Statements.promotes other)),
    elim (eq_or_ne other story) [
      | inl e ↦ Fresh-promoted t _ p (calm e)
      | inr n ↦ Fresh-same t _ p (state-promoted other story t (λ q. n (sym q))) h
    ],
  )

  decided :
      (other origins : ℕ) (read next : TrustState) (t : Tables fl.F)
      → rank read ≤ rank next
      → (other ≡ story → rank (story_state story t) ≤ rank read)
      → rank (story_state story t) ≤ rank (story_state story (update_trust other origins next t))
  decided other origins read next t up h = elim (eq_or_ne other story) [
    | inr n ↦ same_state t _ (state-trusted other story origins next t (λ q. n (sym q)))
    | inl e ↦
        let stored : rank (story_state other t) ≤ rank next = rw e (omega (arith, up, h e)) in
        rank-Statements story (run_one (Statements.trusts other origins next stored))
  ]

  Step-Higher :
      {w w' : World fl.F} (x : Step fl setup w w')
      → Undisturbed x
      → Fresh w.db w.phase
      → Higher w w'
  Step-Higher (stores {t = t} {p = p} item embedding exploration) u h =
      let q = state-inserted story item embedding exploration t in
      (same_state t _ q, Fresh-same t _ p q h)
  Step-Higher (tallies {t = t} {p = p} flush) u h =
      let q : story_state story (insert_tallies flush t) ≡ story_state story t =
        unfold story_state insert_tallies in refl in
      (same_state t _ q, Fresh-same t _ p q h)
  Step-Higher (beats {t = t} {p = p} key value) u h =
      let q : story_state story (upsert_system_state key value t) ≡ story_state story t =
        unfold story_state upsert_system_state in refl in
      (same_state t _ q, Fresh-same t _ p q h)
  Step-Higher (promotes {t = t} {p = p} {cut = cut} other) u h = promoted other t p cut u h
  Step-Higher (chooses m enriched) u h = (omega arith, tt)
  Step-Higher (turns_away q) u h = (unfold assign_item story_state in omega arith, tt)
  Step-Higher (assigns_new q) u h = (unfold assign_item story_state in omega arith, tt)
  Step-Higher (assigns q) u h = (unfold assign_item story_state in omega arith, tt)
  Step-Higher (creates {t = t}) u h = (same_state t _ (state-created _ _ story _ _ _ t), tt)
  Step-Higher (touches {t = t}) u h = (same_state t _ (state-touch_story _ _ story _ _ t), tt)
  Step-Higher gathers u h = (omega arith, tt)
  Step-Higher (unseen q) u h = (omega arith, tt)
  Step-Higher (links q r) u h = (unfold insert_edges story_state in omega arith, tt)
  Step-Higher reads_edges u h = (omega arith, tt)
  Step-Higher (reads_state {t = t}) u h = (omega arith, λ e. rw e (omega arith))
  Step-Higher (decides {t = t} {story = other} {read = read} origins n_sources q r) u h =
      (decided other origins read _ t (next_state_monotone read origins n_sources _ _ _) h, tt)
  Step-Higher raises u h = (omega arith, tt)

  Run-Higher :
      {w w' : World fl.F} (xs : Run fl setup w w')
      → Calm xs
      → Fresh w.db w.phase
      → rank (story_state story w.db) ≤ rank (story_state story w'.db)
  Run-Higher done c h = omega arith
  Run-Higher (more x xs) c h =
      let (up, fresh) = Step-Higher x c.0 h in omega (arith, up, Run-Higher xs c.1 fresh)

  -- However the statements of the writer, of one cluster service and of the primary matcher interleave, and
  -- wherever handlers of the cluster service raise, the story's trust state does not fall, in the
  -- order rumor, corroborated, primary_backed, from a moment at which the cluster service handles no
  -- message: if no promotion of the story comes between the cluster service's read of the story's
  -- state and its write of the next one.
  pub trust_never_falls :
      {t : Tables fl.F} {cut : List ℕ} {w' : World fl.F}
      (xs : Run fl setup (world fl setup t idle cut) w')
      → Calm xs
      → rank (story_state story t) ≤ rank (story_state story w'.db)
  trust_never_falls xs c = Run-Higher xs c tt
