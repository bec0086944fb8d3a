-- ===== src/Tables/Statements/Ranks.antt =====
-- What the statements leave of the stories: the trust states never fall.
use pi_news_aggregator.Prelude.{
  ℕ, ◌≤◌, ◌≡◌, refl, Bool, true, false, ◌==◌, nat_eq, list_eq, ==_true, Bool-cases, Option-cases,
  inl, inr, Option, none, some, List, [], ◌∷◌, ◌++◌, Text, if◌then◌else◌, arith, subst,
}
use pi_news_aggregator.Trust.States.{TrustState, rumor, corroborated, primary_backed, rank}
use package.pi_news_aggregator.Tables.{StoryRow, Tables}
use package.pi_news_aggregator.Tables.Items.{insert_item, assign_item, has_item}
use package.pi_news_aggregator.Tables.Stories.{
  StoryChange, touch, set_trust, promote, has_story, find_story, change_row, update_stories,
  touched, touch_story, create_story, state_of, story_state, update_trust, promote_primary_backed,
  insert_edges,
}
use package.pi_news_aggregator.Tables.Tallies.{insert_tallies, upsert_system_state}
use package.pi_news_aggregator.Tables.Statements.{
  Statement, inserts, assigns, creates, touches, links, trusts, promotes, adds_tallies, beats,
  Statements, done, then_run,
}

top : (state : TrustState) → rank state ≤ 2
top rumor = omega arith
top corroborated = omega arith
top primary_backed = omega arith

module _ {F : Type 0} where
  pub find-append :
      (id : ℕ) (rows : List (StoryRow F)) (s : StoryRow F)
      → find_story id (rows ++ s ∷ [])
        ≡ elim (find_story id rows) [ none ↦ if s.id == id then some s else none | some r ↦ some r ]
  unfolding find_story
  find-append id [] s = refl
  find-append id (r ∷ rows) s = elim (Bool-cases (r.id == id)) [
    | inl t ↦ rw t refl
    | inr f ↦ rw f (find-append id rows s)
  ]

  id-change_row : (c : StoryChange) (s : StoryRow F) → (change_row c s).id ≡ s.id
  unfolding change_row
  id-change_row (touch a b c) s = refl
  id-change_row (set_trust o t) s = refl
  id-change_row promote s = refl

  -- What a change makes of the row that is found.
  abbrev pub changed : Bool → StoryChange → Option (StoryRow F) → Option (StoryRow F)
  changed false c o = o
  changed true c none = none
  changed true c (some s) = some (change_row c s)

  pub find-update_stories :
      (id j : ℕ) (c : StoryChange) (rows : List (StoryRow F))
      → find_story j (update_stories id c rows) ≡ changed (j == id) c (find_story j rows)
  unfolding find_story update_stories
  find-update_stories id j c [] = elim (Bool-cases (j == id)) [
    | inl t ↦ rw t refl
    | inr f ↦ rw f refl
  ]
  find-update_stories id j c (s ∷ rows) = elim (Bool-cases (s.id == id)) [
    | inl t ↦
        rw (t, id-change_row c s)
          (elim (Bool-cases (s.id == j)) [
            | inl u ↦ rw (u, same t u) refl
            | inr f ↦ rw f (find-update_stories id j c rows)
          ])
    | inr f ↦ rw f (elim (Bool-cases (s.id == j)) [
      | inl u ↦ rw (u, other f u) refl
      | inr g ↦ rw g (find-update_stories id j c rows)
    ])
  ]
    where
      same : (s.id == id) ≡ true → (s.id == j) ≡ true → (j == id) ≡ true
      same t u = ground arith

      other : (s.id == id) ≡ false → (s.id == j) ≡ true → (j == id) ≡ false
      other f u = ground arith

  rank-changed :
      (b : Bool) (c : StoryChange) (o : Option (StoryRow F))
      → ((s : StoryRow F) → o ≡ some s → rank s.trust_state ≤ rank (change_row c s).trust_state)
      → rank (state_of o) ≤ rank (state_of (changed b c o))
  unfolding state_of
  rank-changed false c o h = omega arith
  rank-changed true c none h = omega arith
  rank-changed true c (some s) h = h s refl

  -- A change that lowers no row with the id lowers no story.
  pub rank-update_stories :
      (id j : ℕ) (c : StoryChange) (rows : List (StoryRow F))
      → ((s : StoryRow F)
          → find_story id rows ≡ some s
          → rank s.trust_state ≤ rank (change_row c s).trust_state)
      → rank (state_of (find_story j rows))
        ≤ rank (state_of (find_story j (update_stories id c rows)))
  rank-update_stories id j c rows h =
      rw (find-update_stories id j c rows) (elim (Bool-cases (j == id)) [
        | inl t ↦
            rank-changed (j == id) c (find_story j rows)
              (λ s q. h s (subst (λ x. find_story x rows ≡ some s) (==_true j id t) q))
        | inr f ↦ rw f (omega arith)
      ])

  rank-touched :
      (id last_seen j : ℕ) (source : Text) (entity_set : List Text) (o : Option (StoryRow F))
      (rows : List (StoryRow F))
      → rank (state_of (find_story j rows))
        ≤ rank (state_of (find_story j (touched id last_seen source entity_set o rows)))
  unfolding touched
  rank-touched id last_seen j source entity_set none rows = omega arith
  rank-touched id last_seen j source entity_set (some row) rows =
      rank-update_stories id j _ rows (λ s q. unfold change_row in omega arith)

  rank-created :
      (j : ℕ) (rows : List (StoryRow F)) (s : StoryRow F)
      → rank (state_of (find_story j rows)) ≤ rank (state_of (find_story j (rows ++ s ∷ [])))
  unfolding state_of
  rank-created j rows s = rw (find-append j rows s) (elim (Option-cases (find_story j rows)) [
    | inl q ↦ rw q (omega arith)
    | inr (r, q) ↦ rw q (omega arith)
  ])

  rank-Statement :
      {t t' : Tables F} (j : ℕ) → Statement t t' → rank (story_state j t) ≤ rank (story_state j t')
  unfolding story_state
  rank-Statement {t = t} j (inserts item embedding exploration) =
      unfold insert_item in
      (elim (Bool-cases (has_item item.id item.ts_observed t.items)) [
        | inl q ↦ rw q (omega arith)
        | inr f ↦ rw f (omega arith)
      ])
  rank-Statement j (assigns id ts story simhash wire) = unfold assign_item in omega arith
  rank-Statement {t = t} j (creates id first_seen entity_set source centroid) =
      unfold create_story in
      (elim (Bool-cases (has_story id first_seen t.stories)) [
        | inl q ↦ rw q (omega arith)
        | inr f ↦ rw f (rank-created j t.stories _)
      ])
  rank-Statement {t = t} j (touches id last_seen source entity_set) =
      unfold touch_story in
      (rank-touched id last_seen j source entity_set (find_story id t.stories) t.stories)
  rank-Statement j (links story edges ts) = unfold insert_edges in omega arith
  rank-Statement {t = t} j (trusts id origins state h) =
      unfold update_trust in
      (rank-update_stories id j (set_trust origins state) t.stories
        (λ s q. unfold change_row state_of in (subst (λ o. rank (state_of o) ≤ rank state) q h)))
  rank-Statement {t = t} j (promotes id) =
      unfold promote_primary_backed in
      (rank-update_stories id j promote t.stories (λ s q. unfold change_row in top s.trust_state))
  rank-Statement j (adds_tallies flush) = unfold insert_tallies in omega arith
  rank-Statement j (beats key value) = unfold upsert_system_state in omega arith

  pub rank-Statements :
      {t t' : Tables F} (j : ℕ) → Statements t t' → rank (story_state j t) ≤ rank (story_state j t')
  rank-Statements j done = omega arith
  rank-Statements j (then_run x xs) = omega (arith, rank-Statement j x, rank-Statements j xs)
