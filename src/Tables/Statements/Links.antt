-- ===== src/Tables/Statements/Links.antt =====
-- Every item that has a story has one that is stored.
use pi_news_aggregator.Prelude.{
  ℕ, ◌≡◌, refl, sym, ap, ◌∙◌, subst, Bool, ◌&&◌, ◌==◌, nat_eq, Bool-cases, inl, inr, ◌⊎◌, Option,
  none, some, List, [], ◌∷◌, ◌++◌, Text, ℤ, In, here, there, In-append, In-one,
}
use pi_news_aggregator.Schema.{Item}
use package.pi_news_aggregator.Tables.{ItemRow, StoryRow, Tables}
use package.pi_news_aggregator.Tables.Items.{
  has_item, insert_item, assign_row, assign_rows, assign_item,
}
use package.pi_news_aggregator.Tables.Stories.{
  StoryChange, change_row, find_story, has_story, create_story, touched, touch_story,
  update_stories, update_trust, promote_primary_backed, insert_edges,
}
use package.pi_news_aggregator.Tables.Tallies.{insert_tallies, upsert_system_state}
use package.pi_news_aggregator.Tables.Statements.{
  Statement, inserts, assigns, creates, touches, links, trusts, promotes, adds_tallies, beats,
  Statements, done, then_run,
}
use package.pi_news_aggregator.Tables.Statements.Ranks.{find-append, find-update_stories}

module _ {F : Type 0} where
  -- A story with the id is stored.
  pub record Stored (story : ℕ) (t : Tables F) : Type 0 where
    pub row : StoryRow F
    pub found : find_story story t.stories ≡ some row

  -- Every item that has a story has one that is stored.
  pub record Linked (t : Tables F) : Type 0 where
    pub stored :
        (r : ItemRow F) (story : ℕ) → In r t.items → r.story_id ≡ some story → Stored story t

  -- As Linked, but for the items of one story.
  pub record LinkedBut (exempt : ℕ) (t : Tables F) : Type 0 where
    pub stored :
        (r : ItemRow F) (story : ℕ)
        → In r t.items
        → r.story_id ≡ some story
        → (story ≡ exempt) ⊎ Stored story t

  pub found-update_stories :
      (id j : ℕ) (c : StoryChange) (rows : List (StoryRow F)) (row : StoryRow F)
      → find_story j rows ≡ some row
      → (row' : StoryRow F) × (find_story j (update_stories id c rows) ≡ some row')
  found-update_stories id j c rows row q = elim (Bool-cases (j == id)) [
    | inl t ↦ (change_row c row, find-update_stories id j c rows ∙ rw (t, q) refl)
    | inr f ↦ (row, find-update_stories id j c rows ∙ rw (f, q) refl)
  ]

  found-touched :
      (id last_seen j : ℕ) (source : Text) (entity_set : List Text) (o : Option (StoryRow F))
      (rows : List (StoryRow F)) (row : StoryRow F)
      → find_story j rows ≡ some row
      → (row' : StoryRow F) × (find_story j (touched id last_seen source entity_set o rows)
          ≡ some row')
  unfolding touched
  found-touched id last_seen j source entity_set none rows row q = (row, q)
  found-touched id last_seen j source entity_set (some r) rows row q =
      found-update_stories id j _ rows row q

  pub found→Stored :
      {story : ℕ} {t : Tables F} (row : StoryRow F)
      → find_story story t.stories ≡ some row
      → Stored story t
  found→Stored row q = record { row = row; found = q }

  pub Stored-Statement :
      {t t' : Tables F} (story : ℕ) → Statement t t' → Stored story t → Stored story t'
  Stored-Statement {t = t} story (inserts item embedding exploration) s =
      unfold insert_item in
      (elim (Bool-cases (has_item item.id item.ts_observed t.items)) [
        | inl q ↦ rw q s
        | inr f ↦ rw f (found→Stored s.row s.found)
      ])
  Stored-Statement story (assigns id ts other simhash wire) s =
      unfold assign_item in found→Stored s.row s.found
  Stored-Statement {t = t} story (creates id first_seen entity_set source centroid) s =
      unfold create_story in
      (elim (Bool-cases (has_story id first_seen t.stories)) [
        | inl q ↦ rw q s
        | inr f ↦ rw f (found→Stored s.row (find-append story t.stories _ ∙ rw s.found refl))
      ])
  Stored-Statement {t = t} story (touches id last_seen source entity_set) s =
      unfold touch_story in
      (let (row, q) =
          found-touched id last_seen story source entity_set (find_story id t.stories) t.stories
            s.row s.found in
        found→Stored row q)
  Stored-Statement story (links other edges ts) s =
      unfold insert_edges in found→Stored s.row s.found
  Stored-Statement {t = t} story (trusts id origins state h) s =
      unfold update_trust in
      (let (row, q) = found-update_stories id story _ t.stories s.row s.found in found→Stored row q)
  Stored-Statement {t = t} story (promotes id) s =
      unfold promote_primary_backed in
      (let (row, q) = found-update_stories id story _ t.stories s.row s.found in found→Stored row q)
  Stored-Statement story (adds_tallies flush) s =
      unfold insert_tallies in found→Stored s.row s.found
  Stored-Statement story (beats key value) s =
      unfold upsert_system_state in found→Stored s.row s.found

  pub Stored-Statements :
      {t t' : Tables F} (story : ℕ) → Statements t t' → Stored story t → Stored story t'
  Stored-Statements story done s = s
  Stored-Statements story (then_run x xs) s =
      Stored-Statements story xs (Stored-Statement story x s)

  -- Statements that leave the items alone.
  pub Linked-same : {t t' : Tables F} → Statements t t' → t'.items ≡ t.items → Linked t → Linked t'
  Linked-same x q l = record {
    stored =
        λ r story m e. Stored-Statements story x (l.stored r story (subst (λ xs. In r xs) q m) e);
  }

  -- So too if they store the story that was exempt.
  pub LinkedBut-same :
      {t t' : Tables F} (exempt : ℕ)
      → Statements t t'
      → t'.items ≡ t.items
      → Stored exempt t'
      → LinkedBut exempt t
      → Linked t'
  LinkedBut-same exempt x q s l = record {
    stored = λ r story m e. elim (l.stored r story (subst (λ xs. In r xs) q m) e) [
      | inl same ↦ rw same s
      | inr old ↦ Stored-Statements story x old
    ];
  }

  pub insert_item-Linked :
      (item : Item F) (embedding : List F) (exploration : Bool) (t : Tables F)
      → Linked t
      → Linked (insert_item item embedding exploration t)
  unfolding insert_item
  insert_item-Linked item embedding exploration t l =
      elim (Bool-cases (has_item item.id item.ts_observed t.items)) [
        | inl q ↦ rw q l
        | inr f ↦ rw f (record {
          stored = λ r story m e. found→Stored (any r story m e).row (any r story m e).found;
        })
      ]
    where
      any :
          (r : ItemRow F) (story : ℕ)
          → In r (
              t.items
              ++ record {
                item = item;
                embedding = embedding;
                exploration = exploration;
                story_id = none;
                simhash = none;
                wire_ref = [];
              }
                ∷ [])
          → r.story_id ≡ some story
          → Stored story t
      any r story m e = elim (In-append t.items _ m) [
        | inl a ↦ l.stored r story a e
        | inr b ↦ cc (ap (λ (k : ItemRow F). k.story_id) (In-one b), e)
      ]

  -- A row of the updated items is assigned to the story, or was there before.
  pub row-assign_rows :
      (id ts story : ℕ) (simhash : ℤ) (wire : Text) (r : ItemRow F) (rows : List (ItemRow F))
      → In r (assign_rows id ts story simhash wire rows)
      → (r.story_id ≡ some story) ⊎ In r rows
  unfolding assign_rows assign_row
  row-assign_rows id ts story simhash wire r [] m = elim m [ ]
  row-assign_rows id ts story simhash wire r (x ∷ rows) (here q) =
      elim (Bool-cases (x.item.id == id && x.item.ts_observed == ts)) [
        | inl t ↦ inl (ap (λ (k : ItemRow F). k.story_id) (rw t at q))
        | inr f ↦ inr (here (rw f at q))
      ]
  row-assign_rows id ts story simhash wire r (x ∷ rows) (there m) =
      elim (row-assign_rows id ts story simhash wire r rows m) [
        | inl a ↦ inl a
        | inr b ↦ inr (there b)
      ]

  pub assign_item-LinkedBut :
      (id ts story : ℕ) (simhash : ℤ) (wire : Text) (t : Tables F)
      → Linked t
      → LinkedBut story (assign_item id ts story simhash wire t).1
  unfolding assign_item
  assign_item-LinkedBut id ts story simhash wire t l = record {
    stored = λ r other m e. elim (row-assign_rows id ts story simhash wire r t.items m) [
      | inl a ↦ inl (same (sym e ∙ a))
      | inr b ↦ inr (let s = l.stored r other b e in found→Stored s.row s.found)
    ];
  }
    where
      same : {a b : ℕ} → some a ≡ some b → a ≡ b
      same q = cc q
