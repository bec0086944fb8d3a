-- ===== src/Tables/Statements/Kept.antt =====
-- What stays: no statement takes an item or a tally away.
use pi_news_aggregator.Prelude.{
  ℕ, ◌≡◌, refl, Bool, true, false, ◌&&◌, ◌||◌, ◌==◌, nat_eq, list_eq, ℤ, ==_refl, Bool-cases, inl,
  inr, List, [], ◌∷◌, ◌++◌, Text, Dict, All,
}
use pi_news_aggregator.Schema.{Item}
use package.pi_news_aggregator.Tables.{ItemRow, TallyRow, Tables}
use package.pi_news_aggregator.Tables.Items.{
  has_item, insert_item, assign_row, assign_rows, assign_item,
}
use package.pi_news_aggregator.Tables.Stories.{
  has_story, create_story, touch_story, insert_edges, update_trust, promote_primary_backed,
}
use package.pi_news_aggregator.Tables.Tallies.{
  has_tally, insert_tally, insert_counts, insert_tallies, upsert_system_state,
}
use package.pi_news_aggregator.Tables.Statements.{
  Statement, inserts, assigns, creates, touches, links, trusts, promotes, adds_tallies, beats,
  Statements, done, then_run,
}

has_tally-append :
    (e : Text) (ts : ℕ) (replica : Text) (rows more : List TallyRow)
    → has_tally e ts replica rows ≡ true
    → has_tally e ts replica (rows ++ more) ≡ true
unfolding has_tally
has_tally-append e ts replica [] more h = cc
has_tally-append e ts replica (r ∷ rows) more h =
    elim (Bool-cases (r.entity == e && (r.bucket_ts == ts && r.replica == replica))) [
      | inl t ↦ rw t refl
      | inr f ↦ rw f (has_tally-append e ts replica rows more (rw f at h))
    ]

has_tally-last :
    (e : Text) (ts : ℕ) (replica : Text) (n : ℕ) (rows : List TallyRow)
    → has_tally e ts replica
        (rows ++ record { entity = e; bucket_ts = ts; replica = replica; mentions = n } ∷ [])
      ≡ true
unfolding has_tally
has_tally-last e ts replica n [] = rw (==_refl e, ==_refl ts, ==_refl replica) refl
has_tally-last e ts replica n (r ∷ rows) = rw (has_tally-last e ts replica n rows) (or_true _)
  where
    or_true : (b : Bool) → (b || true) ≡ true
    or_true true = refl
    or_true false = refl

has_tally-insert_tally :
    (e f : Text) (ts us : ℕ) (replica other : Text) (n : ℕ) (rows : List TallyRow)
    → has_tally e ts replica rows ≡ true
    → has_tally e ts replica (insert_tally f us other n rows) ≡ true
unfolding insert_tally
has_tally-insert_tally e f ts us replica other n rows h =
    elim (Bool-cases (has_tally f us other rows)) [
      | inl t ↦ rw t h
      | inr g ↦ rw g (has_tally-append e ts replica rows _ h)
    ]

has_tally-insert_counts :
    (e : Text) (ts us : ℕ) (replica other : Text) (counts : Dict Text ℕ) (rows : List TallyRow)
    → has_tally e ts replica rows ≡ true
    → has_tally e ts replica (insert_counts us other counts rows) ≡ true
unfolding insert_counts
has_tally-insert_counts e ts us replica other [] rows h = h
has_tally-insert_counts e ts us replica other ((f, n) ∷ counts) rows h =
    has_tally-insert_counts e ts us replica other counts _
      (has_tally-insert_tally e f ts us replica other n rows h)

-- Every count of a flush has a row.
abbrev pub Tallied : ℕ → Text → Dict Text ℕ → List TallyRow → Type 0
Tallied ts replica counts rows = All (λ (c : Text × ℕ). has_tally c.0 ts replica rows ≡ true) counts

pub insert_counts-Tallied :
    (ts : ℕ) (replica : Text) (counts : Dict Text ℕ) (rows : List TallyRow)
    → Tallied ts replica counts (insert_counts ts replica counts rows)
unfolding insert_counts insert_tally
insert_counts-Tallied ts replica [] rows = tt
insert_counts-Tallied ts replica ((e, n) ∷ counts) rows = (
  has_tally-insert_counts e ts ts replica replica counts _ first,
  insert_counts-Tallied ts replica counts _,
)
  where
    first : has_tally e ts replica (insert_tally e ts replica n rows) ≡ true
    first = elim (Bool-cases (has_tally e ts replica rows)) [
      | inl t ↦ rw t t
      | inr f ↦ rw f (has_tally-last e ts replica n rows)
    ]

-- Counts that all have a row change nothing.
pub insert_counts_again :
    (ts : ℕ) (replica : Text) (counts : Dict Text ℕ) (rows : List TallyRow)
    → Tallied ts replica counts rows
    → insert_counts ts replica counts rows ≡ rows
unfolding insert_counts insert_tally
insert_counts_again ts replica [] rows h = refl
insert_counts_again ts replica ((e, n) ∷ counts) rows h =
    rw h.0 (insert_counts_again ts replica counts rows h.1)

Tallied-insert_counts :
    (ts us : ℕ) (replica other : Text) (counts more : Dict Text ℕ) (rows : List TallyRow)
    → Tallied ts replica counts rows
    → Tallied ts replica counts (insert_counts us other more rows)
Tallied-insert_counts ts us replica other [] more rows h = tt
Tallied-insert_counts ts us replica other ((e, n) ∷ counts) more rows h = (
  has_tally-insert_counts e ts us replica other more rows h.0,
  Tallied-insert_counts ts us replica other counts more rows h.1,
)

module _ {F : Type 0} where
  has_item-append :
      (id ts : ℕ) (rows more : List (ItemRow F))
      → has_item id ts rows ≡ true
      → has_item id ts (rows ++ more) ≡ true
  unfolding has_item
  has_item-append id ts [] more h = cc
  has_item-append id ts (r ∷ rows) more h =
      elim (Bool-cases (r.item.id == id && r.item.ts_observed == ts)) [
        | inl t ↦ rw t refl
        | inr f ↦ rw f (has_item-append id ts rows more (rw f at h))
      ]

  has_item-last :
      (rows : List (ItemRow F)) (r : ItemRow F)
      → has_item r.item.id r.item.ts_observed (rows ++ r ∷ []) ≡ true
  unfolding has_item
  has_item-last [] r = rw (==_refl r.item.id, ==_refl r.item.ts_observed) refl
  has_item-last (s ∷ rows) r =
      elim (Bool-cases (s.item.id == r.item.id && s.item.ts_observed == r.item.ts_observed)) [
        | inl t ↦ rw t refl
        | inr f ↦ rw f (has_item-last rows r)
      ]

  pub has_item-assign_rows :
      (id ts i us story : ℕ) (simhash : ℤ) (wire : Text) (rows : List (ItemRow F))
      → has_item id ts (assign_rows i us story simhash wire rows) ≡ has_item id ts rows
  unfolding has_item assign_rows assign_row
  has_item-assign_rows id ts i us story simhash wire [] = refl
  has_item-assign_rows id ts i us story simhash wire (r ∷ rows) =
      elim (Bool-cases (r.item.id == i && r.item.ts_observed == us)) [
        | inl t ↦ rw (t, has_item-assign_rows id ts i us story simhash wire rows) refl
        | inr f ↦ rw (f, has_item-assign_rows id ts i us story simhash wire rows) refl
      ]

  pub insert_item-has_item :
      (item : Item F) (embedding : List F) (exploration : Bool) (t : Tables F)
      → has_item item.id item.ts_observed (insert_item item embedding exploration t).items ≡ true
  unfolding insert_item
  insert_item-has_item item embedding exploration t =
      elim (Bool-cases (has_item item.id item.ts_observed t.items)) [
        | inl q ↦ rw q q
        | inr f ↦ rw f (has_item-last t.items _)
      ]

  pub Statement-has_item :
      {t t' : Tables F} (id ts : ℕ)
      → Statement t t'
      → has_item id ts t.items ≡ true
      → has_item id ts t'.items ≡ true
  Statement-has_item {t = t} id ts (inserts item embedding exploration) h =
      unfold insert_item in
      (elim (Bool-cases (has_item item.id item.ts_observed t.items)) [
        | inl q ↦ rw q h
        | inr f ↦ rw f (has_item-append id ts t.items _ h)
      ])
  Statement-has_item {t = t} id ts (assigns i us story simhash wire) h =
      unfold assign_item in (rw (has_item-assign_rows id ts i us story simhash wire t.items) h)
  Statement-has_item {t = t} id ts (creates i first_seen entity_set source centroid) h =
      unfold create_story in
      (elim (Bool-cases (has_story i first_seen t.stories)) [ inl q ↦ rw q h | inr f ↦ rw f h ])
  Statement-has_item id ts (touches i last_seen source entity_set) h = unfold touch_story in h
  Statement-has_item id ts (links story edges us) h = unfold insert_edges in h
  Statement-has_item id ts (trusts i origins state l) h = unfold update_trust in h
  Statement-has_item id ts (promotes i) h = unfold promote_primary_backed in h
  Statement-has_item id ts (adds_tallies flush) h = unfold insert_tallies in h
  Statement-has_item id ts (beats key value) h = unfold upsert_system_state in h

  pub Statements-has_item :
      {t t' : Tables F} (id ts : ℕ)
      → Statements t t'
      → has_item id ts t.items ≡ true
      → has_item id ts t'.items ≡ true
  Statements-has_item id ts done h = h
  Statements-has_item id ts (then_run x xs) h =
      Statements-has_item id ts xs (Statement-has_item id ts x h)

  Statement-Tallied :
      {t t' : Tables F} (ts : ℕ) (replica : Text) (counts : Dict Text ℕ)
      → Statement t t'
      → Tallied ts replica counts t.entity_tallies
      → Tallied ts replica counts t'.entity_tallies
  Statement-Tallied {t = t} ts replica counts (inserts item embedding exploration) h =
      unfold insert_item in
      (elim (Bool-cases (has_item item.id item.ts_observed t.items)) [
        | inl q ↦ rw q h
        | inr f ↦ rw f h
      ])
  Statement-Tallied ts replica counts (assigns i us story simhash wire) h = unfold assign_item in h
  Statement-Tallied {t = t} ts replica counts (creates i first_seen entity_set source centroid) h =
      unfold create_story in
      (elim (Bool-cases (has_story i first_seen t.stories)) [ inl q ↦ rw q h | inr f ↦ rw f h ])
  Statement-Tallied ts replica counts (touches i last_seen source entity_set) h =
      unfold touch_story in h
  Statement-Tallied ts replica counts (links story edges us) h = unfold insert_edges in h
  Statement-Tallied ts replica counts (trusts i origins state l) h = unfold update_trust in h
  Statement-Tallied ts replica counts (promotes i) h = unfold promote_primary_backed in h
  Statement-Tallied {t = t} ts replica counts (adds_tallies flush) h =
      unfold insert_tallies in
      (Tallied-insert_counts ts flush.bucket_ts replica flush.replica counts flush.counts
        t.entity_tallies h)
  Statement-Tallied ts replica counts (beats key value) h = unfold upsert_system_state in h

  pub Statements-Tallied :
      {t t' : Tables F} (ts : ℕ) (replica : Text) (counts : Dict Text ℕ)
      → Statements t t'
      → Tallied ts replica counts t.entity_tallies
      → Tallied ts replica counts t'.entity_tallies
  Statements-Tallied ts replica counts done h = h
  Statements-Tallied ts replica counts (then_run x xs) h =
      Statements-Tallied ts replica counts xs (Statement-Tallied ts replica counts x h)
