-- ===== src/Tables/Items.antt =====
-- insert_item of services/enrich/db.py, and the statements on `items` of services/cluster/db.py and
-- services/trust/db.py.
use pi_news_aggregator.Prelude.{
  ℕ, ◌+◌, ◌-◌, Bool, true, false, ◌&&◌, ◌||◌, not, leb, ◌==◌, nat_eq, list_eq, ℤ, Option, none,
  some, List, [], ◌∷◌, ◌++◌, Text, contains, take, if◌then◌else◌,
}
use pi_news_aggregator.Floats.{Float}
use pi_news_aggregator.Schema.{Item, Entity, SourceClass, authoritative, primary}
use package.pi_news_aggregator.Tables.{ItemRow, Tables}

abbrev pub is_record_class : SourceClass → Bool
is_record_class authoritative = true
is_record_class primary = true
is_record_class _ = false

module _ {F : Type 0} where
  -- The primary key of a row is (id, ts_observed).
  unfoldable pub has_item : ℕ → ℕ → List (ItemRow F) → Bool
  has_item id ts [] = false
  has_item id ts (r ∷ rows) = (r.item.id == id && r.item.ts_observed == ts) || has_item id ts rows

  -- _INSERT
  unfoldable pub insert_item : Item F → List F → Bool → Tables F → Tables F
  unfolding has_item
  insert_item item embedding exploration t =
      if has_item item.id item.ts_observed t.items then t else record t {
        items =
            t.items
            ++ record {
              item = item;
              embedding = embedding;
              exploration = exploration;
              story_id = none;
              simhash = none;
              wire_ref = [];
            }
              ∷ [];
      }

  -- _ASSIGN, on a row
  unfoldable pub assign_row : ℕ → ℕ → ℕ → ℤ → Text → ItemRow F → ItemRow F
  assign_row id ts story simhash wire r =
      if r.item.id == id && r.item.ts_observed == ts
      then record r { story_id = some story; simhash = some simhash; wire_ref = wire }
      else r

  unfoldable pub assign_rows : ℕ → ℕ → ℕ → ℤ → Text → List (ItemRow F) → List (ItemRow F)
  assign_rows id ts story simhash wire [] = []
  assign_rows id ts story simhash wire (r ∷ rows) =
      assign_row id ts story simhash wire r ∷ assign_rows id ts story simhash wire rows

  -- _ASSIGN, and whether a row was updated
  unfoldable pub assign_item : ℕ → ℕ → ℕ → ℤ → Text → Tables F → Bool × Tables F
  assign_item id ts story simhash wire t =
      (has_item id ts t.items, record t { items = assign_rows id ts story simhash wire t.items })

  abbrev pub in_story : ℕ → ItemRow F → Bool
  in_story story r = elim r.story_id [ none ↦ false | some s ↦ s == story ]

  -- _STORY_PROV: the rows of the story
  unfoldable pub story_prov : ℕ → List (ItemRow F) → List (ItemRow F)
  story_prov story [] = []
  story_prov story (r ∷ rows) =
      let rest = story_prov story rows in if in_story story r then r ∷ rest else rest

  -- _CLAIM_ITEM, of which the first row is fetched
  unfoldable pub claim_item : ℕ → List (ItemRow F) → Option (ItemRow F)
  claim_item id [] = none
  claim_item id (r ∷ rows) = if r.item.id == id then some r else claim_item id rows

  -- EXISTS … WHERE lower(e->>'text') = ANY(entities)
  unfoldable pub names_one : (Text → Text) → List Text → List (Entity F) → Bool
  names_one lower entities [] = false
  names_one lower entities (e ∷ es) =
      contains (lower e.text) entities || names_one lower entities es

  -- The WHERE of _CANDIDATES, with the two ends of the window
  unfoldable pub is_record : (Text → Text) → ℕ → ℕ → List Text → ItemRow F → Bool
  unfolding names_one
  is_record lower from until entities r =
      is_record_class r.item.source_class
      && (leb from r.item.ts_observed
          && (leb r.item.ts_observed until && names_one lower entities r.item.entities))

  -- Into rows with the newest first, before the first that is no newer.
  unfoldable pub insert_newest : ItemRow F → List (ItemRow F) → List (ItemRow F)
  insert_newest r [] = r ∷ []
  insert_newest r (s ∷ rows) =
      let rest = insert_newest r rows in
      if leb s.item.ts_observed r.item.ts_observed then r ∷ s ∷ rows else s ∷ rest

  unfoldable pub records_of :
      (Text → Text) → ℕ → ℕ → List Text → List (ItemRow F) → List (ItemRow F)
  unfolding is_record insert_newest
  records_of lower from until entities [] = []
  records_of lower from until entities (r ∷ rows) =
      let rest = records_of lower from until entities rows in
      if is_record lower from until entities r then insert_newest r rest else rest

  -- _CANDIDATES
  unfoldable pub primary_candidates :
      (Text → Text) → ℕ → ℕ → List Text → ℕ → List (ItemRow F) → List (ItemRow F)
  unfolding records_of
  primary_candidates lower around window entities limit rows =
      take limit (records_of lower (around - window) (around + window) entities rows)

module _ (fl : Float) (distance : List fl.F → List fl.F → fl.F) where
  -- The WHERE of _NEAREST; every row has an embedding.
  unfoldable pub is_near : ℕ → ℕ → ItemRow fl.F → Bool
  is_near since exclude_id r =
      elim r.story_id [ none ↦ false | some s ↦ true ]
      && (leb since r.item.ts_observed && not (r.item.id == exclude_id))

  -- ORDER BY embedding <=> vec
  unfoldable pub insert_near : List fl.F → ItemRow fl.F → List (ItemRow fl.F) → List (ItemRow fl.F)
  insert_near vec r [] = r ∷ []
  insert_near vec r (s ∷ rows) =
      let rest = insert_near vec r rows in
      if fl.leb (distance r.embedding vec) (distance s.embedding vec)
      then r ∷ s ∷ rows
      else s ∷ rest

  unfoldable pub near_rows : List fl.F → ℕ → ℕ → List (ItemRow fl.F) → List (ItemRow fl.F)
  unfolding is_near insert_near
  near_rows vec since exclude_id [] = []
  near_rows vec since exclude_id (r ∷ rows) =
      let rest = near_rows vec since exclude_id rows in
      if is_near since exclude_id r then insert_near vec r rest else rest

  -- _NEAREST; the column sim is 1 - distance.
  unfoldable pub nearest : List fl.F → ℕ → ℕ → ℕ → List (ItemRow fl.F) → List (ItemRow fl.F)
  unfolding near_rows
  nearest vec since exclude_id k rows = take k (near_rows vec since exclude_id rows)
