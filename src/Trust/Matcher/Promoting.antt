-- ===== src/Trust/Matcher/Promoting.antt =====
-- services/trust/main.py, PrimaryMatcher.handle: what it takes to promote a story.
use pi_news_aggregator.Prelude.{
  ℕ, suc, ◌+◌, ◌-◌, ◌≤◌, ◌≡◌, refl, ap, sym, ◌∙◌, subst, true, ◌&&◌, leb, leb→le, nat_eq, list_eq,
  ==_true, and_true→both, Bool-cases, Option-cases, inl, inr, ◌⊎◌, Option, none, some, List, [],
  ◌∷◌, map, Text, nonempty, arith, In, here, there, In-take, In-append_right, In-map_inv,
}
use pi_news_aggregator.Floats.{Float}
use pi_news_aggregator.Schema.{ClaimResult, SourceClass, social}
use pi_news_aggregator.Tables.{ItemRow, Tables}
use pi_news_aggregator.Tables.Items.{
  claim_item, is_record_class, is_record, insert_newest, records_of, primary_candidates,
}
use pi_news_aggregator.Tables.Stories.{promote_primary_backed}
use pi_news_aggregator.Cluster.Choice.{Common}
use pi_news_aggregator.Trust.Match.{MatchCandidate, fold_entities}
use pi_news_aggregator.Trust.Match.Aligned.{Matched, backed, unbacked, find_primary_match-Matched}
use package.pi_news_aggregator.Trust.Matcher.{
  Matching, PrimaryMatcher, has_words, is_social, texts_of, lat_of, lon_of, candidate, is_member,
  record_for, admits, found_for, promoted, handle,
}

module _ {F : Type 0} where
  In-insert_newest :
      (r x : ItemRow F) (rows : List (ItemRow F)) → In x (insert_newest r rows) → In x (r ∷ rows)
  unfolding insert_newest
  In-insert_newest r x [] m = m
  In-insert_newest r x (s ∷ rows) m =
      elim (Bool-cases (leb s.item.ts_observed r.item.ts_observed)) [
        | inl t ↦ rw t at m
        | inr f ↦ swap (In-insert_newest r x rows) (rw f at m)
      ]
    where
      past : In x (r ∷ rows) → In x (r ∷ s ∷ rows)
      past (here q) = here q
      past (there k) = there (there k)

      swap :
          (In x (insert_newest r rows) → In x (r ∷ rows))
          → In x (s ∷ insert_newest r rows)
          → In x (r ∷ s ∷ rows)
      swap f (here q) = there (here q)
      swap f (there k) = past (f k)

  In-records_of :
      (lower : Text → Text) (from until : ℕ) (entities : List Text) (x : ItemRow F)
      (rows : List (ItemRow F))
      → In x (records_of lower from until entities rows)
      → In x rows × (is_record lower from until entities x ≡ true)
  unfolding records_of
  In-records_of lower from until entities x [] m = elim m [ ]
  In-records_of lower from until entities x (r ∷ rows) m =
      elim (Bool-cases (is_record lower from until entities r)) [
        | inl t ↦
            into (In-records_of lower from until entities x rows) t
              (In-insert_newest r x _ (rw t at m))
        | inr f ↦
            let (k, q) = In-records_of lower from until entities x rows (rw f at m) in (there k, q)
      ]
    where
      into :
          (In x (records_of lower from until entities rows)
            → In x rows × (is_record lower from until entities x ≡ true))
          → is_record lower from until entities r ≡ true
          → In x (r ∷ records_of lower from until entities rows)
          → In x (r ∷ rows) × (is_record lower from until entities x ≡ true)
      into f t (here q) = (here q, rw q t)
      into f t (there k) = let (i, e) = f k in (there i, e)

  -- A stored record that may back the row: of an authoritative or a primary source, no further from
  -- it in time than the window, and sharing an entity with it.
  pub record Backing (lower casefold : Text → Text) (window : ℕ) (row : ItemRow F)
      (items : List (ItemRow F)) : Type 0 where
    pub source_record : ItemRow F
    pub listed : In source_record items
    pub official : is_record_class source_record.item.source_class ≡ true
    pub not_before : row.item.ts_observed - window ≤ source_record.item.ts_observed
    pub not_after : source_record.item.ts_observed ≤ row.item.ts_observed + window
    pub shared :
        Common
          (fold_entities casefold (texts_of casefold row.item.entities))
          (texts_of casefold source_record.item.entities)

  split_record :
      (lower : Text → Text) (from until : ℕ) (entities : List Text) (x : ItemRow F)
      → is_record lower from until entities x ≡ true
      → (is_record_class x.item.source_class ≡ true)
        × (from ≤ x.item.ts_observed)
        × (x.item.ts_observed ≤ until)
  unfolding is_record
  split_record lower from until entities x h =
      let (a, rest) = and_true→both (is_record_class x.item.source_class) _ h in
      let (b, rest') = and_true→both (leb from x.item.ts_observed) _ rest in
      let (c, d) = and_true→both (leb x.item.ts_observed until) _ rest' in
      (a, leb→le _ _ b, leb→le _ _ c)

module _ (fl : Float) (setup : Matching fl) where
  abbrev candidates_for : ItemRow fl.F → Tables fl.F → List (ItemRow fl.F)
  candidates_for row db =
      primary_candidates setup.lower row.item.ts_observed setup.window
        (texts_of setup.casefold row.item.entities) setup.candidate_limit db.items

  from_match :
      (row : ItemRow fl.F) (db : Tables fl.F) (id : ℕ) (o : Option ℕ)
      → Matched fl setup.trig setup.geo_km_max
          (fold_entities setup.casefold (texts_of setup.casefold row.item.entities))
          (lat_of row.item.geo)
          (lon_of row.item.geo)
          (map (candidate setup.casefold) (candidates_for row db))
          o
      → o ≡ some id
      → Backing setup.lower setup.casefold setup.window row db.items
  unfolding primary_candidates candidate
  from_match row db id _ (backed before after c split rest (shares, near)) q =
      let (x, e, m) =
        In-map_inv (candidates_for row db) (candidate setup.casefold)
          (subst (λ l. In c l) (sym split) (In-append_right before _ (here refl))) in
      let (listed, is) =
        In-records_of setup.lower _ _ _ x db.items (In-take setup.candidate_limit _ m) in
      let (official, from, until) = split_record setup.lower _ _ _ x is in
      record {
        source_record = x;
        listed = listed;
        official = official;
        not_before = from;
        not_after = until;
        shared =
            subst
              (λ (k : MatchCandidate fl.F).
                Common (fold_entities setup.casefold (texts_of setup.casefold row.item.entities))
                  k.entity_texts)
              (sym e) shares;
      }
  from_match row db id _ (unbacked all) q = cc q

  record_for-Backing :
      (row : ItemRow fl.F) (db : Tables fl.F) (id : ℕ)
      → record_for fl setup row db ≡ some id
      → Backing setup.lower setup.casefold setup.window row db.items
  unfolding record_for
  record_for-Backing row db id h =
      elim (Bool-cases (nonempty (texts_of setup.casefold row.item.entities))) [
        | inl t ↦
            from_match row db id _
              (find_primary_match-Matched fl setup.trig setup.casefold setup.geo_km_max
                (texts_of setup.casefold row.item.entities) (lat_of row.item.geo)
                (lon_of row.item.geo) (map (candidate setup.casefold) (candidates_for row db)))
              (rw t at h)
        | inr f ↦ cc (rw f at h)
      ]

  -- Why a claim promotes its story.
  pub record Promotion (claim : ClaimResult) (db : Tables fl.F) : Type 0 where
    pub words : has_words setup.is_space claim.claim ≡ true
    pub row : ItemRow fl.F
    pub stored : claim_item claim.item_id db.items ≡ some row
    pub current : row.story_id ≡ some claim.story_id
    pub from_social : row.item.source_class ≡ social
    pub backing : Backing setup.lower setup.casefold setup.window row db.items

  is_member→current :
      (story : ℕ) (row : ItemRow fl.F) (o : Option ℕ)
      → row.story_id ≡ o
      → is_member story row ≡ true
      → row.story_id ≡ some story
  unfolding is_member
  is_member→current story row none q h = cc (rw q at h)
  is_member→current story row (some s) q h = q ∙ ap some (==_true s story (rw q at h))

  is_social→ : (c : SourceClass) → is_social c ≡ true → c ≡ social
  is_social→ c h = ground arith

  promotion :
      (claim : ClaimResult) (db : Tables fl.F) (id : ℕ)
      → has_words setup.is_space claim.claim ≡ true
      → (o : Option (ItemRow fl.F)) → claim_item claim.item_id db.items ≡ o
      → found_for fl setup claim o db ≡ some id
      → Promotion claim db
  unfolding found_for admits
  promotion claim db id w none q h = cc h
  promotion claim db id w (some row) q h =
      elim (Bool-cases (is_member claim.story_id row && is_social row.item.source_class)) [
        | inl t ↦
            let (a, b) = and_true→both (is_member claim.story_id row) _ t in
            record {
              words = w;
              row = row;
              stored = q;
              current = is_member→current claim.story_id row row.story_id refl a;
              from_social = is_social→ row.item.source_class b;
              backing = record_for-Backing row db id (rw t at h);
            }
        | inr f ↦ cc (rw f at h)
      ]

  -- A claim result either only moves the count of those seen, or promotes its story, and then: the
  -- claim has words, its item is stored, social and still in the story, and a stored record of an
  -- authoritative or primary source, observed within the window, shares a case-folded entity with it.
  pub handle-Promotes :
      (claim : ClaimResult) (s : PrimaryMatcher fl.F)
      → (handle fl setup claim s ≡ record s { seen = suc s.seen })
        ⊎ (Promotion claim s.db
            × (handle fl setup claim s ≡ record s {
              seen = suc s.seen;
              matched = suc s.matched;
              db = promote_primary_backed claim.story_id s.db;
            }))
  unfolding handle promoted
  handle-Promotes claim s = elim (Bool-cases (has_words setup.is_space claim.claim)) [
    | inl t ↦
        elim (Option-cases (found_for fl setup claim (claim_item claim.item_id s.db.items) s.db)) [
          | inl q ↦ inl (rw (t, q, promoted) refl)
          | inr (id, q) ↦ inr (promotion claim s.db id t _ refl q, rw (t, q, promoted) refl)
        ]
    | inr f ↦ inl (rw f refl)
  ]
