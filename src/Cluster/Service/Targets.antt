-- ===== src/Cluster/Service/Targets.antt =====
-- services/cluster/main.py, Clusterer.handle: the story that an item joins is one that an item has.
use pi_news_aggregator.Prelude.{
  ℕ, ◌≡◌, refl, sym, ap, ◌∙◌, subst, Bool-cases, inl, inr, Option, none, some, List, [], ◌∷◌, Text,
  In, here, there, In-append, In-append_right, In-one, In-take, ◌-◌,
}
use pi_news_aggregator.Floats.{Float}
use pi_news_aggregator.Schema.{EnrichedItem}
use pi_news_aggregator.Tables.{ItemRow, Tables}
use pi_news_aggregator.Tables.Items.{is_near, insert_near, near_rows, nearest}
use pi_news_aggregator.Cluster.{Neighbor, entity_texts}
use pi_news_aggregator.Cluster.Choice.{Chosen, joined, opened, choose_story-Chosen}
use package.pi_news_aggregator.Cluster.Service.{Setup, Moment, neighbor, neighbors, target_of}

module _ (fl : Float) (distance : List fl.F → List fl.F → fl.F) where
  In-insert_near :
      (vec : List fl.F) (r x : ItemRow fl.F) (rows : List (ItemRow fl.F))
      → In x (insert_near fl distance vec r rows)
      → In x (r ∷ rows)
  unfolding insert_near
  In-insert_near vec r x [] m = m
  In-insert_near vec r x (s ∷ rows) m =
      elim (Bool-cases (fl.leb (distance r.embedding vec) (distance s.embedding vec))) [
        | inl t ↦ rw t at m
        | inr f ↦ swap (In-insert_near vec r x rows) (rw f at m)
      ]
    where
      past : In x (r ∷ rows) → In x (r ∷ s ∷ rows)
      past (here q) = here q
      past (there k) = there (there k)

      swap :
          (In x (insert_near fl distance vec r rows) → In x (r ∷ rows))
          → In x (s ∷ insert_near fl distance vec r rows)
          → In x (r ∷ s ∷ rows)
      swap f (here q) = there (here q)
      swap f (there k) = past (f k)

  In-near_rows :
      (vec : List fl.F) (since id : ℕ) (x : ItemRow fl.F) (rows : List (ItemRow fl.F))
      → In x (near_rows fl distance vec since id rows)
      → In x rows
  unfolding near_rows
  In-near_rows vec since id x [] m = elim m [ ]
  In-near_rows vec since id x (r ∷ rows) m = elim (Bool-cases (is_near fl distance since id r)) [
    | inl t ↦ into (In-near_rows vec since id x rows) (In-insert_near vec r x _ (rw t at m))
    | inr f ↦ there (In-near_rows vec since id x rows (rw f at m))
  ]
    where
      into :
          (In x (near_rows fl distance vec since id rows) → In x rows)
          → In x (r ∷ near_rows fl distance vec since id rows)
          → In x (r ∷ rows)
      into f (here q) = here q
      into f (there k) = there (f k)

  In-nearest :
      (vec : List fl.F) (since id k : ℕ) (x : ItemRow fl.F) (rows : List (ItemRow fl.F))
      → In x (nearest fl distance vec since id k rows)
      → In x rows
  unfolding nearest
  In-nearest vec since id k x rows m = In-near_rows vec since id x rows (In-take k _ m)

module _ (fl : Float) (setup : Setup fl) where
  -- An item of the rows that is in the story.
  pub record Member (story : ℕ) (rows : List (ItemRow fl.F)) : Type 0 where
    pub row : ItemRow fl.F
    pub listed : In row rows
    pub joined : row.story_id ≡ some story

  neighbor-Member :
      (vec : List fl.F) (n : Neighbor fl.F) (r : ItemRow fl.F) (o : Option ℕ)
      → r.story_id ≡ o
      → In n (neighbor fl setup vec r)
      → r.story_id ≡ some n.story_id
  unfolding neighbor
  neighbor-Member vec n r none q m = absurd (nothing (rw q at m))
    where
      nothing : In n [] → ⊥
      nothing k = elim k [ ]
  neighbor-Member vec n r (some s) q m =
      q ∙ ap some (sym (ap (λ (k : Neighbor fl.F). k.story_id) (In-one (rw q at m))))

  neighbors-Member :
      (vec : List fl.F) (n : Neighbor fl.F) (rows : List (ItemRow fl.F))
      → In n (neighbors fl setup vec rows)
      → Member n.story_id rows
  unfolding neighbors
  neighbors-Member vec n [] m = elim m [ ]
  neighbors-Member vec n (r ∷ rows) m = elim (In-append (neighbor fl setup vec r) _ m) [
    | inl a ↦ record {
      row = r;
      listed = here refl;
      joined = neighbor-Member vec n r r.story_id refl a;
    }
    | inr b ↦
        let k = neighbors-Member vec n rows b in
        record { row = k.row; listed = there k.listed; joined = k.joined }
  ]

  chosen-Member :
      (vec : List fl.F) (rows : List (ItemRow fl.F)) (folded : List Text) (story : ℕ) (o : Option ℕ)
      → Chosen fl folded setup.theta (neighbors fl setup vec rows) o
      → o ≡ some story
      → Member story rows
  chosen-Member vec rows folded story _ (joined before after n split rest fits) q =
      let k =
        neighbors-Member vec n rows
          (subst (λ l. In n l) (sym split) (In-append_right before _ (here refl))) in
      record { row = k.row; listed = k.listed; joined = k.joined ∙ q }
  chosen-Member vec rows folded story _ (opened all) q = cc q

  -- The story that an item joins is one that a stored item is in.
  pub target_of-Member :
      (m : Moment) (enriched : EnrichedItem fl.F) (db : Tables fl.F) (story : ℕ)
      → target_of fl setup m enriched db ≡ some story
      → Member story db.items
  unfolding target_of
  target_of-Member m enriched db story q =
      let rows =
        nearest fl setup.distance enriched.embedding (m.now - setup.window) enriched.item.id
          setup.topk db.items in
      let k =
        chosen-Member enriched.embedding rows _ story _
          (choose_story-Chosen fl setup.casefold
            (entity_texts setup.casefold enriched.item.entities)
            (neighbors fl setup enriched.embedding rows) setup.theta)
          q in
      record {
        row = k.row;
        listed = In-nearest fl setup.distance enriched.embedding _ _ _ k.row db.items k.listed;
        joined = k.joined;
      }
