-- ===== src/Schema/Merge.antt =====
-- What `merge_entities` keeps and what it adds.
use pi_news_aggregator.Prelude.{
  ◌≤◌, ◌<◌, ◌≡◌, refl, sym, ap, ◌∙◌, ◌⊎◌, inl, inr, Option, none, some, Bool-cases, List, [], ◌∷◌,
  ◌++◌, map, length, length-append, In, here, there, In-split, In-map, In-map_inv, In-append,
  In-append_left, In-append_right, In-one, contains, contains→In, In→contains, Distinct,
  Distinct-snoc, leb, arith, subst, append-nil, append_assoc,
}
use pi_news_aggregator.Schema.{
  Item, Entity, Geo, EntityKey, entity_key, key_eq, Merging, max_entities, merge_step, merge_loop,
  merge_entities, fill_geo,
}

abbrev entity_keys : {F : Type 0} → Item F → List EntityKey
entity_keys item = map entity_key item.entities

-- The geo after the added entities: the one that was there, or else the first of theirs.
abbrev pub first_geo : {F : Type 0} → Option (Geo F) → List (Entity F) → Option (Geo F)
first_geo (some g) es = some g
first_geo none [] = none
first_geo none (e ∷ es) = first_geo e.geo es

-- The result of merging `new` into `old`: the old entities stand first, the added ones are of `new`;
-- no key is repeated that was not; the cap holds if it held; a new key is missing only if the item
-- is full; the geo is the old one, or the first of the added entities; nothing else changes.
pub record Merged {F : Type 0} (old : Item F) (new : List (Entity F)) (item : Item F) : Type 0 where
  pub added : List (Entity F)
  pub prefix : item.entities ≡ old.entities ++ added
  pub from_new : (e : Entity F) → In e added → In e new
  pub distinct : Distinct (entity_keys old) → Distinct (entity_keys item)
  pub cap : length old.entities ≤ max_entities → length item.entities ≤ max_entities
  pub complete :
      (e : Entity F)
      → In e new
      → In (entity_key e) (entity_keys item) ⊎ (max_entities ≤ length item.entities)
  pub keeps_geo : (g : Geo F) → old.geo ≡ some g → item.geo ≡ some g
  pub geo : item.geo ≡ first_geo old.geo added
  pub rest : item ≡ record old { entities = item.entities; geo = item.geo }

-- `have` is the set of the item's keys.
pub record Tracks {F : Type 0} (m : Merging F) : Type 0 where
  pub sound : (k : EntityKey) → In k m.have → In k (entity_keys m.item)
  pub complete : (k : EntityKey) → In k (entity_keys m.item) → In k m.have

first_geo-nil : {F : Type 0} (g : Option (Geo F)) → first_geo g [] ≡ g
first_geo-nil none = refl
first_geo-nil (some g) = refl

first_geo-fill :
    {F : Type 0} (g : Option (Geo F)) (e : Entity F) (es : List (Entity F))
    → first_geo (fill_geo g e.geo) es ≡ first_geo g (e ∷ es)
unfolding fill_geo
first_geo-fill none e es = refl
first_geo-fill (some g) e es = refl

map-snoc :
    {A B : Type 0} (f : A → B) (xs : List A) (x : A) → map f (xs ++ x ∷ []) ≡ map f xs ++ f x ∷ []
map-snoc f [] x = refl
map-snoc f (y ∷ ys) x = ap (λ l. f y ∷ l) (map-snoc f ys x)

fill_geo-keeps :
    {F : Type 0} (a b : Option (Geo F)) (g : Geo F) → a ≡ some g → fill_geo a b ≡ some g
unfolding fill_geo
fill_geo-keeps none b g h = cc
fill_geo-keeps (some x) b g h = h

module _ {F : Type 0} (m : Merging F) (ent : Entity F) where
  -- The entity is skipped, or appended.
  data Outcome : Merging F → Type 0 where
    skipped : In (entity_key ent) m.have ⊎ (max_entities ≤ length m.item.entities) → Outcome m
    appended :
        (In (entity_key ent) m.have → ⊥)
        → length m.item.entities < max_entities
        → Outcome (record {
          have = entity_key ent ∷ m.have;
          item = record m.item {
            entities = m.item.entities ++ ent ∷ [];
            geo = fill_geo m.item.geo ent.geo;
          };
        })

  merge_step-Outcome : Outcome (merge_step m ent)
  unfolding merge_step
  merge_step-Outcome = elim (Bool-cases (contains (entity_key ent) m.have)) [
    | inl t ↦ rw t (skipped (inl (contains→In (entity_key ent) m.have t)))
    | inr f ↦ elim (Bool-cases (leb max_entities (length m.item.entities))) [
      | inl t ↦ rw (f, t) (skipped (inr (ground arith)))
      | inr u ↦
          rw (f, u) (appended (λ k. cc (f, In→contains (entity_key ent) m.have k)) (ground arith))
    ]
  ]

Merged-refl : {F : Type 0} (item : Item F) → Merged item [] item
Merged-refl item = record {
  added = [];
  prefix = sym (append-nil item.entities);
  from_new = λ e k. k;
  distinct = λ d. d;
  cap = λ h. h;
  complete = λ e k. elim k [ ];
  keeps_geo = λ g h. h;
  geo = sym (first_geo-nil item.geo);
  rest = refl;
}

-- What was merged stays: a longer list of entities has the keys of the shorter one.
keys_stay :
    {F : Type 0} {old item : Item F} {new : List (Entity F)} (k : EntityKey)
    → Merged old new item
    → In k (entity_keys old)
    → In k (entity_keys item)
keys_stay {old = old} k w m =
    let (e, q, j) = In-map_inv old.entities entity_key m in
    subst (λ l. In k (map entity_key l)) (sym w.prefix)
      (subst (λ z. In z (map entity_key (old.entities ++ w.added))) q
        (In-map (old.entities ++ w.added) entity_key (In-append_left old.entities w.added j)))

length_stays :
    {F : Type 0} {old item : Item F} {new : List (Entity F)}
    → Merged old new item
    → length old.entities ≤ length item.entities
length_stays {old = old} w = omega (arith, ap length w.prefix, length-append old.entities w.added)

module _ {F : Type 0} (m : Merging F) (ent : Entity F) (es : List (Entity F)) where
  step-Merged :
      (m' : Merging F)
      → Outcome m ent m'
      → Tracks m
      → (item : Item F) → (Tracks m' → Merged m'.item es item)
      → Merged m.item (ent ∷ es) item
  step-Merged m' (skipped why) tracks item later =
      let w = later tracks in
      record {
        added = w.added;
        prefix = w.prefix;
        from_new = λ e k. there (w.from_new e k);
        distinct = w.distinct;
        cap = w.cap;
        complete = λ e k. elim (In-split k) [
          | inl q ↦ elim why [
            | inl old ↦ inl (
                keys_stay (entity_key e) w (
                  subst (λ z. In (entity_key z) (entity_keys m.item)) (sym q) (tracks.sound _ old)))
            | inr full ↦ inr (omega (arith, length_stays w))
          ]
          | inr j ↦ w.complete e j
        ];
        keeps_geo = w.keeps_geo;
        geo = w.geo;
        rest = w.rest;
      }
  step-Merged m' (appended fresh room) tracks item later =
      let keys_eq = map-snoc entity_key m.item.entities ent in
      let w = later (record {
        sound = λ k j. subst (In k) (sym keys_eq) (elim (In-split j) [
          | inl q ↦ In-append_right (entity_keys m.item) _ (here q)
          | inr i ↦ In-append_left (entity_keys m.item) _ (tracks.sound k i)
        ]);
        complete = λ k j. elim (In-append (entity_keys m.item) _ (subst (In k) keys_eq j)) [
          | inl i ↦ there (tracks.complete k i)
          | inr i ↦ here (In-one i)
        ];
      }) in
      record {
        added = ent ∷ w.added;
        prefix = w.prefix ∙ append_assoc m.item.entities (ent ∷ []) w.added;
        from_new = λ e k. elim (In-split k) [ inl q ↦ here q | inr j ↦ there (w.from_new e j) ];
        distinct = λ d. w.distinct (
            subst Distinct (sym keys_eq) (
              Distinct-snoc (entity_keys m.item) (entity_key ent) d
                (λ k. fresh (tracks.complete _ k))));
        cap = λ h. w.cap (omega (arith, length-append m.item.entities (ent ∷ [])));
        complete = λ e k. elim (In-split k) [
          | inl q ↦ inl (
              keys_stay (entity_key e) w (
                subst (In (entity_key e)) (sym keys_eq)
                  (In-append_right (entity_keys m.item) _ (here (ap entity_key q)))))
          | inr j ↦ w.complete e j
        ];
        keeps_geo = λ g h. w.keeps_geo g (fill_geo-keeps m.item.geo ent.geo g h);
        geo = w.geo ∙ first_geo-fill m.item.geo ent w.added;
        rest = w.rest;
      }

merge_loop-Merged :
    {F : Type 0} (new : List (Entity F)) (m : Merging F)
    → Tracks m
    → Merged m.item new (merge_loop m new).item
unfolding merge_loop
merge_loop-Merged [] m tracks = Merged-refl m.item
merge_loop-Merged (ent ∷ es) m tracks =
    step-Merged m ent es (merge_step m ent) (merge_step-Outcome m ent) tracks
      (merge_loop (merge_step m ent) es).item (merge_loop-Merged es (merge_step m ent))

-- `merge_entities` appends entities of the argument whose key the item does not have, up to the cap,
-- and changes nothing else but a geo that was missing.
pub merge_entities-Merged :
    {F : Type 0} (item : Item F) (new : List (Entity F)) → Merged item new (merge_entities item new)
unfolding merge_entities
merge_entities-Merged item new =
    merge_loop-Merged new (record { have = entity_keys item; item = item })
      (record { sound = λ k m. m; complete = λ k m. m })
