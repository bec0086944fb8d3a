-- ===== src/Schema.antt =====
-- libs/schema: the records that cross the bus, with the size caps that pydantic enforces when one is
-- built. Floats are a parameter `F`; ids and times are numbers (microseconds since the epoch).
pub mod Merge
use pi_news_aggregator.Prelude.{
  ℕ, Bool, true, false, ◌&&◌, ◌||◌, not, leb, ltb, Option, none, some, List, [], ◌∷◌, ◌++◌, Text,
  codes, length, Eq, ◌==◌, nat_eq, list_eq, ◌↔◌, ◌≡◌, refl, contains, if◌then◌else◌, ap, Dict,
  nonempty, arith, map, ==_true, ==_refl, and_true→both,
}

abbrev pub max_text_len : ℕ
max_text_len = 8192

abbrev pub max_url_len : ℕ
max_url_len = 2048

abbrev pub max_urls : ℕ
max_urls = 32

abbrev pub max_entities : ℕ
max_entities = 128

abbrev pub max_ref_len : ℕ
max_ref_len = 256

abbrev pub embed_dim : ℕ
embed_dim = 384

abbrev pub max_tally_entities : ℕ
max_tally_entities = 4096

abbrev pub max_tally_key_len : ℕ
max_tally_key_len = 256

pub data SourceClass : Type 0 where
  authoritative primary social mainstream local_news : SourceClass

-- SourceClass.value
abbrev pub class_value : SourceClass → Text
class_value authoritative = codes "authoritative"
class_value primary = codes "primary"
class_value social = codes "social"
class_value mainstream = codes "mainstream"
class_value local_news = codes "local_news"

pub data EntityType : Type 0 where
  person org place other : EntityType

abbrev pub type_beq : EntityType → EntityType → Bool
type_beq person person = true
type_beq org org = true
type_beq place place = true
type_beq other other = true
type_beq _ _ = false

pub type_beq_iff : (a b : EntityType) → (type_beq a b ≡ true) ↔ (a ≡ b)
type_beq_iff a b = ((λ h. ground arith), (λ h. ground arith))

instance abbrev pub type_eq : Eq EntityType
type_eq = record {
  test = type_beq;
  sound = λ a b. (type_beq_iff a b).0;
  reflexive = λ a. (type_beq_iff a a).1 refl;
}

pub record Geo (F : Type 0) : Type 0 where
  pub lat : F
  pub lon : F
  pub geohash : Option Text

pub record Entity (F : Type 0) : Type 0 where
  pub text : Text
  pub type : EntityType
  pub geo : Option (Geo F)

pub record Item (F : Type 0) : Type 0 where
  pub id : ℕ
  pub source : Text
  pub source_class : SourceClass
  pub ts_observed : ℕ
  pub ts_event : Option ℕ
  pub lang : Text
  pub text : Text
  pub entities : List (Entity F)
  pub geo : Option (Geo F)
  pub urls : List Text
  pub author_ref : Text
  pub parent_ref : Option Text
  pub content_hash : Text
  pub raw_ref : Text

pub record EnrichedItem (F : Type 0) : Type 0 where
  pub item : Item F
  pub embedding : List F
  pub exploration : Bool

pub record TallyFlush (F : Type 0) : Type 0 where
  pub bucket_ts : ℕ
  pub counts : Dict Text ℕ
  pub sampling_active : Bool
  pub theta : F
  pub replica : Text
  pub flushed_at : ℕ

pub record ClaimRequest : Type 0 where
  pub story_id : ℕ
  pub item_id : ℕ
  pub text : Text

pub record ClaimResult : Type 0 where
  pub story_id : ℕ
  pub item_id : ℕ
  pub claim : Text

abbrev pub max_len : ℕ → Text → Bool
max_len n t = leb (length t) n

abbrev pub max_len_opt : ℕ → Option Text → Bool
max_len_opt n none = true
max_len_opt n (some t) = max_len n t

-- The `Field(max_length=…)` caps of Item.
unfoldable pub item_fits : {F : Type 0} → Item F → Bool
item_fits i =
    max_len 64 i.source
    && (max_len 8 i.lang
        && (max_len max_text_len i.text
            && (leb (length i.entities) max_entities
                && (leb (length i.urls) max_urls
                    && (max_len max_ref_len i.author_ref
                        && (max_len_opt max_ref_len i.parent_ref
                            && (max_len max_ref_len i.content_hash
                                && max_len max_ref_len i.raw_ref)))))))

-- The validator of TallyFlush.counts: `none` is a ValueError. A count is a number, so none is
-- negative.
unfoldable pub check_keys : Dict Text ℕ → Bool
check_keys [] = true
check_keys ((k, n) ∷ d) = nonempty k && (max_len max_tally_key_len k && check_keys d)

unfoldable pub cap_counts : Dict Text ℕ → Option (Dict Text ℕ)
unfolding check_keys
cap_counts v =
    if ltb max_tally_entities (length v) then none else if check_keys v then some v else none

-- (e.text, e.type), as it stands in a set
abbrev pub EntityKey : Type 0
EntityKey = Text × EntityType

abbrev pub entity_key : {F : Type 0} → Entity F → EntityKey
entity_key e = (e.text, e.type)

abbrev pub key_beq : EntityKey → EntityKey → Bool
key_beq (s, a) (t, b) = (s == t) && type_beq a b

pub key_beq_refl : (k : EntityKey) → key_beq k k ≡ true
key_beq_refl (s, a) = rw (==_refl s) ((type_beq_iff a a).1 refl)

pub key_beq-true : (k j : EntityKey) → key_beq k j ≡ true → k ≡ j
key_beq-true (s, a) (t, b) h =
    let (p, q) = and_true→both (s == t) (type_beq a b) h in
    cc (==_true s t p, (type_beq_iff a b).0 q)

instance abbrev pub key_eq : Eq EntityKey
key_eq = record { test = key_beq; sound = key_beq-true; reflexive = key_beq_refl }

-- The loop's variables: the set `have` and the item.
pub record Merging (F : Type 0) : Type 0 where
  pub have : List EntityKey
  pub item : Item F

-- item.geo is None and ent.geo is not None
fill_geo : {F : Type 0} → Option (Geo F) → Option (Geo F) → Option (Geo F)
fill_geo (some g) new = some g
fill_geo none new = new

merge_step : {F : Type 0} → Merging F → Entity F → Merging F
unfolding fill_geo
merge_step m ent =
    if contains (entity_key ent) m.have || leb max_entities (length m.item.entities)
    then m
    else record {
      have = entity_key ent ∷ m.have;
      item = record m.item {
        entities = m.item.entities ++ ent ∷ [];
        geo = fill_geo m.item.geo ent.geo;
      };
    }

merge_loop : {F : Type 0} → Merging F → List (Entity F) → Merging F
unfolding merge_step
merge_loop m [] = m
merge_loop m (ent ∷ entities) = merge_loop (merge_step m ent) entities

unfoldable pub merge_entities : {F : Type 0} → Item F → List (Entity F) → Item F
unfolding merge_loop
merge_entities item entities =
    (merge_loop (record { have = map entity_key item.entities; item = item }) entities).item
