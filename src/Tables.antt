-- ===== src/Tables.antt =====
-- The tables of libs/schema/schema.sql as lists of rows, and the statements on them. An INSERT with
-- ON CONFLICT DO NOTHING leaves a table with the same primary key alone. Partitions, which only say
-- where a row is stored, are left out.
pub mod Items
pub mod Stories
pub mod Tallies
pub mod Statements
use pi_news_aggregator.Prelude.{
  ℕ, Bool, true, false, ℤ, Option, none, some, List, [], ◌∷◌, Text, Dict,
}
use pi_news_aggregator.Schema.{Item}
use pi_news_aggregator.Trust.Edges.{EdgeType}
use pi_news_aggregator.Trust.States.{TrustState}

pub record ItemRow (F : Type 0) : Type 0 where
  pub item : Item F
  pub embedding : List F
  pub exploration : Bool
  pub story_id : Option ℕ
  pub simhash : Option ℤ
  pub wire_ref : Text

pub record StoryRow (F : Type 0) : Type 0 where
  pub id : ℕ
  pub first_seen : ℕ
  pub last_seen : ℕ
  pub entity_set : List Text
  pub source_set : List Text
  pub independent_origins : ℕ
  pub trust_state : TrustState
  pub centroid : List F

pub record EdgeRow : Type 0 where
  pub story_id : ℕ
  pub src_item : ℕ
  pub dst_item : ℕ
  pub edge_type : EdgeType
  pub ts_observed : ℕ

pub record TallyRow : Type 0 where
  pub entity : Text
  pub bucket_ts : ℕ
  pub replica : Text
  pub mentions : ℕ

-- The value of a row of system_state that an enrich replica reports.
pub record Beat (F : Type 0) : Type 0 where
  pub sampling_active : Bool
  pub theta : F
  pub flushed_at : ℕ

pub record Tables (F : Type 0) : Type 0 where
  pub items : List (ItemRow F)
  pub stories : List (StoryRow F)
  pub provenance_edges : List EdgeRow
  pub entity_tallies : List TallyRow
  pub system_state : Dict Text (Beat F)
