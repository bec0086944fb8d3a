-- ===== src/Tables/Tallies.antt =====
-- services/enrich/db.py: the statements on `entity_tallies` and `system_state`.
use pi_news_aggregator.Prelude.{
  ℕ, Bool, false, ◌&&◌, ◌||◌, ◌==◌, nat_eq, list_eq, List, [], ◌∷◌, ◌++◌, Text, Dict, put,
  if◌then◌else◌,
}
use pi_news_aggregator.Schema.{TallyFlush}
use package.pi_news_aggregator.Tables.{TallyRow, Beat, Tables}

-- The primary key of a tally is (entity, bucket_ts, replica).
unfoldable pub has_tally : Text → ℕ → Text → List TallyRow → Bool
has_tally entity ts replica [] = false
has_tally entity ts replica (r ∷ rows) =
    (r.entity == entity && (r.bucket_ts == ts && r.replica == replica))
    || has_tally entity ts replica rows

-- _INSERT_TALLY
unfoldable pub insert_tally : Text → ℕ → Text → ℕ → List TallyRow → List TallyRow
unfolding has_tally
insert_tally entity ts replica n rows =
    if has_tally entity ts replica rows
    then rows
    else rows ++ record { entity = entity; bucket_ts = ts; replica = replica; mentions = n } ∷ []

-- executemany, in one transaction
unfoldable pub insert_counts : ℕ → Text → Dict Text ℕ → List TallyRow → List TallyRow
unfolding insert_tally
insert_counts ts replica [] rows = rows
insert_counts ts replica ((e, n) ∷ counts) rows =
    insert_counts ts replica counts (insert_tally e ts replica n rows)

module _ {F : Type 0} where
  unfoldable pub insert_tallies : TallyFlush F → Tables F → Tables F
  unfolding insert_counts
  insert_tallies flush t = record t {
    entity_tallies = insert_counts flush.bucket_ts flush.replica flush.counts t.entity_tallies;
  }

  -- _UPSERT_STATE
  unfoldable pub upsert_system_state : Text → Beat F → Tables F → Tables F
  unfolding put
  upsert_system_state key value t = record t { system_state = put key value t.system_state }
