-- ===== src/Tables/Statements.antt =====
-- The statements that the services run, each as a step between tables.
pub mod Ranks
pub mod Kept
pub mod Links
use pi_news_aggregator.Prelude.{ℕ, ◌≤◌, ℤ, Bool, List, Text}
use pi_news_aggregator.Schema.{Item, TallyFlush}
use pi_news_aggregator.Trust.Edges.{ProvEdge}
use pi_news_aggregator.Trust.States.{TrustState, rank}
use package.pi_news_aggregator.Tables.{Beat, Tables}
use package.pi_news_aggregator.Tables.Items.{insert_item, assign_item}
use package.pi_news_aggregator.Tables.Stories.{
  create_story, touch_story, insert_edges, update_trust, promote_primary_backed, story_state,
}
use package.pi_news_aggregator.Tables.Tallies.{insert_tallies, upsert_system_state}

module _ {F : Type 0} where
  pub data Statement (t : Tables F) : Tables F → Type 0 where
    inserts :
        (item : Item F) (embedding : List F) (exploration : Bool)
        → Statement t (insert_item item embedding exploration t)
    assigns :
        (id ts story : ℕ) (simhash : ℤ) (wire : Text)
        → Statement t (assign_item id ts story simhash wire t).1
    creates :
        (id first_seen : ℕ) (entity_set : List Text) (source : Text) (centroid : List F)
        → Statement t (create_story id first_seen entity_set source centroid t)
    touches :
        (id last_seen : ℕ) (source : Text) (entity_set : List Text)
        → Statement t (touch_story id last_seen source entity_set t)
    links :
        (story : ℕ) (edges : List ProvEdge) (ts : ℕ) → Statement t (insert_edges story edges ts t)
    -- The trust state that is written ranks no lower than the one that is stored.
    trusts :
        (id origins : ℕ) (state : TrustState)
        → rank (story_state id t) ≤ rank state
        → Statement t (update_trust id origins state t)
    promotes : (id : ℕ) → Statement t (promote_primary_backed id t)
    adds_tallies : (flush : TallyFlush F) → Statement t (insert_tallies flush t)
    beats : (key : Text) (value : Beat F) → Statement t (upsert_system_state key value t)

  -- Any number of statements.
  pub data Statements : Tables F → Tables F → Type 0 where
    done : {t : Tables F} → Statements t t
    then_run : {t t' t'' : Tables F} → Statement t t' → Statements t' t'' → Statements t t''

  pub run_one : {t t' : Tables F} → Statement t t' → Statements t t'
  run_one x = then_run x done

  pub Statements-append :
      {t t' t'' : Tables F} → Statements t t' → Statements t' t'' → Statements t t''
  Statements-append done ys = ys
  Statements-append (then_run x xs) ys = then_run x (Statements-append xs ys)
