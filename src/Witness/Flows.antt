-- ===== src/Witness/Flows.antt =====
-- Ingestion, clustering, scoring and notification on short inputs.
use pi_news_aggregator.Prelude.{
  ℕ, ◌≤◌, ◌≡◌, ◌↔◌, ◌+◌, true, false, some, List, [], ◌∷◌, Text, codes, Dict, arith, list_eq,
  nat_eq,
}
use pi_news_aggregator.Floats.Fixed.{fixed}
use pi_news_aggregator.Cluster.{Neighbor, choose_story}
use pi_news_aggregator.Cluster.Choice.{Chosen, choose_story-Chosen}
use pi_news_aggregator.Ingest.{item, PollSource}
use pi_news_aggregator.Ingest.Delivered.{Delivered}
use pi_news_aggregator.Notify.{Alert}
use pi_news_aggregator.Notify.Delivery.{Delivers, cycles, cycles-Delivers}
use pi_news_aggregator.Score.{
  ScoreConfig, StorySignals, StoryRow, Scorer, Write, SystemState, fill_series, cycle, since_of,
  is_warming,
}
use pi_news_aggregator.Score.Series.{Filled, fill_series-Filled}
use pi_news_aggregator.Score.Alerting.{Scores, cycle-Scores}
use pi_news_aggregator.Retrain.{LabeledRow, count_for, should_promote, time_split}
use pi_news_aggregator.Retrain.Split.{IsSplit, time_split-IsSplit}
use pi_news_aggregator.Retrain.Gate.{NotWorse, should_promote_iff}
use pi_news_aggregator.Trust.States.{corroborated}

abbrev neighbors : List (Neighbor (fixed.F))
neighbors =
    record { story_id = 4; similarity = fixed.dec 9 1; entity_texts = codes "rome" ∷ [] }
    ∷ record { story_id = 7; similarity = fixed.dec 8 1; entity_texts = codes "paris" ∷ [] }
    ∷ []

-- A record is its own key, and its own JSON.
abbrev feed : PollSource Text
feed = record {
  subject = codes "enriched.rss";
  normalize = λ raw. item raw;
  dedup_key = λ raw. raw;
}

abbrev feed_records : List Text
feed_records = codes "a" ∷ codes "b" ∷ codes "a" ∷ []

abbrev alert_table : List Alert
alert_table = record { story_id = 1; ts = 10 } ∷ record { story_id = 2; ts = 20 } ∷ []

-- The first cycle fails, the second does not.
cycles-Delivers_example : Delivers alert_table 5 0 (
    cycles 50 0 alert_table
      ((λ a. false) ∷ (λ a. true) ∷ [])
      (record { cursor = some 5; pushed = 0 }))
cycles-Delivers_example =
    cycles-Delivers 50 0 alert_table ((λ a. false) ∷ (λ a. true) ∷ []) 5 0
      ((omega arith, tt), (tt, tt))

abbrev score_config : ScoreConfig (fixed.F)
score_config = record {
  baseline = 432000;
  bin = 300;
  warm_min = 43200;
  mainstream_saturation = 3;
  gap_threshold = fixed.dec 2 0;
  w_amplification = fixed.dec 3 1;
  w_copy = fixed.dec 3 1;
  w_sync = fixed.dec 2 1;
  w_low_rep = fixed.dec 2 1;
  min_social = 5;
  flag_threshold = fixed.dec 7 1;
}

abbrev bot_signals : StorySignals
bot_signals = record {
  social_items = 10;
  independent_origins = 1;
  copy_edges = 9;
  synced_items = 8;
  low_rep_items = 2;
}

fill_series-Filled_example :
    Filled fixed
      ((600, fixed.dec 3 0) ∷ [])
      900
      300
      0
      (fill_series fixed ((600, fixed.dec 3 0) ∷ []) 0 900 300)
fill_series-Filled_example =
    fill_series-Filled fixed ((600, fixed.dec 3 0) ∷ []) 0 900 300 (omega arith)

abbrev first_of : List (fixed.F) → fixed.F
first_of [] = fixed.dec 0 0
first_of (x ∷ xs) = x

abbrev one_story : StoryRow (fixed.F)
one_story = record {
  id = 1;
  entity_set = codes "paris" ∷ [];
  trust_state = corroborated;
  independent_origins = 3;
  mention_series = [];
  mainstream_count = 0;
  social = 0;
  synced = 0;
  copy_edges = 0;
  low_rep = 0;
  inserts = true;
}

abbrev scored : List (Write (fixed.F)) × SystemState × Scorer
scored =
    cycle fixed first_of first_of score_config 86400 (some 0) (one_story ∷ [])
      (record { scored = 0; alerts = 0 })

cycle-Scores_example :
    Scores fixed first_of first_of score_config 86400
      (since_of fixed score_config 86400 (some 0))
      (is_warming fixed score_config 86400 (some 0))
      (one_story ∷ [])
      scored.0
      scored.1.alerts_raised
    × (scored.2.alerts ≡ 0 + scored.1.alerts_raised)
cycle-Scores_example =
    cycle-Scores fixed first_of first_of score_config 86400 (some 0) (one_story ∷ [])
      (record { scored = 0; alerts = 0 })

abbrev row_at : ℕ → LabeledRow
row_at t = record { ts_observed = t; text = codes "quake"; label = 1 }

abbrev enough : Dict ℕ ℕ
enough = (0, 60) ∷ (1, 140) ∷ []

should_promote_iff_example :
    ((should_promote fixed 200 30 (fixed.dec 8 1) (some (fixed.dec 7 1)) 200 enough).0 ≡ true) ↔ (
      (200 ≤ 200)
      × (30 ≤ count_for 0 enough)
      × (30 ≤ count_for 1 enough)
      × NotWorse fixed (fixed.dec 8 1) (some (fixed.dec 7 1)))
should_promote_iff_example =
    should_promote_iff fixed 200 30 (fixed.dec 8 1) (some (fixed.dec 7 1)) 200 enough

abbrev four_rows : List LabeledRow
four_rows = row_at 4 ∷ row_at 1 ∷ row_at 3 ∷ row_at 2 ∷ []

time_split-IsSplit_example :
    IsSplit 1 four_rows (time_split 1 four_rows).0 (time_split 1 four_rows).1
time_split-IsSplit_example = time_split-IsSplit 1 four_rows

choose_story-Chosen_example :
    Chosen fixed
      (codes "paris" ∷ [])
      (fixed.dec 7 1)
      neighbors
      (choose_story fixed (λ t. t) (codes "paris" ∷ []) neighbors (fixed.dec 7 1))
choose_story-Chosen_example =
    choose_story-Chosen fixed (λ t. t) (codes "paris" ∷ []) neighbors (fixed.dec 7 1)
