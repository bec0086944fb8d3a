-- ===== src/Witness/Release.antt =====
-- A cycle of the retrainer on two rows, and a round of the watcher.
use pi_news_aggregator.Prelude.{
  ℕ, ◌≡◌, ◌≤◌, ◌⊎◌, refl, true, some, none, List, [], ◌∷◌, Text, codes, Bool,
}
use pi_news_aggregator.Floats.Fixed.{fixed}
use pi_news_aggregator.Bus.{Bytes}
use pi_news_aggregator.Retrain.{LabeledRow}
use pi_news_aggregator.Release.{Training, Bucket, Retrainer, Watcher, put_model, cycle, tick}
use pi_news_aggregator.Release.Installed.{Swapped, tick-Swapped}
use pi_news_aggregator.Release.Served.{Served, cycle_then_tick}

abbrev any_model : Bytes → Bool
any_model m = true

abbrev digest : Bytes → Text
digest m = m

abbrev training : Training fixed
training = record {
  train_model = λ rows. some (1 ∷ []);
  evaluate = λ m rows. some (fixed.dec 9 1);
  sha256 = digest;
  min_rows = 2;
  min_per_class = 1;
  rounded = λ n. 1;
}

abbrev two_rows : List LabeledRow
two_rows =
    record { ts_observed = 1; text = codes "fire"; label = 1 }
    ∷ record { ts_observed = 2; text = codes "lunch"; label = 0 }
    ∷ []

abbrev empty_bucket : Bucket (fixed.F)
empty_bucket = record { revision = 0; model = none; meta = none }

abbrev retrainer : Retrainer (fixed.F)
retrainer = record { cycles = 0; promotions = 0; bucket = empty_bucket; report = none }

abbrev watcher : Watcher
watcher = record { serving = none; last_rev = none }

-- The model is replaced between the first two reads.
tick-Swapped_example :
    (tick digest any_model
        (put_model (1 ∷ []) empty_bucket)
        (put_model (2 ∷ []) empty_bucket)
        empty_bucket
        watcher
      ≡ watcher)
    ⊎ Swapped digest any_model
        (put_model (1 ∷ []) empty_bucket)
        (put_model (2 ∷ []) empty_bucket)
        empty_bucket
        watcher
        (tick digest any_model
          (put_model (1 ∷ []) empty_bucket)
          (put_model (2 ∷ []) empty_bucket)
          empty_bucket
          watcher)
tick-Swapped_example =
    tick-Swapped digest any_model (put_model (1 ∷ []) empty_bucket)
      (put_model (2 ∷ []) empty_bucket) empty_bucket watcher

no_round : (r : ℕ) → none ≡ some r → r ≤ 0
no_round r q = cc q

cycle_then_tick_example :
    ((cycle fixed training 5 two_rows retrainer).1.bucket ≡ empty_bucket)
    ⊎ Served fixed training any_model two_rows empty_bucket
        (cycle fixed training 5 two_rows retrainer).1.bucket
        watcher
cycle_then_tick_example =
    cycle_then_tick fixed training any_model 5 two_rows retrainer watcher (λ c q. refl) no_round
