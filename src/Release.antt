-- ===== src/Release.antt =====
-- The way of a new classifier into service: the cycle of services/retrain/main.py, the bucket of
-- libs/classify/model_store.py, and the watcher of services/enrich/main.py. Training, onnxruntime and
-- the digest are parameters; a metadata record that is stored has a version.
pub mod Installed
pub mod Served
use pi_news_aggregator.Prelude.{
  ℕ, suc, Bool, true, false, ◌&&◌, not, ◌==◌, nat_eq, list_eq, Option, none, some, List, [], ◌∷◌,
  Text, Dict, nonempty, length, ◌>>=◌, if◌then◌else◌,
}
use pi_news_aggregator.Floats.{Float}
use pi_news_aggregator.Bus.{Bytes}
use pi_news_aggregator.Retrain.{
  LabeledRow, Reason, class_counts, time_split, meets_floors, should_promote, count_for,
}

pub record Training (fl : Float) : Type 0 where
  -- `none` is an exception.
  pub train_model : List LabeledRow → Option Bytes
  pub evaluate : Bytes → List LabeledRow → Option fl.F
  pub sha256 : Bytes → Text
  pub min_rows : ℕ
  pub min_per_class : ℕ
  -- round(n * EVAL_FRAC)
  pub rounded : ℕ → ℕ

-- The value under META_KEY
pub record Meta (F : Type 0) : Type 0 where
  pub version : Text
  pub f1 : F
  pub n_rows : ℕ
  pub trained_at : ℕ

-- The KV bucket: each write has the next revision.
pub record Bucket (F : Type 0) : Type 0 where
  pub revision : ℕ
  pub model : Option (Bytes × ℕ)
  pub meta : Option (Meta F)

-- The row "retrain" of system_state
pub record Report (F : Type 0) : Type 0 where
  pub last_run : ℕ
  pub labeled_rows : ℕ
  pub neg : ℕ
  pub pos : ℕ
  pub promoted : Bool
  pub reason : Reason
  pub candidate_f1 : Option F
  pub current_f1 : Option F
  pub version : Option Text
  pub cycles : ℕ

pub record Retrainer (F : Type 0) : Type 0 where
  pub cycles : ℕ
  pub promotions : ℕ
  pub bucket : Bucket F
  pub report : Option (Report F)

module _ {F : Type 0} where
  unfoldable pub get_model : Bucket F → Option Bytes
  get_model b = elim b.model [ none ↦ none | some got ↦ some got.0 ]

  unfoldable pub model_revision : Bucket F → Option ℕ
  model_revision b = elim b.model [ none ↦ none | some got ↦ some got.1 ]

  unfoldable pub put_meta : Meta F → Bucket F → Bucket F
  put_meta meta b = record b { revision = suc b.revision; meta = some meta }

  unfoldable pub put_model : Bytes → Bucket F → Bucket F
  put_model model b = record b { revision = suc b.revision; model = some (model, suc b.revision) }

  -- ModelStore.publish: two writes
  unfoldable pub publish_model : Bytes → Meta F → Bucket F → Bucket F
  unfolding put_meta put_model
  publish_model model meta b = put_model model (put_meta meta b)

-- What a cycle comes to before it writes.
pub record Verdict (F : Type 0) : Type 0 where
  pub candidate : Option Bytes
  pub reason : Reason
  pub candidate_f1 : Option F
  pub current_f1 : Option F

module _ (fl : Float) (tr : Training fl) where
  -- `some none` if there is no incumbent
  unfoldable pub incumbent_f1 : Option Bytes → List LabeledRow → Option (Option fl.F)
  incumbent_f1 none rows = some none
  incumbent_f1 (some current) rows = do f1 ← tr.evaluate current rows; some (some f1)

  unfoldable pub judged : List LabeledRow → Bytes → fl.F → Option fl.F → Verdict fl.F
  judged rows candidate cand_f1 cur_f1 =
      let gate =
        should_promote fl tr.min_rows tr.min_per_class cand_f1 cur_f1 (length rows)
          (class_counts rows []) in
      record {
        candidate = if gate.0 then some candidate else none;
        reason = gate.1;
        candidate_f1 = some cand_f1;
        current_f1 = cur_f1;
      }

  unfoldable pub decide : List LabeledRow → Bucket fl.F → Option (Verdict fl.F)
  unfolding get_model incumbent_f1 judged
  decide rows b =
      let floors = meets_floors tr.min_rows tr.min_per_class (length rows) (class_counts rows []) in
      let split = time_split (tr.rounded (length rows)) rows in
      if floors.0
      then (do
        candidate ← tr.train_model split.0
        cand_f1 ← tr.evaluate candidate split.1
        cur_f1 ← incumbent_f1 (get_model b) split.1
        some (judged rows candidate cand_f1 cur_f1))
      else some
          (record { candidate = none; reason = floors.1; candidate_f1 = none; current_f1 = none })

  abbrev pub f1_or_zero : Option fl.F → fl.F
  f1_or_zero none = fl.dec 0 0
  f1_or_zero (some f1) = f1

  unfoldable pub publish_candidate : ℕ → ℕ → Verdict fl.F → Option Bytes → Bucket fl.F → Bucket fl.F
  unfolding publish_model
  publish_candidate now n v none b = b
  publish_candidate now n v (some candidate) b =
      publish_model candidate
        (record {
          version = tr.sha256 candidate;
          f1 = f1_or_zero v.candidate_f1;
          n_rows = n;
          trained_at = now;
        })
        b

  abbrev pub is_some : Option Bytes → Bool
  is_some none = false
  is_some (some x) = true

  abbrev pub version_of : Option Bytes → Option Text
  version_of none = none
  version_of (some candidate) = some (tr.sha256 candidate)

  unfoldable pub conclude : ℕ → List LabeledRow → Verdict fl.F → Retrainer fl.F → Retrainer fl.F
  unfolding publish_candidate
  conclude now rows v s =
      let counts = class_counts rows [] in
      record {
        cycles = suc s.cycles;
        promotions = if is_some v.candidate then suc s.promotions else s.promotions;
        bucket = publish_candidate now (length rows) v v.candidate s.bucket;
        report = some (record {
          last_run = now;
          labeled_rows = length rows;
          neg = count_for 0 counts;
          pos = count_for 1 counts;
          promoted = is_some v.candidate;
          reason = v.reason;
          candidate_f1 = v.candidate_f1;
          current_f1 = v.current_f1;
          version = version_of v.candidate;
          cycles = suc s.cycles;
        });
      }

  -- Retrainer.cycle, for the rows of fetch_labels: `false` is a raise, before any write.
  unfoldable pub cycle : ℕ → List LabeledRow → Retrainer fl.F → Bool × Retrainer fl.F
  cycle now rows s = elim (decide rows s.bucket) [
    | none ↦ (false, s)
    | some v ↦ (true, conclude now rows v s)
  ]

-- The filter's classifier, once one has been swapped in, and `last_rev`.
pub record Watcher : Type 0 where
  pub serving : Option Bytes
  pub last_rev : Option ℕ

-- rev == last_rev
abbrev pub same_rev : ℕ → Option ℕ → Bool
same_rev rev none = false
same_rev rev (some last) = rev == last

-- `loads`: OnnxClassifier(model) and the run on "warmup" raise nothing.
module _ {F : Type 0} (sha256 : Bytes → Text) (loads : Bytes → Bool) where
  abbrev pub stored_version : Option (Meta F) → Text
  stored_version none = []
  stored_version (some meta) = meta.version

  -- From the digest on: a raise leaves the watcher as it is.
  unfoldable pub install : ℕ → Option Bytes → Option (Meta F) → Watcher → Watcher
  install rev none meta w = w
  install rev (some model) meta w =
      let version = stored_version meta in
      if nonempty version && not (version == sha256 model)
      then w
      else if loads model
      then record { serving = some model; last_rev = some rev }
      else w

  -- One round of watch_models, with the bucket as it is at each of its three reads.
  unfoldable pub tick : Bucket F → Bucket F → Bucket F → Watcher → Watcher
  unfolding get_model model_revision install
  tick at_rev at_model at_meta w = elim (model_revision at_rev) [
    | none ↦ w
    | some rev ↦
        if same_rev rev w.last_rev then w else install rev (get_model at_model) at_meta.meta w
  ]
