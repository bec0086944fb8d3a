-- ===== src/Retrain.antt =====
-- services/retrain/evalx.py: the split by time, the metrics, and the gate before a new classifier is
-- promoted. A reason is a constructor in place of a sentence.
pub mod Split
pub mod Gate
use pi_news_aggregator.Prelude.{
  ℕ, suc, ◌+◌, ◌-◌, min, max, Bool, true, false, leb, ltb, ◌==◌, nat_eq, Option, none, some, List,
  [], ◌∷◌, Text, Dict, get, put, length, take, drop, if◌then◌else◌,
}
use pi_news_aggregator.Floats.{Float}

pub record LabeledRow : Type 0 where
  pub ts_observed : ℕ
  pub text : Text
  pub label : ℕ

-- Counter.get(cls, 0)
unfoldable pub count_for : ℕ → Dict ℕ ℕ → ℕ
count_for cls counts = elim (get cls counts) [ none ↦ 0 | some n ↦ n ]

-- Counter(r.label for r in rows)
unfoldable pub class_counts : List LabeledRow → Dict ℕ ℕ → Dict ℕ ℕ
unfolding count_for
class_counts [] counts = counts
class_counts (r ∷ rows) counts =
    class_counts rows (put r.label (suc (count_for r.label counts)) counts)

-- sorted(rows, key=lambda r: r.ts_observed), which keeps the order of equal times
unfoldable pub insert_row : LabeledRow → List LabeledRow → List LabeledRow
insert_row r [] = r ∷ []
insert_row r (s ∷ rows) =
    let rest = insert_row r rows in
    if leb r.ts_observed s.ts_observed then r ∷ s ∷ rows else s ∷ rest

unfoldable pub sort_rows : List LabeledRow → List LabeledRow
unfolding insert_row
sort_rows [] = []
sort_rows (r ∷ rows) = insert_row r (sort_rows rows)

-- `rounded` is round(n * eval_frac), with a fraction that is not negative.
unfoldable pub eval_size : ℕ → ℕ → ℕ
eval_size rounded n = if leb 2 n then min (n - 1) (max 1 rounded) else 0

unfoldable pub time_split : ℕ → List LabeledRow → List LabeledRow × List LabeledRow
unfolding sort_rows eval_size
time_split rounded rows =
    let ordered = sort_rows rows in
    let cut = length ordered - eval_size rounded (length ordered) in
    (take cut ordered, drop cut ordered)

pub record Confusion : Type 0 where
  pub tp : ℕ
  pub fp : ℕ
  pub fn : ℕ

pub data Reason : Type 0 where
  too_few candidate_worse promoted : Reason
  underpopulated : (cls : ℕ) → Reason

unfoldable pub meets_floors : ℕ → ℕ → ℕ → Dict ℕ ℕ → Bool × Reason
unfolding count_for
meets_floors min_rows min_per_class n_labeled counts =
    if ltb n_labeled min_rows
    then (false, too_few)
    else if ltb (count_for 0 counts) min_per_class
    then (false, underpopulated 0)
    else if ltb (count_for 1 counts) min_per_class
    then (false, underpopulated 1)
    else (true, promoted)

module _ (fl : Float) where
  -- One step of the loop, for a score and a label.
  unfoldable pub confuse : fl.F → Confusion → fl.F → ℕ → Confusion
  confuse threshold c s y =
      if fl.leb threshold s
      then (if y == 1
          then record c { tp = suc c.tp }
          else if y == 0
          then record c { fp = suc c.fp }
          else c)
      else (if y == 1 then record c { fn = suc c.fn } else c)

  -- zip(…, strict=True): `none` is a ValueError for lists of different lengths.
  unfoldable pub confusion : fl.F → Confusion → List fl.F → List ℕ → Option Confusion
  unfolding confuse
  confusion threshold c [] [] = some c
  confusion threshold c (s ∷ scores) (y ∷ labels) =
      confusion threshold (confuse threshold c s y) scores labels
  confusion threshold c _ _ = none

  -- a / b if b else 0.0
  unfoldable pub share_of : ℕ → ℕ → fl.F
  share_of a b = if leb 1 b then fl.div (fl.dec a 0) (fl.dec b 0) else fl.dec 0 0

  -- (precision, recall)
  unfoldable pub rates : Confusion → fl.F × fl.F
  unfolding share_of
  rates c = (share_of c.tp (c.tp + c.fp), share_of c.tp (c.tp + c.fn))

  unfoldable pub should_promote : ℕ → ℕ → fl.F → Option fl.F → ℕ → Dict ℕ ℕ → Bool × Reason
  should_promote min_rows min_per_class candidate_f1 current_f1 n_labeled counts =
      let floors = meets_floors min_rows min_per_class n_labeled counts in
      if floors.0
      then elim current_f1 [
        | none ↦ (true, promoted)
        | some current ↦
            if fl.ltb candidate_f1 current then (false, candidate_worse) else (true, promoted)
      ]
      else (false, floors.1)
